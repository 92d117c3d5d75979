-- ===== src/Worker/Waiting.antt =====
-- TecWorker_rpc_ as a whole, and a request that is made through the interface of daemons.
use tecc.Base.{ℕ, zero, suc, ◌<◌, ◌≡◌, refl, ◌∙◌, true, false, Option, some, [], arith, ◌==◌}
use tecc.Base.Int.{ℤ}
use tecc.Base.Heap.{Ptr, null, IsFresh, Holds, load_lem, put_self, given}
use tecc.Base.Run.{Run, ok, ◌>>=◌, Returns}
use tecc.Map.Table.{Buckets, IsTable, view}
use tecc.Map.Methods.{or_null}
use tecc.Queue.Line.{IsQueue}
use tecc.Queue.Methods.{push-IsQueue}
use tecc.Worker.Messages.{Msg, Code}
use tecc.Worker.Defs.{Worker, turn, ask, result}
use tecc.Worker.Requests.{KeepsRpc}
use tecc.Worker.Asking.{HandledFor, asked_store, ask_steps, rpc-Answered}
use tecc.Worker.Daemons.{Answers, functions, wait_ready, ask_and_wait}
use tecc.Daemon.Defs.{rpc, returned}

module _ {World : Type 0} (code : Code World) where
  ready_now :
      (fuel : ℕ) (sig : Ptr) (w : Worker World)
      → Holds w.store.signals sig true
      → wait_ready (suc fuel) code sig w ≡ ok (some w)
  unfolding wait_ready
  ready_now fuel sig w there = rw (load_lem there)

  ready_next :
      (fuel : ℕ) (sig msg : Ptr) (w w' : Worker World)
      → Holds w.store.signals sig false
      → turn code w ≡ ok (some (msg, w'))
      → (msg == null) ≡ false
      → Holds w'.store.signals sig true
      → 1 < fuel
      → wait_ready fuel code sig w ≡ ok (some w')
  unfolding wait_ready
  ready_next zero sig msg w w' before run filled after enough = absurd (omega arith)
  ready_next (suc zero) sig msg w w' before run filled after enough = absurd (omega arith)
  ready_next (suc (suc fuel)) sig msg w w' before run filled after enough =
      rw (load_lem before, run, filled) (ready_now fuel sig w' after)

  rpc_steps :
      (a : Answers) (w w₁ w₂ : Worker World) (request reply : Ptr) {err : ℤ}
      → ask w a.rpc a.sig_ready a.node request reply ≡ ok w₁
      → wait_ready a.fuel code a.sig_ready w₁ ≡ ok (some w₂)
      → result w₂ a.rpc ≡ ok err
      → rpc a (record { daemon = functions code; self = w }) request reply
        ≡ ok (some (err, record { daemon = functions code; self = w₂ }))
  unfolding rpc returned functions given ask_and_wait
  rpc_steps a w w₁ w₂ request reply asks waits answers = rw (asks, waits, answers)

  -- TecDaemon_rpc of a worker whose queue is empty and whose table of callbacks is well formed,
  -- with fresh memory for its variables and its node, where callbacks end and keep the request that
  -- they are given, and the fuel allows for the turn: the wait ends, and the call returns the error
  -- of the request. The callback that is registered for the tag of what is requested was called on
  -- it, or the error is TECC_ERR_HANDLER_NOT_FOUND where there is none. The queue is empty again,
  -- and the table of functions and the rest of the worker, but for its memory, are as before.
  pub rpc-functions :
      (a : Answers) (w : Worker World) {cells : Buckets} {request : Ptr} (reply : Ptr) (q : Msg)
      → 1 < a.fuel
      → IsQueue w.queue []
      → IsTable w.callbacks cells
      → KeepsRpc code a.rpc
      → IsFresh w.queue.heap a.node
      → IsFresh w.store.msgs a.rpc
      → IsFresh w.store.signals a.sig_ready
      → Holds w.store.msgs request q
      → Returns (rpc a (record { daemon = functions code; self = w }) request reply) λ r.
        (w' : Worker World) × (h : HandledFor code w.store a.rpc a.sig_ready request reply
          (or_null (view w.callbacks cells q.tag))
          w'.store)
        × (r ≡ some (h.rpc_after.error, record { daemon = functions code; self = w' }))
        × (w' ≡ record w { store = w'.store; queue = w'.queue })
        × IsQueue w'.queue []
  rpc-functions a w {request} reply q enough empty table keeps fresh_node fresh_msg fresh_sig
        there =
      let (q₁, pushed, _) = push-IsQueue a.rpc empty fresh_node in
      let w₁ = record w {
        store = asked_store w.store a.rpc a.sig_ready request reply;
        queue = q₁;
      } in
      let asks = ask_steps w a.rpc a.sig_ready a.node request reply q₁ fresh_msg fresh_sig pushed in
      let (o, run, (w₂, same, signalled, others, empty', handled, answers)) =
        rpc-Answered code w reply q empty table keeps fresh_node fresh_msg fresh_sig there in
      let turned : turn code w₁ ≡ ok (some (a.rpc, w₂)) = after asks run ∙ rw same in
      let before : Holds w₁.store.signals a.sig_ready false = record {
        not_null = fresh_sig.not_null;
        holds = put_self w.store.signals a.sig_ready _;
      } in
      let waits =
        ready_next a.fuel a.sig_ready a.rpc w₁ w₂ before turned fresh_msg.not_null
          (record { not_null = fresh_sig.not_null; holds = signalled }) enough in
      (
        some (handled.rpc_after.error, record { daemon = functions code; self = w₂ }),
        rpc_steps a w w₁ w₂ request reply asks waits answers,
        (w₂, handled, refl, others, empty'),
      )
    where
      after :
          {r : Run (Worker World)} {w₁ : Worker World} {o : Option (Ptr × Worker World)}
          → r ≡ ok w₁
          → (r >>= λ w'. turn code w') ≡ ok o
          → turn code w₁ ≡ ok o
      after e e' = rw e at e'
