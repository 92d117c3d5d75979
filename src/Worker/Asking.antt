-- ===== src/Worker/Asking.antt =====
-- Calls of TecWorker_rpc_.
use tecc.Base.{
  ◌≡◌, inl, inr, refl, sym, ap, ◌∙◌, true, false, none, some, [], ◌==◌, Bool-cases, ==_iff,
}
use tecc.Base.Int.{pos}
use tecc.Base.Heap.{
  Ptr, null, Heap, IsFresh, fill_lem, put, Holds, load_lem, Holds-put_ne, put_self,
}
use tecc.Base.Run.{ok, ◌>>=◌, Returns}
use tecc.Map.Defs.{Map, same_key}
use tecc.Map.Table.{Buckets, IsTable, view}
use tecc.Map.Methods.{or_null}
use tecc.Queue.Defs.{Queue, push}
use tecc.Queue.Line.{IsQueue}
use tecc.Queue.Methods.{push-IsQueue, pop-IsQueue}
use tecc.Worker.Messages.{Rpc, rpc, Msg, Store, Code, rpc_init, dispatch, on_rpc}
use tecc.Worker.Defs.{Worker, send, process, turn, ask, result}
use tecc.Worker.Serving.{turn_steps}
use tecc.Worker.Requests.{as_rpc_lem, Pending, KeepsRpc, Handled, on_rpc-Answered}

-- The request of a call, as it is made.
abbrev pub asked : Ptr → Ptr → Ptr → Rpc
asked sig request reply = record {
  request = request;
  reply = reply;
  sig_ready = sig;
  error = pos 0;
}

-- The request that is asked for stands elsewhere.
elsewhere :
    {h : Heap Msg} (p : Ptr) {request : Ptr} {q : Msg}
    → h p ≡ none
    → Holds h request q
    → (request == p) ≡ false
elsewhere {h} p {request} {q} unused there = elim (Bool-cases (request == p)) [
  | inl e ↦ absurd (differ (sym unused ∙ ap h (sym ((==_iff request p).0 e)) ∙ there.holds))
  | inr e ↦ e
]
  where
    differ : none ≡ some q → ⊥
    differ e = cc

asked_rpc :
    (sig request reply : Ptr) → (rpc_init request reply sig).body ≡ rpc (asked sig request reply)
unfolding rpc_init
asked_rpc sig request reply = refl

module _ {World : Type 0} where
  -- The memory with the local variables of a call of TecWorker_rpc_.
  abbrev pub asked_store : Store World → Ptr → Ptr → Ptr → Ptr → Store World
  asked_store s p sig request reply = record s {
    msgs = put s.msgs p (some (rpc_init request reply sig));
    signals = put s.signals sig (some false);
  }

  -- What the handler leaves of the request that a call has put into the store `s`.
  abbrev pub HandledFor :
      Code World → Store World → Ptr → Ptr → Ptr → Ptr → Ptr → Store World → Type 0
  HandledFor code s p sig request reply callback s' =
      Handled code (asked_store s p sig request reply) p (rpc_init request reply sig)
        (asked sig request reply) callback s'

  abbrev Pending-asked :
      (s : Store World) (p sig request reply : Ptr)
      → (p == null) ≡ false
      → Pending (asked_store s p sig request reply) p (asked sig request reply)
  Pending-asked s p sig request reply some_place = record {
    msg = rpc_init request reply sig;
    here = record { not_null = some_place; holds = put_self s.msgs p _ };
    is_rpc = asked_rpc sig request reply;
  }

  dispatch_rpc :
      (code : Code World) (callbacks : Map) (s : Store World) (p sig request reply : Ptr)
      → (p == null) ≡ false
      → dispatch code callbacks (asked_store s p sig request reply) p
        ≡ on_rpc code callbacks (asked_store s p sig request reply) p
  unfolding dispatch rpc_init same_key
  dispatch_rpc code callbacks s p sig request reply some_place =
      let here : Holds (put s.msgs p (some (rpc_init request reply sig))) p
          (rpc_init request reply sig) =
        record { not_null = some_place; holds = put_self s.msgs p _ } in
      rw (load_lem here)

  pub ask_steps :
      (w : Worker World) (p sig node request reply : Ptr) (q : Queue)
      → IsFresh w.store.msgs p
      → IsFresh w.store.signals sig
      → push w.queue node p ≡ ok q
      → ask w p sig node request reply
        ≡ ok (record w { store = asked_store w.store p sig request reply; queue = q })
  unfolding ask send
  ask_steps w p sig node request reply q fresh_msg fresh_sig run = rw (
    fill_lem w.store.signals sig false fresh_sig.not_null,
    fill_lem w.store.msgs p (rpc_init request reply sig) fresh_msg.not_null,
    run,
  )

  process_steps :
      (code : Code World) (w : Worker World) (p : Ptr) {s : Store World}
      → (p == null) ≡ false
      → dispatch code w.callbacks w.store p ≡ ok s
      → process code w p ≡ ok (record w { store = s })
  unfolding process
  process_steps code w p filled run = rw (filled, run)

  pub result_lem :
      (w : Worker World) {p : Ptr} {r : Rpc} → Pending w.store p r → result w p ≡ ok r.error
  unfolding result
  result_lem w t = rw (load_lem t.here, as_rpc_lem t.msg t.is_rpc)

  -- A call of TecWorker_rpc_ while the queue is empty and the table of callbacks well formed, with
  -- fresh memory for its variables and its node, where callbacks end and keep the request that they
  -- are given: the next turn of the thread takes the request and handles it. The callback that is
  -- registered for the tag of what is requested was called on it, or its error is
  -- TECC_ERR_HANDLER_NOT_FOUND where there is none; then its signal was set, and the caller gets
  -- the error that the request has. The queue is empty again, and nothing else of the worker
  -- changes but its memory.
  pub rpc-Answered :
      (code : Code World) (w : Worker World) {cells : Buckets} {p sig node request : Ptr}
      (reply : Ptr) (q : Msg)
      → IsQueue w.queue []
      → IsTable w.callbacks cells
      → KeepsRpc code p
      → IsFresh w.queue.heap node
      → IsFresh w.store.msgs p
      → IsFresh w.store.signals sig
      → Holds w.store.msgs request q
      → Returns (ask w p sig node request reply >>= λ w'. turn code w') λ o.
        (w' : Worker World) × (o ≡ some (p, w'))
        × (w'.store.signals sig ≡ some true)
        × (w' ≡ record w { store = w'.store; queue = w'.queue })
        × IsQueue w'.queue []
        × (h : HandledFor code w.store p sig request reply
            (or_null (view w.callbacks cells q.tag))
            w'.store)
        × (result w' p ≡ ok h.rpc_after.error)
  rpc-Answered code w {cells} {p} {sig} {node} {request} reply q empty table keeps fresh_node
        fresh_msg fresh_sig there =
      let (q₁, pushed, t₁) = push-IsQueue p empty fresh_node in
      let (q₂, popped, t₂) = pop-IsQueue t₁ in
      let s = asked_store w.store p sig request reply in
      let apart = elsewhere p fresh_msg.unused there in
      let (s', run, done) =
        on_rpc-Answered code s q table keeps
          (Pending-asked w.store p sig request reply fresh_msg.not_null)
          (false, record { not_null = fresh_sig.not_null; holds = put_self w.store.signals sig _ })
          (Holds-put_ne p _ there apart) apart in
      let w₂ = record w { store = s; queue = q₂ } in
      let w₃ = record w { store = s'; queue = q₂ } in
      let dispatched =
        dispatch_rpc code w.callbacks w.store p sig request reply fresh_msg.not_null ∙ run in
      (
        some (p, w₃),
        rw (
          ask_steps w p sig node request reply q₁ fresh_msg fresh_sig pushed,
          turn_steps code (record w { store = s; queue = q₁ }) p q₂ popped,
          process_steps code w₂ p fresh_msg.not_null dispatched,
        ),
        (w₃, refl, done.signalled, refl, t₂, done, result_lem w₃ done.pending),
      )
