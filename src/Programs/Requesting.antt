-- ===== src/Programs/Requesting.antt =====
-- What the program of examples/worker/request.c makes of its worker.
use mathlib.Core.Path.{subst}
use tecc.Base.{
  ℕ, ◌<◌, ◌≡◌, refl, ap, sym, ◌∙◌, Bool, true, false, none, some, [], arith, ◌==◌, if_true,
}
use tecc.Base.Int.{ℤ, pos}
use tecc.Base.Heap.{Ptr, null, IsFresh, Holds, given}
use tecc.Base.Run.{ok, Returns}
use tecc.Map.Defs.{Map}
use tecc.Map.Table.{Buckets, IsTable, view}
use tecc.Map.Clearing.{done-empty}
use tecc.Map.Methods.{or_null}
use tecc.Queue.Defs.{Queue}
use tecc.Queue.Line.{IsQueue, owns}
use tecc.Queue.Methods.{done-freed}
use tecc.Worker.Messages.{Msg, Store, Code}
use tecc.Worker.Defs.{Worker, is_zero, call_hook, leave, terminate}
use tecc.Worker.Defs as Defs
use tecc.Worker.Requests.{KeepsRpc, Answered-along}
use tecc.Worker.Serving.{has_null, dispatch_all, ended, terminate-dispatch_all}
use tecc.Worker.Daemons.{Answers, functions}
use tecc.Worker.Asking.{HandledFor}
use tecc.Worker.Waiting.{rpc-functions}
use tecc.Daemon.Defs.{Object, rpc, returned}
use tecc.Daemon.Defs as DaemonDefs
use tecc.Programs.RequestMain.{
  analyzed, query_gauge, query_running, check_run, end_request, terminate_request, request_main,
}
use tecc.Programs.Ends.{granted, behind, cleaned, run_steps, done_steps}

module _ {World : Type 0} (code : Code World) where
  ended_steps :
      (w : Worker World) (q : Queue) (s : Store World)
      → w.on_exit ≡ none
      → ended code w q s
        ≡ ok (
            some
              (w.error, record w { sig_terminated = true; queue = q; joinable = false; store = s }))
  unfolding ended leave call_hook
  ended_steps w q s no_hook = rw no_hook

  query_steps :
      (a : Answers) (request reply : Ptr) (w₁ w₂ : Worker World) (err : ℤ)
      → w₁.sig_running ≡ true
      → rpc a (behind code w₁) request reply ≡ ok (some (err, behind code w₂))
      → query_running a (behind code w₁) request reply ≡ ok (some (some err, behind code w₂))
  unfolding query_running query_gauge analyzed DaemonDefs.wait_until_running functions given
  query_steps a request reply w₁ w₂ err up asks = if_true w₁.sig_running _ _ up ∙ rw asks

  asked_steps :
      (fuel : ℕ) (a : Answers) (p request reply : Ptr) (w w₁ w₂ : Worker World) (err e : ℤ)
      → Defs.run (pos 0) (pos 0) w ≡ ok (e, w₁)
      → is_zero e ≡ true
      → query_running a (behind code w₁) request reply ≡ ok (some (some err, behind code w₂))
      → request_main
          (granted fuel null)
          a
          (granted fuel p)
          (granted fuel null)
          (behind code w)
          request
          reply
        ≡ terminate_request (granted fuel p) (granted fuel null) (some (some err, behind code w₂))
  unfolding request_main check_run DaemonDefs.run returned functions given
  asked_steps fuel a p request reply w w₁ w₂ err e runs fine asks = rw (runs, fine, asks)

  finished_steps :
      (fuel : ℕ) (w₃ w₄ : Worker World) (err e : ℤ)
      → w₃.sig_terminated ≡ true
      → Defs.done fuel w₃ ≡ ok w₄
      → end_request (granted fuel null) (some err) (some (e, behind code w₃))
        ≡ ok (some (some err, e, cleaned code w₄))
  unfolding end_request DaemonDefs.wait_until_terminated DaemonDefs.done functions given
  finished_steps fuel w₃ w₄ err e over cleans = if_true w₃.sig_terminated _ _ over ∙ rw cleans

  end_steps :
      (fuel : ℕ) (p : Ptr) (w₂ w₃ w₄ : Worker World) (err e : ℤ)
      → terminate fuel code w₂ p ≡ ok (some (e, w₃))
      → w₃.sig_terminated ≡ true
      → Defs.done fuel w₃ ≡ ok w₄
      → terminate_request (granted fuel p) (granted fuel null) (some (some err, behind code w₂))
        ≡ ok (some (some err, e, cleaned code w₄))
  unfolding terminate_request DaemonDefs.terminate returned functions given
  end_steps fuel p w₂ w₃ w₄ err e ends over cleans =
      rw ends (finished_steps fuel w₃ w₄ err e over cleans)

  -- A worker with an empty queue is terminated and released.
  released_lem :
      (fuel : ℕ) (w : Worker World) {cells : Buckets} (p : Ptr) (err : ℤ)
      → 1 < fuel
      → is_zero w.error ≡ true
      → w.sig_terminated ≡ false
      → w.on_exit ≡ none
      → IsQueue w.queue []
      → IsTable w.callbacks cells
      → (p == null) ≡ false
      → (w' : Worker World) × (terminate_request
            (granted fuel p)
            (granted fuel null)
            (some (some err, behind code w))
          ≡ ok (some (some err, w.error, cleaned code w')))
        × (w'.store ≡ w.store)
        × (w'.sig_terminated ≡ true)
        × ((n : Ptr) → w'.queue.heap n ≡ none)
        × ((n : Ptr) → w'.callbacks.heap n ≡ none)
  unfolding owns has_null dispatch_all
  released_lem fuel w p err enough fine on no_hook empty table some_place =
      let fresh : IsFresh w.queue.heap p = record {
        not_null = some_place;
        unused = empty.owned p refl;
      } in
      let (q, empty', ends) =
        terminate-dispatch_all code fuel w empty refl fresh (omega arith) fine on in
      let w₃ = record w { sig_terminated = true; queue = q; joinable = false } in
      let (q', freed, no_node) = done-freed fuel empty' (omega arith) in
      let (m, emptied, (no_cell, _, _, _)) = done-empty table in
      (
        _,
        end_steps fuel p w w₃ _ err w.error (ends ∙ ended_steps w q w.store no_hook) refl
            (done_steps code fuel w₃ q' m freed emptied),
        refl,
        refl,
        no_node,
        no_cell,
      )

  -- The program on a worker as its registrations leave it, without an error, with an empty queue, a
  -- well-formed table of callbacks and no hooks, given the lock, the thread and fresh memory for
  -- the call, where callbacks end and keep the request that they are given, the node for the NULL
  -- is none but NULL, and both waits have more than one unit of fuel: it ends and returns 0, the
  -- error of the worker. Before the termination, the callback that is registered for the tag of
  -- what is requested was called on the request, or the error of the request is
  -- TECC_ERR_HANDLER_NOT_FOUND where there is none; then its signal was set and nothing else of the
  -- memory changed, and the query got the error that the request has. The thread has ended, no node
  -- of the queue or the table is left, and TecDaemon_done is forgotten.
  pub request_main-rpc :
      (fuel : ℕ) (a : Answers) (w : Worker World) {cells : Buckets} (p : Ptr) {request : Ptr}
      (reply : Ptr) (q : Msg)
      → 1 < fuel
      → 1 < a.fuel
      → is_zero w.error ≡ true
      → w.sig_terminated ≡ false
      → w.on_init ≡ none
      → w.on_exit ≡ none
      → IsQueue w.queue []
      → IsTable w.callbacks cells
      → KeepsRpc code a.rpc
      → IsFresh w.queue.heap a.node
      → IsFresh w.store.msgs a.rpc
      → IsFresh w.store.signals a.sig_ready
      → Holds w.store.msgs request q
      → (p == null) ≡ false
      → Returns
          (request_main
            (granted fuel null)
            a
            (granted fuel p)
            (granted fuel null)
            (behind code w)
            request
            reply)
          λ r.
            (w' : Worker World) × (h : HandledFor code w.store a.rpc a.sig_ready request reply
              (or_null (view w.callbacks cells q.tag))
              w'.store)
            × (r ≡ some (some h.rpc_after.error, w.error, cleaned code w'))
            × (w'.sig_terminated ≡ true)
            × ((n : Ptr) → w'.queue.heap n ≡ none)
            × ((n : Ptr) → w'.callbacks.heap n ≡ none)
  request_main-rpc fuel a w {cells} p {request} reply q enough enough' fine on no_init no_exit empty
        table keeps fresh_node fresh_msg fresh_sig there some_place =
      let w₁ = record w { joinable = true; sig_running = true } in
      let (r₂, asks, (w₂, handled, same, others, empty₂)) =
        rpc-functions code a w₁ reply q enough' empty table keeps fresh_node fresh_msg fresh_sig
          there in
      let err = handled.rpc_after.error in
      let read = λ (A : Type 0) (f : Worker World → A). ap f others in
      let (w', ends, kept, over, no_node, no_cell) =
        released_lem fuel w₂ p err enough (read Bool (λ x. is_zero x.error) ∙ fine)
          (read Bool (λ x. x.sig_terminated) ∙ on)
          (ap (λ (x : Worker World). x.on_exit) others ∙ no_exit) empty₂
          (subst (λ (m : Map). IsTable m cells)
            (sym (ap (λ (x : Worker World). x.callbacks) others)) table)
          some_place in
      (
        some (some err, w.error, cleaned code w'),
        asked_steps fuel a p request reply w w₁ w₂ err w.error (run_steps code w fine no_init) fine
              (query_steps a request reply w₁ w₂ err refl (asks ∙ ap ok same))
            ∙ ends
            ∙ ap (λ (e : ℤ). ok (some (some err, e, cleaned code w')))
                (ap (λ (x : Worker World). x.error) others),
        (w', Answered-along kept handled, refl, over, no_node, no_cell),
      )
