-- ===== src/Programs/Serving.antt =====
-- What the program of examples/socket/server.c makes of its service.
use tecc.Base.{
  ℕ, ◌<◌, ◌≡◌, ◌⊎◌, inl, inr, refl, ◌∙◌, true, false, none, some, [], arith, Bool-cases, if_true,
  if_false,
}
use tecc.Base.Int.{ℤ, pos}
use tecc.Base.Heap.{Ptr, null, IsFresh, given}
use tecc.Base.Run.{Run, ok, ◌>>=◌, Returns}
use tecc.Map.Defs.{Map}
use tecc.Map.Defs as MapDefs
use tecc.Map.Table.{Buckets, IsTable}
use tecc.Map.Clearing.{done-empty}
use tecc.Queue.Defs.{Queue}
use tecc.Queue.Defs as QueueDefs
use tecc.Queue.Line.{IsQueue}
use tecc.Queue.Methods.{done-freed}
use tecc.Worker.Messages.{Store, Code}
use tecc.Worker.Defs.{Worker, is_zero, call_hook, initialize, joined_on_error, terminate}
use tecc.Worker.Defs as WorkerDefs
use tecc.Worker.Serving.{has_null, dispatch_all}
use tecc.Worker.Daemons as WorkerDaemons
use tecc.ServiceWorker.Defs.{
  Service, ServiceState, service_start_func, started, init_service, in_store, on_init, on_exit,
}
use tecc.ServiceWorker.Running.{run-refused, terminate-shutdown}
use tecc.ServiceWorker.Daemons.{functions, done}
use tecc.Daemon.Defs.{Object, returned}
use tecc.Daemon.Defs as DaemonDefs
use tecc.Programs.ServerMain.{clean_up, end_server, serve, check_start, server_main}
use tecc.Programs.Ends.{granted}

module _ {S : Type 0} (svc : Service S) (release : S → Run S) (code : Code (ServiceState S)) where
  -- The release of the service behind a worker.
  abbrev pub released : Worker (ServiceState S) → Run (Worker (ServiceState S))
  released w = do
    s ← release w.store.world.service
    ok (record w { store = record (w.store) { world = record (w.store.world) { service = s } } })

  abbrev pub behind :
      Worker (ServiceState S) → Object WorkerDaemons.Answers (Worker (ServiceState S))
  behind w = record { daemon = functions code; self = w }

  abbrev pub cleaned :
      Worker (ServiceState S) → Object WorkerDaemons.Answers (Worker (ServiceState S))
  cleaned w = record { daemon = record (functions code) { done = none }; self = w }

  -- The state after a start that succeeded.
  abbrev running : ServiceState S → ℤ → S → ServiceState S
  running self err t = record self { service = t; error = err; sig_started = true; joinable = true }

  abbrev up : Worker (ServiceState S) → ℤ → S → Worker (ServiceState S)
  up w err t = record w {
    error = err;
    store = record (w.store) { world = running w.store.world err t };
    sig_running = true;
    joinable = true;
  }

  init_steps :
      (s : Store (ServiceState S)) {err : ℤ} {t : S}
      → svc.start s.world.service ≡ ok (err, t)
      → is_zero err ≡ true
      → in_store (init_service svc (pos 0)) s ≡ ok (err, record s { world = running s.world err t })
  unfolding in_store init_service service_start_func started is_zero
  init_steps s starts fine = rw (starts, fine)

  run_steps :
      (w : Worker (ServiceState S)) {err : ℤ} {t : S}
      → is_zero w.error ≡ true
      → w.on_init ≡ on_init svc (pos 0)
      → svc.start w.store.world.service ≡ ok (err, t)
      → is_zero err ≡ true
      → WorkerDefs.run (pos 0) (pos 0) w ≡ ok (err, up w err t)
  unfolding WorkerDefs.run is_zero initialize call_hook joined_on_error on_init
  run_steps w fine hook starts good = rw (hook, fine, init_steps w.store starts good, good)

  done_steps :
      (fuel : ℕ) (w : Worker (ServiceState S)) (q : Queue) (m : Map)
      → QueueDefs.done fuel w.queue ≡ ok q
      → MapDefs.done w.callbacks ≡ ok m
      → done fuel w
        ≡ ok (record w {
          queue = q;
          callbacks = m;
          joinable = false;
          store = record (w.store) { world = record (w.store.world) { joinable = false } };
        })
  unfolding done WorkerDefs.done
  done_steps fuel w q m run run' = rw (run, run')

  abbrev with_service : Worker (ServiceState S) → S → Worker (ServiceState S)
  with_service w t = record w {
    store = record (w.store) { world = record (w.store.world) { service = t } };
  }

  clean_steps :
      (fuel : ℕ) (w w' : Worker (ServiceState S)) (err : ℤ) {t : S}
      → release w.store.world.service ≡ ok t
      → done fuel (with_service w t) ≡ ok w'
      → clean_up released (granted fuel null) err (behind w) ≡ ok (some (err, cleaned w'))
  unfolding clean_up DaemonDefs.done functions
  clean_steps fuel w w' err releases run = rw (releases, run)

  main_steps :
      (fuel : ℕ) (p : Ptr) (w w₁ : Worker (ServiceState S)) (err : ℤ)
      → WorkerDefs.run (pos 0) (pos 0) w ≡ ok (err, w₁)
      → server_main released true
          (granted fuel null)
          (granted fuel p)
          (granted fuel null)
          (behind w)
        ≡ check_start released true (granted fuel p) (granted fuel null) (some (err, behind w₁))
  unfolding server_main DaemonDefs.run returned functions WorkerDaemons.functions given
  main_steps fuel p w w₁ err run = rw run

  serve_steps :
      (fuel : ℕ) (p : Ptr) (w₁ w₂ : Worker (ServiceState S)) (err e : ℤ)
      → is_zero err ≡ true
      → terminate fuel code w₁ p ≡ ok (some (e, w₂))
      → check_start released true (granted fuel p) (granted fuel null) (some (err, behind w₁))
        ≡ end_server released (granted fuel null) err (some (e, behind w₂))
  unfolding check_start serve DaemonDefs.terminate returned functions WorkerDaemons.functions given
  serve_steps fuel p w₁ w₂ err e good ends = rw (good, ends)

  end_steps :
      (fuel : ℕ) (w : Worker (ServiceState S)) (err e : ℤ)
      → w.sig_terminated ≡ true
      → end_server released (granted fuel null) err (some (e, behind w))
        ≡ clean_up released (granted fuel null) err (behind w)
  unfolding end_server DaemonDefs.wait_until_terminated functions WorkerDaemons.functions given
  end_steps fuel w err e over = if_true w.sig_terminated _ _ over

  refused_steps :
      (fuel : ℕ) (p : Ptr) (w : Worker (ServiceState S)) (err : ℤ)
      → is_zero err ≡ false
      → check_start released true (granted fuel p) (granted fuel null) (some (err, behind w))
        ≡ clean_up released (granted fuel null) err (behind w)
  unfolding check_start
  refused_steps fuel p w err bad = if_false (is_zero err) _ _ bad

  -- The service in the end: shut down if it started, and as its failed start left it if not.
  abbrev pub Outcome : ℤ → S → S → S → Type 0
  Outcome err t u last = ((is_zero err ≡ true) × (last ≡ u)) ⊎ ((is_zero err ≡ false) × (last ≡ t))

  -- What a clean-up leaves of a worker whose thread has ended.
  Cleaned : Worker (ServiceState S) → S → Worker (ServiceState S) → Type 0
  Cleaned w t w' =
      (w'.store.world.service ≡ t)
      × (w'.sig_terminated ≡ w.sig_terminated)
      × ((n : Ptr) → w'.queue.heap n ≡ none)
      × ((n : Ptr) → w'.callbacks.heap n ≡ none)

  clean_lem :
      (fuel : ℕ) (w : Worker (ServiceState S)) {cells : Buckets} (err : ℤ) {t : S}
      → 0 < fuel
      → release w.store.world.service ≡ ok t
      → IsQueue w.queue []
      → IsTable w.callbacks cells
      → (w' : Worker (ServiceState S)) × (clean_up released (granted fuel null) err (behind w)
          ≡ ok (some (err, cleaned w')))
        × Cleaned w t w'
  unfolding Cleaned
  clean_lem fuel w err {t} enough releases empty table =
      let (q, freed, no_node) = done-freed fuel empty (omega arith) in
      let (m, emptied, (no_cell, _, _, _)) = done-empty table in
      (
        _,
        clean_steps fuel w _ err releases (done_steps fuel (with_service w t) q m freed emptied),
        (refl, refl, no_node, no_cell),
      )

  -- The program on a worker as it is made, without an error, with an empty queue and a well-formed
  -- table of callbacks, where lock and threads are granted, the start, the shutdown and the release of
  -- the service end, the user quits, the node for the NULL is fresh and there are more than one unit of fuel: it
  -- ends and returns the error of the start. A service that started was shut down and then released,
  -- each once; one that failed to start was only released. The worker's thread has ended, no node of the queue or the table is left, and
  -- TecDaemon_done is forgotten.
  pub server_main-shutdown :
      (fuel : ℕ) (p : Ptr) (w : Worker (ServiceState S)) {cells : Buckets} {err : ℤ} {t u t' u' : S}
      → 1 < fuel
      → is_zero w.error ≡ true
      → w.sig_terminated ≡ false
      → w.on_init ≡ on_init svc (pos 0)
      → w.on_exit ≡ on_exit svc (pos 0)
      → IsQueue w.queue []
      → IsTable w.callbacks cells
      → IsFresh w.queue.heap p
      → svc.start w.store.world.service ≡ ok (err, t)
      → svc.shutdown t ≡ ok u
      → release t ≡ ok t'
      → release u ≡ ok u'
      → Returns
          (server_main released true
            (granted fuel null)
            (granted fuel p)
            (granted fuel null)
            (behind w))
          λ r.
            (w' : Worker (ServiceState S)) × (r ≡ some (err, cleaned w'))
            × Outcome err t' u' w'.store.world.service
            × (w'.sig_terminated ≡ true)
            × ((n : Ptr) → w'.queue.heap n ≡ none)
            × ((n : Ptr) → w'.callbacks.heap n ≡ none)
  unfolding has_null dispatch_all Cleaned
  server_main-shutdown fuel p w {err} {t} {u} enough fine on hook₁ hook₂ empty table fresh starts
        stops releases_t releases_u =
      elim (Bool-cases (is_zero err)) [
        | inl good ↦
            let w₁ = up w err t in
            let (q, none_left, ends) =
              terminate-shutdown svc code fuel w₁ {cells = []} p empty refl fresh (omega arith) good
                on hook₂ refl stops in
            let (w', cleans, (served, over, no_node, no_cell)) =
              clean_lem fuel _ err (omega arith) releases_u none_left table in
            (
              some (err, cleaned w'),
              main_steps fuel p w w₁ err (run_steps w fine hook₁ starts good)
                  ∙ serve_steps fuel p w₁ _ err err good ends
                  ∙ end_steps fuel _ err err refl
                  ∙ cleans,
              (w', refl, inl (good, served), over, no_node, no_cell),
            )
        | inr bad ↦
            let (w', cleans, (served, over, no_node, no_cell)) =
              clean_lem fuel _ err (omega arith) releases_t empty table in
            (
              some (err, cleaned w'),
              main_steps fuel p w _ err (run-refused svc w fine hook₁ starts bad)
                  ∙ refused_steps fuel p _ err bad
                  ∙ cleans,
              (w', refl, inr (bad, served), over, no_node, no_cell),
            )
      ]
