-- ===== src/ServiceWorker/Running.antt =====
-- A service in its worker, from a failed start or to its shutdown.
use tecc.Base.{ℕ, ◌<◌, ◌≡◌, ◌∙◌, true, false, some, [], length}
use tecc.Base.Int.{ℤ, pos}
use tecc.Base.Heap.{Ptr, IsFresh}
use tecc.Base.Run.{Run, ok, ◌>>=◌}
use tecc.Queue.Defs.{Queue}
use tecc.Queue.Line.{Cells, objects, IsQueue}
use tecc.Worker.Messages.{Store, Code}
use tecc.Worker.Defs.{Worker, is_zero, call_hook, leave, run, terminate}
use tecc.Worker.Serving.{has_null, dispatch_all, ended, terminate-dispatch_all}
use tecc.Worker.Starting.{run-failed}
use tecc.ServiceWorker.Defs.{
  Service, ServiceState, service_start_func, service_shutdown_func, started, init_service,
  exit_service, in_store, on_init, on_exit,
}

module _ {S : Type 0} (svc : Service S) where
  -- The state after a start that failed.
  abbrev refused : ServiceState S → ℤ → S → ServiceState S
  refused self err t = record self {
    service = t;
    error = err;
    sig_started = true;
    sig_stopped = true;
    joinable = false;
  }

  init_steps :
      (s : Store (ServiceState S)) {err : ℤ} {t : S}
      → svc.start s.world.service ≡ ok (err, t)
      → is_zero err ≡ false
      → in_store (init_service svc (pos 0)) s ≡ ok (err, record s { world = refused s.world err t })
  unfolding in_store init_service service_start_func started is_zero
  init_steps s fails bad = rw (fails, bad)

  -- Where lock and threads are granted: the run of a worker without an error whose service fails to
  -- start returns the error of the service. The threads have ended and were joined, the signals are
  -- set, and `shutdown` was not called.
  pub run-refused :
      (w : Worker (ServiceState S)) {err : ℤ} {t : S}
      → is_zero w.error ≡ true
      → w.on_init ≡ on_init svc (pos 0)
      → svc.start w.store.world.service ≡ ok (err, t)
      → is_zero err ≡ false
      → run (pos 0) (pos 0) w
        ≡ ok (
          err,
          record w {
            error = err;
            store = record (w.store) { world = refused w.store.world err t };
            sig_running = true;
            sig_terminated = true;
            joinable = false;
          },
        )
  unfolding on_init
  run-refused w fine hook fails bad =
      run-failed w (in_store (init_service svc (pos 0))) fine hook (init_steps w.store fails bad)
        bad

  exit_steps :
      (s : Store (ServiceState S)) {t : S}
      → svc.shutdown s.world.service ≡ ok t
      → in_store (exit_service svc (pos 0)) s
        ≡ ok (
          s.world.error,
          record s {
            world = record (s.world) { service = t; sig_stopped = true; joinable = false };
          },
        )
  unfolding in_store exit_service service_shutdown_func is_zero
  exit_steps s stops = rw stops

  -- The state after the shutdown.
  abbrev shut_down : ServiceState S → S → ServiceState S
  shut_down self t = record self { service = t; sig_stopped = true; joinable = false }

  -- The worker after its end.
  abbrev finished :
      Worker (ServiceState S) → Queue → Store (ServiceState S) → S → Worker (ServiceState S)
  finished w q s t = record w {
    queue = q;
    error = s.world.error;
    store = record s { world = shut_down s.world t };
    sig_terminated = true;
    joinable = false;
  }

  ended_steps :
      (code : Code (ServiceState S)) (w : Worker (ServiceState S)) (q : Queue)
      (s : Store (ServiceState S)) {t : S}
      → is_zero w.error ≡ true
      → w.on_exit ≡ on_exit svc (pos 0)
      → svc.shutdown s.world.service ≡ ok t
      → ended code w q s ≡ ok (some (s.world.error, finished w q s t))
  unfolding ended leave call_hook on_exit
  ended_steps code w q s fine hook stops = rw (hook, fine, exit_steps s stops)

  terminate_steps :
      (code : Code (ServiceState S)) (w : Worker (ServiceState S)) (q : Queue)
      {run : Run (Store (ServiceState S))} {s : Store (ServiceState S)} {t : S}
      → run ≡ ok s
      → ended code w q s ≡ ok (some (s.world.error, finished w q s t))
      → (run >>= λ s'. ended code w q s') ≡ ok (some (s.world.error, finished w q s t))
  terminate_steps code w q done stop = rw done stop

  -- The termination of a worker without an error that runs a service, with no NULL among the
  -- messages of its queue and nothing sent any more, given more fuel than messages, where
  -- dispatching them and the shutdown end and a thread is granted: it dispatches the messages in
  -- order, then shuts the service down, and returns the error that the start of the service left;
  -- the signals are set and the threads joined.
  pub terminate-shutdown :
      (code : Code (ServiceState S)) (fuel : ℕ) (w : Worker (ServiceState S)) {cells : Cells}
      (p : Ptr) {s : Store (ServiceState S)} {t : S}
      → IsQueue w.queue cells
      → has_null (objects cells) ≡ false
      → IsFresh w.queue.heap p
      → length cells < fuel
      → is_zero w.error ≡ true
      → w.sig_terminated ≡ false
      → w.on_exit ≡ on_exit svc (pos 0)
      → dispatch_all code w.callbacks w.store (objects cells) ≡ ok s
      → svc.shutdown s.world.service ≡ ok t
      → (q : Queue) × IsQueue q []
        × (terminate fuel code w p ≡ ok (some (s.world.error, finished w q s t)))
  terminate-shutdown code fuel w p {s} line plain fresh enough fine on hook handled stops =
      let (q, empty, run) =
        terminate-dispatch_all code fuel w {p = p} line plain fresh enough fine on in
      (q, empty, run ∙ terminate_steps code w q handled (ended_steps code w q s fine hook stops))
