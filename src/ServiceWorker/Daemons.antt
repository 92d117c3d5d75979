-- ===== src/ServiceWorker/Daemons.antt =====
-- tecc_service_worker.c: a service worker behind the interface of tecc_daemon.h.
use tecc.Base.{ℕ, Bool, false, some, if◌then◌else◌}
use tecc.Base.Int.{ℤ}
use tecc.Base.Run.{Run}
use tecc.Worker.Messages.{Code}
use tecc.Worker.Defs.{Worker, Granted}
use tecc.Worker.Defs as WorkerDefs
use tecc.Worker.Daemons.{Answers}
use tecc.Worker.Daemons as WorkerDaemons
use tecc.ServiceWorker.Defs.{Service, ServiceState}
use tecc.ServiceWorker.Defs as Defs
use tecc.Daemon.Defs.{Daemon, Object}

module _ {S : Type 0} where
  -- TecServiceWorker_done_: the thread of the service has ended and is joined, then the worker is
  -- released. The signals are flags here, of which nothing is left to release.
  unfoldable pub done : ℕ → Worker (ServiceState S) → Run (Worker (ServiceState S))
  done fuel w = WorkerDefs.done fuel (record w {
    store = record (w.store) { world = record (w.store.world) { joinable = false } };
  })

  -- The table of a worker, but for the destructor.
  unfoldable pub functions : Code (ServiceState S) → Daemon Answers (Worker (ServiceState S))
  functions code = record (WorkerDaemons.functions code) { done = some (λ a w. done a.fuel w) }

  -- TecServiceWorker_init_: where only a signal of the service is refused, the table of the worker
  -- stays.
  unfoldable pub init_object :
      Granted
      → Bool
      → Bool
      → Service S
      → ℤ
      → ℤ
      → Code (ServiceState S)
      → Object Answers (Worker (ServiceState S))
      → ℕ
      → Bool × Object Answers (Worker (ServiceState S))
  init_object g started stopped svc starts stops code o size =
      let parent = WorkerDaemons.init_object code g o size in
      let r = Defs.init g started stopped svc starts stops o.self size in
      (r.0, record { daemon = if r.0 then functions code else parent.1.daemon; self = r.1 })
