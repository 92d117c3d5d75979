-- ===== src/ServiceWorker/Defs.antt =====
-- tecc_service.c, tecc_service.h, tecc_service_worker.c and tecc_service_worker.h: a worker whose
-- hooks start and stop a service, each on a thread of its own. Each hook waits for its thread, so
-- that its call comes in place of the wait.
use tecc.Base.{ℕ, Bool, true, false, ◌&&◌, some, if◌then◌else◌}
use tecc.Base.Int.{ℤ, pos}
use tecc.Base.Run.{Run, ok, out_of_fuel, ◌>>=◌}
use tecc.Worker.Messages.{Store}
use tecc.Worker.Defs.{Hook, Worker, Granted, is_zero}
use tecc.Worker.Defs as WorkerDefs

-- The functions of a service of the state `S`: `start` until it sets the signal, with its error, and
-- `shutdown`.
pub record Service (S : Type 0) : Type 0 where
  pub start : S → Run (ℤ × S)
  pub shutdown : S → Run S

-- TecService_init_: the default functions do nothing.
unfoldable pub service_init : {S : Type 0} → Service S
service_init = record { start = λ s. ok (pos 0, s); shutdown = λ s. ok s }

-- What TecServiceWorker adds to a worker. `joinable` is TecThread_ok of the service's thread.
pub record ServiceState (S : Type 0) : Type 0 where
  pub service : S
  pub error : ℤ
  pub sig_started : Bool
  pub sig_stopped : Bool
  pub joinable : Bool

module _ {S : Type 0} where
  -- service_start_func
  unfoldable pub service_start_func : Service S → ServiceState S → Run (ServiceState S)
  service_start_func svc self = do
    r ← svc.start self.service
    ok (record self { service = r.1; error = r.0; sig_started = true })

  -- service_shutdown_func
  unfoldable pub service_shutdown_func : Service S → ServiceState S → Run (ServiceState S)
  service_shutdown_func svc self = do
    s ← svc.shutdown self.service
    ok (record self { service = s; sig_stopped = true })

  -- The end of `on_init`: a service that failed to start is stopped.
  unfoldable pub started : ServiceState S → ℤ × ServiceState S
  started self =
      if is_zero self.error
      then (self.error, self)
      else (self.error, record self { joinable = false; sig_stopped = true })

  -- `created` is what the creation of the service's thread returns.
  unfoldable pub init_service : Service S → ℤ → ServiceState S → Run (ℤ × ServiceState S)
  init_service svc created self =
      if is_zero created
      then (service_start_func svc (record self { joinable = true }) >>= λ t. ok (started t))
      else ok (created, record self { joinable = false })

  -- Where no thread can be created for the shutdown, the wait for `sig_stopped` has no end.
  unfoldable pub exit_service : Service S → ℤ → ServiceState S → Run (ℤ × ServiceState S)
  exit_service svc created self =
      if is_zero created
      then (service_shutdown_func svc self >>= λ t. ok (t.error, record t { joinable = false }))
      else (if self.sig_stopped
          then ok (self.error, record self { joinable = false })
          else out_of_fuel)

  -- What a function does to the state that the worker's memory holds.
  unfoldable pub in_store :
      (ServiceState S → Run (ℤ × ServiceState S))
      → Store (ServiceState S)
      → Run (ℤ × Store (ServiceState S))
  in_store f s = do r ← f s.world; ok (r.0, record s { world = r.1 })

  unfoldable pub on_init : Service S → ℤ → Hook (ServiceState S)
  on_init svc created = some (in_store (init_service svc created))

  unfoldable pub on_exit : Service S → ℤ → Hook (ServiceState S)
  on_exit svc created = some (in_store (exit_service svc created))

  -- `starts` and `stops` are what the creations of the two threads will return; `started` and
  -- `stopped` say whether the signals are made.
  unfoldable pub init :
      Granted
      → Bool
      → Bool
      → Service S
      → ℤ
      → ℤ
      → Worker (ServiceState S)
      → ℕ
      → Bool × Worker (ServiceState S)
  init g started stopped svc starts stops w size =
      let r = WorkerDefs.init g w size in
      let self = w.store.world in
      let t = record (r.1) {
        store = record (w.store) {
          world = record self {
            error = pos 0;
            joinable = false;
            sig_started = if r.0 && started then false else self.sig_started;
            sig_stopped = if r.0 && started && stopped then false else self.sig_stopped;
          };
        };
      } in
      if r.0 && started && stopped
      then (true, record t { on_init = on_init svc starts; on_exit = on_exit svc stops })
      else (false, t)
