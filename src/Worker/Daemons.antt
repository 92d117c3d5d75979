-- ===== src/Worker/Daemons.antt =====
-- tecc_worker.c: a worker behind the interface of tecc_daemon.h.
use tecc.Base.{ℕ, zero, suc, Bool, true, false, Option, none, some, ◌==◌, if◌then◌else◌}
use tecc.Base.Int.{ℤ}
use tecc.Base.Heap.{Ptr, null, load}
use tecc.Base.Run.{Run, ok, out_of_fuel, ◌>>=◌}
use tecc.Worker.Messages.{Code}
use tecc.Worker.Defs.{Worker, Granted, turn, ask, result}
use tecc.Worker.Defs as Defs
use tecc.Daemon.Defs.{Daemon, Object}
use tecc.Daemon.Defs as DaemonDefs

-- What a call is answered: the lock and the creation of the thread, a node from malloc, the
-- places of the variables of TecWorker_rpc_. The fuel bounds the turns of the thread in the call.
pub record Answers : Type 0 where
  pub locked : ℤ
  pub created : ℤ
  pub node : Ptr
  pub rpc : Ptr
  pub sig_ready : Ptr
  pub fuel : ℕ

module _ {World : Type 0} where
  -- The wait for `sig_ready`: the thread takes its turns until it sets the signal. There is no end
  -- to it if the thread takes NULL before, or waits for a message.
  unfoldable pub wait_ready : ℕ → Code World → Ptr → Worker World → Run (Option (Worker World))
  wait_ready zero code sig w = out_of_fuel
  wait_ready (suc fuel) code sig w = do
    ready ← load w.store.signals sig
    elim ready [
      | true ↦ ok (some w)
      | false ↦ turn code w >>= λ r. elim r [
        | none ↦ ok none
        | some (msg, w') ↦ if msg == null then ok none else wait_ready fuel code sig w'
      ]
    ]

  -- TecWorker_rpc_
  unfoldable pub ask_and_wait :
      Code World → Answers → Worker World → Ptr → Ptr → Run (Option (ℤ × Worker World))
  ask_and_wait code a w request reply = do
    asked ← ask w a.rpc a.sig_ready a.node request reply
    r ← wait_ready a.fuel code a.sig_ready asked
    elim r [ none ↦ ok none | some w' ↦ result w' a.rpc >>= λ err. ok (some (err, w')) ]

  -- The functions that TecWorker_init puts into the table.
  unfoldable pub functions : Code World → Daemon Answers (Worker World)
  functions code = record {
    flags = 0;
    sig_running = some (λ w. w.sig_running);
    sig_terminated = some (λ w. w.sig_terminated);
    run = some (λ a w. Defs.run a.locked a.created w >>= λ r. ok (some r));
    terminate = some (λ a w. Defs.terminate a.fuel code w a.node);
    send = some (λ a w msg. Defs.send w a.node msg);
    rpc = some (ask_and_wait code);
    done = some (λ a w. Defs.done a.fuel w);
  }

  -- TecWorker_init: the table stays empty where something is refused.
  unfoldable pub init_object :
      Code World
      → Granted
      → Object Answers (Worker World)
      → ℕ
      → Bool × Object Answers (Worker World)
  init_object code g o size =
      let r = Defs.init g o.self size in
      (
        r.0,
        record { daemon = if r.0 then functions code else (DaemonDefs.init o).daemon; self = r.1 },
      )
