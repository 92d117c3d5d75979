-- ===== src/Daemon/Defs.antt =====
-- tecc_daemon.h: a table of functions in front of an object, and the macros that call through it.
-- `Sys` is what the system answers during a call, `Self` the object behind the table. `none` is
-- NULL; to call through it faults. Where a function waits for ever it gives nothing.
use tecc.Base.{ℕ, Bool, Option, none, some}
use tecc.Base.Int.{ℤ}
use tecc.Base.Heap.{Ptr, given}
use tecc.Base.Run.{Run, ok, ◌>>=◌}

-- A signal is read in the object.
pub record Daemon (Sys Self : Type 0) : Type 0 where
  pub flags : ℕ
  pub sig_running : Option (Self → Bool)
  pub sig_terminated : Option (Self → Bool)
  pub run : Option (Sys → Self → Run (Option (ℤ × Self)))
  pub terminate : Option (Sys → Self → Run (Option (ℤ × Self)))
  pub send : Option (Sys → Self → Ptr → Run Self)
  pub rpc : Option (Sys → Self → Ptr → Ptr → Run (Option (ℤ × Self)))
  pub done : Option (Sys → Self → Run Self)

pub record Object (Sys Self : Type 0) : Type 0 where
  pub daemon : Daemon Sys Self
  pub self : Self

module _ {Sys Self : Type 0} where
  unfoldable pub init : Object Sys Self → Object Sys Self
  init o = record o {
    daemon = record {
      flags = 0;
      sig_running = none;
      sig_terminated = none;
      run = none;
      terminate = none;
      send = none;
      rpc = none;
      done = none;
    };
  }

  -- The object after a call that returns an error, 0 on success.
  unfoldable pub returned : Object Sys Self → Option (ℤ × Self) → Option (ℤ × Object Sys Self)
  returned o none = none
  returned o (some (err, s)) = some (err, record o { self = s })

  unfoldable pub run : Sys → Object Sys Self → Run (Option (ℤ × Object Sys Self))
  run sys o = do f ← given (o.daemon.run); r ← f sys o.self; ok (returned o r)

  unfoldable pub terminate : Sys → Object Sys Self → Run (Option (ℤ × Object Sys Self))
  terminate sys o = do f ← given (o.daemon.terminate); r ← f sys o.self; ok (returned o r)

  unfoldable pub send : Sys → Object Sys Self → Ptr → Run (Object Sys Self)
  send sys o msg = do f ← given (o.daemon.send); s ← f sys o.self msg; ok (record o { self = s })

  unfoldable pub rpc : Sys → Object Sys Self → Ptr → Ptr → Run (Option (ℤ × Object Sys Self))
  rpc sys o request reply = do
    f ← given (o.daemon.rpc)
    r ← f sys o.self request reply
    ok (returned o r)

  -- Whether a wait for the signal ends at once.
  unfoldable pub wait_until_running : Object Sys Self → Run Bool
  wait_until_running o = do sig ← given (o.daemon.sig_running); ok (sig o.self)

  unfoldable pub wait_until_terminated : Object Sys Self → Run Bool
  wait_until_terminated o = do sig ← given (o.daemon.sig_terminated); ok (sig o.self)

  -- The destructor is called if there is one, and is forgotten then.
  unfoldable pub done : Sys → Object Sys Self → Run (Object Sys Self)
  done sys o = elim (o.daemon.done) [
    | none ↦ ok o
    | some f ↦
        f sys o.self >>= λ s. ok (record { daemon = record (o.daemon) { done = none }; self = s })
  ]
