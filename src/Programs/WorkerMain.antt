-- ===== src/Programs/WorkerMain.antt =====
-- examples/worker/worker.c: a worker that is run, is sent two messages, and is terminated, all
-- through the interface of daemons. What stands between malloc and the fields of a message is the
-- caller's: the program is given the two messages.
use tecc.Base.{Option, none, some, if◌then◌else◌}
use tecc.Base.Int.{ℤ}
use tecc.Base.Heap.{Ptr}
use tecc.Base.Run.{Run, ok, ◌>>=◌}
use tecc.Worker.Defs.{is_zero}
use tecc.Daemon.Defs.{Object, run, send, terminate, wait_until_running, wait_until_terminated, done}

-- What each of the calls is answered.
pub record Script (Sys : Type 0) : Type 0 where
  pub running : Sys
  pub first : Sys
  pub second : Sys
  pub ending : Sys
  pub cleaning : Sys

module _ {Sys Self : Type 0} where
  -- From the termination on; a wait for a signal that nobody sets has no end.
  unfoldable pub end_worker :
      Script Sys → Option (ℤ × Object Sys Self) → Run (Option (ℤ × Object Sys Self))
  end_worker s none = ok none
  end_worker s (some (error, w)) = do
    over ← wait_until_terminated w
    if over then (done s.cleaning w >>= λ w'. ok (some (error, w'))) else ok none

  -- The two messages, and the termination.
  unfoldable pub use_worker :
      Script Sys → Object Sys Self → Ptr → Ptr → Run (Option (ℤ × Object Sys Self))
  use_worker s w p str = do
    up ← wait_until_running w
    if up
        then (do
          w₁ ← send s.first w p
          w₂ ← send s.second w₁ str
          r ← terminate s.ending w₂
          end_worker s r)
        else ok none

  -- A run that failed is cleaned up.
  unfoldable pub check_run :
      Script Sys → Ptr → Ptr → Option (ℤ × Object Sys Self) → Run (Option (ℤ × Object Sys Self))
  check_run s p str none = ok none
  check_run s p str (some (error, w)) =
      if is_zero error
      then use_worker s w p str
      else (done s.cleaning w >>= λ w'. ok (some (error, w')))

  -- The program after its registrations: what it returns, and the worker then.
  unfoldable pub worker_main :
      Script Sys → Object Sys Self → Ptr → Ptr → Run (Option (ℤ × Object Sys Self))
  worker_main s w p str = do r ← run s.running w; check_run s p str r
