-- ===== src/Signal/Objects.antt =====
-- tecc_signal.c: the mutex and the condition variable of a signal, which TecSignal_init makes and
-- TecSignal_done destroys.
use tecc.Base.{ℕ, Bool, true, false, if◌then◌else◌}
use tecc.Base.Run.{Run, ok, ◌>>=◌}
use tecc.Threads.Defs.{
  System, Mutex, Cond, mutex_ok, cond_ok, mutex_init, mutex_destroy, cond_init, cond_destroy,
}

pub record Objects : Type 0 where
  pub mtx : Mutex
  pub cnd : Cond

-- `m` and `c` are what the system returns for the mutex and for the condition variable.
unfoldable pub init_objects : ℕ → ℕ → Objects → System → Run (Bool × Objects × System)
init_objects m c sig sys = do
  made ← mutex_init m sig.mtx sys
  if mutex_ok made.0
      then (do
        both ← cond_init c sig.cnd made.1
        if cond_ok both.0
            then ok (true, record { mtx = made.0; cnd = both.0 }, both.1)
            else (mutex_destroy made.0 both.1 >>= λ s.
                ok (false, record { mtx = made.0; cnd = both.0 }, s)))
      else ok (false, record sig { mtx = made.0 }, made.1)

unfoldable pub done_objects : ℕ → Objects → System → Run (Objects × System)
done_objects r sig sys = do
  gone ← cond_destroy r sig.cnd sys
  s ← mutex_destroy sig.mtx gone.1
  ok (record sig { cnd = gone.0 }, s)
