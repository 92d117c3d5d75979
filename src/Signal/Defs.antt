-- ===== src/Signal/Defs.antt =====
-- tecc_signal.c and tecc_signal.h: TecSignal_set, TecSignal_wait and TecSignal_wait_for as steps of
-- the threads that call them. Mutex and condition variable are outside the library: a lock is
-- granted while nobody holds it, or fails, but not in TecSignal_set; a wait for the condition gives
-- the mutex up and sleeps in one step, may fail, may wake for no reason, and, where it has a
-- deadline, may end with an error at any time.
use tecc.Base.{ℕ, suc, ◌≡◌, Bool, true, false, ◌&&◌, Option, none, some, ◌==◌, if◌then◌else◌}
use tecc.Base.Int.{ℤ, pos, negsuc, ◌+ℤ◌}
use tecc.Base.Run.{Run, ok, ◌>>=◌}
use tecc.Time.Defs.{TimePoint, TimeSpec, long_long, tp_now, tp_to_ts}

-- Where a thread stands. The error that a call returns is 0 where all went well.
pub data Pc : Type 0 where
  -- in no call
  idle : Pc
  -- TecSignal_wait: before the lock, at the test of the loop, at the wait for the condition, asleep
  -- in it, woken up and without the mutex, at the unlock, and back.
  locking testing calling asleep woken : Pc
  unlocking waited : ℕ → Pc
  -- TecSignal_wait_for, with the deadline that it computed: the same, and behind a wait that ended
  -- with an error one below the number. An unlock after a failed lock is undefined: no thread that
  -- stands there goes on.
  timed_locking timed_testing timed_calling timed_asleep timed_woken : TimeSpec → Pc
  timed_out : ℕ → Pc
  misusing : Pc
  -- TecSignal_set: behind the store, at the broadcast, at the unlock, and back.
  stored broadcasting releasing : Pc
  has_set : Pc

-- `owner` is the thread that holds the mutex.
pub record Signal : Type 0 where
  pub value : Bool
  pub owner : Option ℕ
  pub pc : ℕ → Pc

-- After TecSignal_init, while no thread has called.
abbrev pub made : Signal
made = record { value = false; owner = none; pc = λ t. idle }

-- From what the creation of the mutex and of the condition variable return; `none` is a failure.
unfoldable pub init : Bool → Bool → Option Signal
init mutex_ok cnd_ok = if mutex_ok && cnd_ok then some made else none

unfoldable pub move : Signal → ℕ → Pc → Signal
move s t p = record s { pc = λ u. if u == t then p else s.pc u }

unfoldable pub wake : Pc → Pc
wake asleep = woken
wake (timed_asleep ts) = timed_woken ts
wake p = p

-- The lock by thread `t`, which stands at `p` then.
unfoldable pub lock : Signal → ℕ → Pc → Signal
lock s t p = move (record s { owner = some t }) t p

unfoldable pub unlock : Signal → ℕ → Pc → Signal
unlock s t p = move (record s { owner = none }) t p

-- The broadcast by thread `t`: whoever sleeps is woken up.
unfoldable pub broadcast : Signal → ℕ → Pc → Signal
broadcast s t p = move (record s { pc = λ u. wake (s.pc u) }) t p

-- A step of TecSignal_wait. An error is not 0.
pub data WaitStep (s : Signal) (t : ℕ) : Signal → Type 0 where
  finds_set : s.pc t ≡ idle → s.value ≡ true → WaitStep s t (move s t (waited 0))
  finds_unset : s.pc t ≡ idle → s.value ≡ false → WaitStep s t (move s t locking)
  locks : s.pc t ≡ locking → s.owner ≡ none → WaitStep s t (lock s t testing)
  lock_fails : (e : ℕ) → s.pc t ≡ locking → WaitStep s t (move s t (waited (suc e)))
  leaves_loop : s.pc t ≡ testing → s.value ≡ true → WaitStep s t (move s t (unlocking 0))
  stays_in_loop : s.pc t ≡ testing → s.value ≡ false → WaitStep s t (move s t calling)
  sleeps : s.pc t ≡ calling → WaitStep s t (unlock s t asleep)
  wait_fails : (e : ℕ) → s.pc t ≡ calling → WaitStep s t (move s t (unlocking (suc e)))
  wakes : s.pc t ≡ asleep → WaitStep s t (move s t woken)
  locks_again : s.pc t ≡ woken → s.owner ≡ none → WaitStep s t (lock s t testing)
  unlocks : (e : ℕ) → s.pc t ≡ unlocking e → WaitStep s t (unlock s t (waited e))
  is_back : (e : ℕ) → s.pc t ≡ waited e → WaitStep s t (move s t idle)

abbrev pub einval : ℕ
einval = 22

unfoldable pub is_zero_time : ℤ → Bool
is_zero_time (pos n) = n == 0
is_zero_time (negsuc n) = false

-- The absolute deadline, from what timespec_get gives, or nothing where the time now is 0.
unfoldable pub deadline : Option TimeSpec → TimePoint → Run (Option TimeSpec)
deadline clock timeout = do
  now ← tp_now clock
  if is_zero_time now
      then ok none
      else (do end ← long_long (now +ℤ timeout); ts ← tp_to_ts end; ok (some ts))

-- A step of TecSignal_wait_for before its unlock; from there on it goes as TecSignal_wait does.
pub data WaitForStep (s : Signal) (t : ℕ) : Signal → Type 0 where
  finds_set : s.pc t ≡ idle → s.value ≡ true → WaitForStep s t (move s t (waited 0))
  finds_no_time :
      (clock : Option TimeSpec) (timeout : TimePoint)
      → s.pc t ≡ idle
      → s.value ≡ false
      → deadline clock timeout ≡ ok none
      → WaitForStep s t (move s t (waited einval))
  finds_unset :
      (clock : Option TimeSpec) (timeout : TimePoint) (ts : TimeSpec)
      → s.pc t ≡ idle
      → s.value ≡ false
      → deadline clock timeout ≡ ok (some ts)
      → WaitForStep s t (move s t (timed_locking ts))
  locks :
      (ts : TimeSpec)
      → s.pc t ≡ timed_locking ts
      → s.owner ≡ none
      → WaitForStep s t (lock s t (timed_testing ts))
  lock_fails : (ts : TimeSpec) → s.pc t ≡ timed_locking ts → WaitForStep s t (move s t misusing)
  leaves_loop :
      (ts : TimeSpec)
      → s.pc t ≡ timed_testing ts
      → s.value ≡ true
      → WaitForStep s t (move s t (unlocking 0))
  stays_in_loop :
      (ts : TimeSpec)
      → s.pc t ≡ timed_testing ts
      → s.value ≡ false
      → WaitForStep s t (move s t (timed_calling ts))
  sleeps :
      (ts : TimeSpec) → s.pc t ≡ timed_calling ts → WaitForStep s t (unlock s t (timed_asleep ts))
  wait_fails :
      (ts : TimeSpec) (e : ℕ)
      → s.pc t ≡ timed_calling ts
      → WaitForStep s t (move s t (unlocking (suc e)))
  wakes : (ts : TimeSpec) → s.pc t ≡ timed_asleep ts → WaitForStep s t (move s t (timed_woken ts))
  locks_again :
      (ts : TimeSpec)
      → s.pc t ≡ timed_woken ts
      → s.owner ≡ none
      → WaitForStep s t (lock s t (timed_testing ts))
  -- also where a broadcast has woken the thread up
  times_out :
      (ts : TimeSpec) (e : ℕ) → s.pc t ≡ timed_woken ts → WaitForStep s t (move s t (timed_out e))
  locks_late :
      (e : ℕ)
      → s.pc t ≡ timed_out e
      → s.owner ≡ none
      → WaitForStep s t (lock s t (unlocking (suc e)))

-- A step of TecSignal_set whose lock does not fail.
pub data SetStep (s : Signal) (t : ℕ) : Signal → Type 0 where
  stores : s.pc t ≡ idle → SetStep s t (move (record s { value = true }) t stored)
  locks : s.pc t ≡ stored → s.owner ≡ none → SetStep s t (lock s t broadcasting)
  broadcasts : s.pc t ≡ broadcasting → SetStep s t (broadcast s t releasing)
  unlocks : s.pc t ≡ releasing → SetStep s t (unlock s t has_set)
  is_back : s.pc t ≡ has_set → SetStep s t (move s t idle)

-- The signal and its threads after any steps of any threads.
pub data Steps : Signal → Type 0 where
  begins : {s : Signal} → init true true ≡ some s → Steps s
  waiting : {s s' : Signal} (t : ℕ) → Steps s → WaitStep s t s' → Steps s'
  waiting_for : {s s' : Signal} (t : ℕ) → Steps s → WaitForStep s t s' → Steps s'
  setting : {s s' : Signal} (t : ℕ) → Steps s → SetStep s t s' → Steps s'
