-- ===== src/Time/Defs.antt =====
-- tecc_time.c and tecc_time.h. A TecTimePoint is a long long of 64 bits, whose overflow is a fault;
-- so is that of time_t and long. The clock, gmtime_r and nanosleep are outside the library.
use tecc.Base.{ℕ, ◌^◌, Bool, Option, none, some, ltb, if◌then◌else◌}
use tecc.Base.Int.{ℤ, pos, negsuc, ◌+ℤ◌, ◌-ℤ◌, ◌*ℤ◌, ◌/ℤ◌}
use tecc.Base.Run.{Run, ok, fault, ◌>>=◌}

abbrev pub TimePoint : Type 0
TimePoint = ℤ

-- The values of a long long.
abbrev pub in_range : ℤ → Bool
in_range (pos n) = ltb n (2 ^ 63)
in_range (negsuc n) = ltb n (2 ^ 63)

unfoldable pub long_long : ℤ → Run ℤ
long_long x = if in_range x then ok x else fault

-- struct timespec
pub record TimeSpec : Type 0 where
  pub tv_sec : ℤ
  pub tv_nsec : ℤ

abbrev pub billion : ℕ
billion = 1000000000

unfoldable pub tp_to_ts : TimePoint → Run TimeSpec
tp_to_ts tp = do
  sec ← long_long (tp /ℤ billion)
  whole ← long_long (sec *ℤ billion)
  nsec ← long_long (tp -ℤ whole)
  ok (record { tv_sec = sec; tv_nsec = nsec })

unfoldable pub ts_to_tp : TimeSpec → Run TimePoint
ts_to_tp ts = do whole ← long_long (ts.tv_sec *ℤ billion); long_long (whole +ℤ ts.tv_nsec)

-- `gmtime` is gmtime_r.
unfoldable pub ts_to_tm {ℓ} : {Tm : Type ℓ} → (ℤ → Tm) → TimeSpec → Tm
ts_to_tm gmtime ts = gmtime ts.tv_sec

unfoldable pub tp_to_tm {ℓ} : {Tm : Type ℓ} → (ℤ → Tm) → TimePoint → Run Tm
tp_to_tm gmtime tp = tp_to_ts tp >>= λ ts. ok (ts_to_tm gmtime ts)

-- The time now, in nanoseconds, from what timespec_get gives; 0 where it fails.
unfoldable pub tp_now : Option TimeSpec → Run TimePoint
tp_now none = ok (pos 0)
tp_now (some now) = ts_to_tp now

-- The thread sleeps as long as nanosleep does for the interval, whatever it returns.
unfoldable pub sleep_for {ℓ} : {World : Type ℓ} → (TimeSpec → World → World) → ℤ → World → Run World
sleep_for nanosleep dur world = tp_to_ts dur >>= λ ts. ok (nanosleep ts world)

-- SECONDS, MINUTES, HOURS and DAYS of an int.
unfoldable pub seconds : ℤ → Run TimePoint
seconds sec = long_long (sec *ℤ billion)

unfoldable pub minutes : ℤ → Run TimePoint
minutes m = seconds m >>= λ t. long_long (t *ℤ 60)

unfoldable pub hours : ℤ → Run TimePoint
hours h = minutes h >>= λ t. long_long (t *ℤ 60)

unfoldable pub days : ℤ → Run TimePoint
days d = hours d >>= λ t. long_long (t *ℤ 24)
