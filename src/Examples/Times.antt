-- ===== src/Examples/Times.antt =====
-- tecc_time.c at some points in time, and the deadline of TecSignal_wait_for.
use tecc.Base.{◌+◌, ◌*◌, ◌^◌, ◌≤◌, ◌<◌, ◌-◌, ◌≡◌, ◌⊎◌, refl, none, some, arith}
use tecc.Base.Int.{ℤ, pos, negsuc, pos_part, neg_part, ◌+ℤ◌, ◌-ℤ◌, ◌*ℤ◌, ◌/ℤ◌}
use tecc.Base.Run.{ok, fault, Returns}
use tecc.Time.Defs.{
  TimeSpec, billion, long_long, tp_to_ts, ts_to_tp, ts_to_tm, tp_to_tm, tp_now, sleep_for, seconds,
  minutes, hours, days,
}
use tecc.Time.Conversion.{clock_time, ts_to_tp-tp_to_ts}
use tecc.Signal.Defs.{is_zero_time, deadline}
use tecc.Signal.Timing.{deadline_lem}

program : Unit {0}
unfolding ◌+ℤ◌ ◌-ℤ◌ ◌*ℤ◌ ◌/ℤ◌ long_long tp_to_ts ts_to_tp ts_to_tm tp_to_tm tp_now sleep_for seconds
    minutes hours days is_zero_time deadline
program = tt

-- A second and a half before the epoch.
ts_to_tp-tp_to_ts_example : Returns (tp_to_ts (negsuc 1499999999)) λ ts.
    (ts_to_tp ts ≡ ok (negsuc 1499999999))
    × (pos_part ts.tv_nsec < billion)
    × (neg_part ts.tv_nsec < billion)
    × (neg_part ts.tv_nsec ≤ 1500000000)
ts_to_tp-tp_to_ts_example = ts_to_tp-tp_to_ts (negsuc 1499999999) (omega arith, omega arith)

before_epoch_test :
    tp_to_ts (negsuc 1499999999) ≡ ok (record { tv_sec = negsuc 0; tv_nsec = negsuc 499999999 })
unfolding program
before_epoch_test = refl

-- 200000 days are too many.
days_test : (days (pos 200000) ≡ fault) × (days (pos 2) ≡ ok (pos 172800000000000))
unfolding program
days_test = (refl, refl)

deadline_lem_example :
    ((1750000000 * billion + 7 + 1999999999 < 2 ^ 63)
      × Returns (deadline (some (clock_time 1750000000 7)) (pos 1999999999)) (λ d.
        (ts : TimeSpec) × (d ≡ some ts)
        × (ts_to_tp ts ≡ ok (pos (1750000000 * billion + 7 + 1999999999)))
        × (pos_part ts.tv_nsec < billion)
        × (neg_part ts.tv_nsec ≡ 0)))
    ⊎ ((2 ^ 63 ≤ 1750000000 * billion + 7 + 1999999999)
        × (deadline (some (clock_time 1750000000 7)) (pos 1999999999) ≡ fault))
deadline_lem_example =
    deadline_lem 1750000000 7 1999999999 (omega arith) (omega arith) (omega arith)

-- The second is carried over, a broken clock has no deadline, and the longest timeout overflows.
deadline_test :
    (deadline (some (clock_time 1750000000 7)) (pos 1999999999)
      ≡ ok (some (clock_time 1750000002 6)))
    × (deadline none (pos 5) ≡ ok none)
    × (deadline (some (clock_time 1750000000 7)) (pos (2 ^ 63 - 1)) ≡ fault)
unfolding program
deadline_test = (refl, refl, refl)

sleep_test :
    sleep_for (λ (ts : TimeSpec) (world : TimeSpec). ts) (pos 2500000000) (clock_time 0 0)
    ≡ ok (clock_time 2 500000000)
unfolding program
sleep_test = refl

-- tp_to_tm looks at the seconds alone.
tm_test : tp_to_tm (λ (sec : ℤ). sec) (pos 2500000000) ≡ ok (pos 2)
unfolding program
tm_test = refl
