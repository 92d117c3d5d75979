-- ===== src/Signal/Timing.antt =====
-- The deadline of TecSignal_wait_for.
use tecc.Base.{
  ℕ, ◌+◌, ◌*◌, ◌^◌, ◌≤◌, ◌<◌, ◌≡◌, ◌⊎◌, inl, inr, refl, false, Option, some, arith, leb, Bool-cases,
  ◌==◌,
}
use tecc.Base.Int.{pos, pos_part, neg_part, ◌+ℤ◌}
use tecc.Base.Run.{ok, fault, Returns}
use tecc.Time.Defs.{TimePoint, TimeSpec, billion, long_long, tp_now, ts_to_tp, tp_to_ts}
use tecc.Time.Conversion.{
  clock_time, long_long_lem, long_long-fault, +ℤ-pos, tp_to_ts-ts_to_tp, ts_to_tp-tp_to_ts,
}
use tecc.Signal.Defs.{is_zero_time, deadline}

deadline_steps :
    (clock : Option TimeSpec) (timeout now end : TimePoint) (ts : TimeSpec)
    → tp_now clock ≡ ok now
    → is_zero_time now ≡ false
    → long_long (now +ℤ timeout) ≡ ok end
    → tp_to_ts end ≡ ok ts
    → deadline clock timeout ≡ ok (some ts)
unfolding deadline
deadline_steps clock timeout now end ts clocked some_time summed split =
    rw (clocked, some_time, summed, split)

deadline_fault_steps :
    (clock : Option TimeSpec) (timeout now : TimePoint)
    → tp_now clock ≡ ok now
    → is_zero_time now ≡ false
    → long_long (now +ℤ timeout) ≡ fault
    → deadline clock timeout ≡ fault
unfolding deadline
deadline_fault_steps clock timeout now clocked some_time summed = rw (clocked, some_time, summed)

-- For a time of the clock past the epoch, of fewer than 9223372036 seconds, and a timeout that is not
-- negative: TecSignal_wait_for computes a deadline that is the sum of both, in seconds and fewer than
-- a billion nanoseconds that are not negative, where that sum is a long long; where it is none, the
-- sum overflows.
pub deadline_lem :
    (s n timeout : ℕ)
    → n < billion
    → s < 9223372036
    → 0 < s * billion + n
    → ((s * billion + n + timeout < 2 ^ 63)
        × Returns (deadline (some (clock_time s n)) (pos timeout)) (λ d.
          (ts : TimeSpec) × (d ≡ some ts)
          × (ts_to_tp ts ≡ ok (pos (s * billion + n + timeout)))
          × (pos_part ts.tv_nsec < billion)
          × (neg_part ts.tv_nsec ≡ 0)))
      ⊎ ((2 ^ 63 ≤ s * billion + n + timeout)
          × (deadline (some (clock_time s n)) (pos timeout) ≡ fault))
unfolding tp_now is_zero_time
deadline_lem s n timeout below small later =
    let now = s * billion + n in
    let (tp, clocked, (same, back)) = tp_to_ts-ts_to_tp s n below small in
    let shown : ts_to_tp (clock_time s n) ≡ ok (pos now) = rw same at clocked in
    let some_time : (now == 0) ≡ false = ground arith in
    elim (Bool-cases (leb (2 ^ 63) (now + timeout))) [
      | inl e ↦ inr (
        ground arith,
        deadline_fault_steps (some (clock_time s n)) (pos timeout) (pos now) shown some_time
            (rw (+ℤ-pos now timeout) (long_long-fault (pos (now + timeout)) (ground arith))),
      )
      | inr e ↦
          let fits : now + timeout < 2 ^ 63 = ground arith in
          let (ts, run, (there, low, high, sign)) =
            ts_to_tp-tp_to_ts (pos (now + timeout)) (omega arith) in
          inl (
            fits,
            (
              some ts,
              deadline_steps (some (clock_time s n)) (pos timeout) (pos now) (pos (now + timeout))
                  ts shown some_time
                  (rw (+ℤ-pos now timeout) (long_long_lem (pos (now + timeout)) (omega arith))) run,
              (ts, refl, there, low, omega arith),
            ),
          )
    ]
