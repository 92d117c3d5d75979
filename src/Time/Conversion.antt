-- ===== src/Time/Conversion.antt =====
-- Time points as seconds and nanoseconds, and back.
use tecc.Base.{ℕ, ◌+◌, ◌-◌, ◌*◌, ◌/◌, ◌^◌, ◌≤◌, ◌<◌, ◌≡◌, ◌⊎◌, inl, inr, refl, false, arith}
use tecc.Base.Int.{
  ℤ, pos, negsuc, pos_part, neg_part, ◌+ℤ◌, ◌-ℤ◌, ◌*ℤ◌, ◌/ℤ◌, +ℤ_parts, -ℤ_parts, *ℤ_parts,
  eq_of_parts,
}
use tecc.Base.Run.{ok, fault, Returns}
use tecc.Time.Defs.{TimePoint, TimeSpec, in_range, long_long, billion, tp_to_ts, ts_to_tp}

-- A long long.
abbrev pub IsLongLong : ℤ → Type 0
IsLongLong x = (pos_part x < 2 ^ 63) × (neg_part x ≤ 2 ^ 63)

pub long_long_lem : (x : ℤ) → IsLongLong x → long_long x ≡ ok x
unfolding long_long
long_long_lem (pos n) h = ground arith
long_long_lem (negsuc n) h = ground arith

pub long_long-fault : (x : ℤ) → in_range x ≡ false → long_long x ≡ fault
unfolding long_long
long_long-fault x e = rw e

-- Whole seconds towards 0, and the rest.
/ℤ_parts :
    (a : ℤ)
    → (pos_part (a /ℤ billion) ≡ pos_part a / billion)
      × (neg_part (a /ℤ billion) ≡ neg_part a / billion)
unfolding ◌/ℤ◌
/ℤ_parts (pos n) = ground arith
/ℤ_parts (negsuc n) = ground arith

module _ (tp : TimePoint) where
  tp_to_ts_steps :
      (sec whole nsec : ℤ)
      → long_long (tp /ℤ billion) ≡ ok sec
      → long_long (sec *ℤ billion) ≡ ok whole
      → long_long (tp -ℤ whole) ≡ ok nsec
      → tp_to_ts tp ≡ ok (record { tv_sec = sec; tv_nsec = nsec })
  unfolding tp_to_ts
  tp_to_ts_steps sec whole nsec e e' e'' = rw (e, e', e'')

one_part : (a : ℤ) → (pos_part a ≡ 0) ⊎ (neg_part a ≡ 0)
one_part (pos n) = inr refl
one_part (negsuc n) = inl refl

ts_to_tp_steps :
    (ts : TimeSpec) (whole tp : ℤ)
    → long_long (ts.tv_sec *ℤ billion) ≡ ok whole
    → long_long (whole +ℤ ts.tv_nsec) ≡ ok tp
    → ts_to_tp ts ≡ ok tp
unfolding ts_to_tp
ts_to_tp_steps ts whole tp e e' = rw (e, e')

-- The seconds, and the nanoseconds that are left, of a time point.
abbrev pub split : TimePoint → TimeSpec
split tp = let sec = tp /ℤ billion in record { tv_sec = sec; tv_nsec = tp -ℤ (sec *ℤ billion) }

-- What the parts of a time point add up to.
record Sums (tp : TimePoint) : Type 0 where
  whole_fits : IsLongLong ((split tp).tv_sec *ℤ billion)
  sec_fits : IsLongLong (split tp).tv_sec
  nsec_fits : IsLongLong (split tp).tv_nsec
  below : (pos_part (split tp).tv_nsec < billion) × (neg_part (split tp).tv_nsec < billion)
  not_negative : neg_part (split tp).tv_nsec ≤ neg_part tp
  sums : ((split tp).tv_sec *ℤ billion) +ℤ (split tp).tv_nsec ≡ tp

split-Sums : (tp : TimePoint) → IsLongLong tp → Sums tp
split-Sums tp h =
    let sec = tp /ℤ billion in
    let whole = sec *ℤ billion in
    let nsec = tp -ℤ whole in
    let d = /ℤ_parts tp in
    let m = *ℤ_parts sec billion in
    let s = -ℤ_parts tp whole in
    let a = +ℤ_parts whole nsec in
    let u = one_part tp in
    let v = one_part sec in
    let w = one_part whole in
    let x = one_part nsec in
    record {
      whole_fits = omega arith;
      sec_fits = omega arith;
      nsec_fits = omega arith;
      below = omega arith;
      not_negative = omega arith;
      sums = eq_of_parts (whole +ℤ nsec) tp (omega arith);
    }

-- tec_tp_to_ts of any time point overflows nowhere, and tec_ts_to_tp of its result is the time
-- point. The nanoseconds are fewer than a billion, and not negative if the time point is not.
pub ts_to_tp-tp_to_ts :
    (tp : TimePoint)
    → IsLongLong tp
    → Returns (tp_to_ts tp) λ ts.
      (ts_to_tp ts ≡ ok tp)
      × (pos_part ts.tv_nsec < billion)
      × (neg_part ts.tv_nsec < billion)
      × (neg_part ts.tv_nsec ≤ neg_part tp)
ts_to_tp-tp_to_ts tp h =
    let s = split-Sums tp h in
    let ts = split tp in
    let whole = long_long_lem (ts.tv_sec *ℤ billion) s.whole_fits in
    (
      ts,
      tp_to_ts_steps tp ts.tv_sec (ts.tv_sec *ℤ billion) ts.tv_nsec
          (long_long_lem ts.tv_sec s.sec_fits) whole (long_long_lem ts.tv_nsec s.nsec_fits),
      (
        ts_to_tp_steps ts (ts.tv_sec *ℤ billion) tp whole (rw s.sums (long_long_lem tp h)),
        s.below.0,
        s.below.1,
        s.not_negative,
      ),
    )

-- Seconds and nanoseconds that are not negative, as the clock gives them.
abbrev pub clock_time : ℕ → ℕ → TimeSpec
clock_time s n = record { tv_sec = pos s; tv_nsec = pos n }

*ℤ-pos : (a k : ℕ) → pos a *ℤ k ≡ pos (a * k)
unfolding ◌*ℤ◌
*ℤ-pos a k = ground arith

pub +ℤ-pos : (a b : ℕ) → pos a +ℤ pos b ≡ pos (a + b)
unfolding ◌+ℤ◌
+ℤ-pos a b = ground arith

-ℤ-pos : (a b : ℕ) → b ≤ a → pos a -ℤ pos b ≡ pos (a - b)
unfolding ◌-ℤ◌
-ℤ-pos a b h = ground arith

/ℤ-pos : (a : ℕ) → pos a /ℤ billion ≡ pos (a / billion)
unfolding ◌/ℤ◌
/ℤ-pos a = ground arith

-- A time that the clock gives, of fewer than 9223372036 seconds, becomes a time point without an
-- overflow, and tec_tp_to_ts of that is the time again.
pub tp_to_ts-ts_to_tp :
    (s n : ℕ)
    → n < billion
    → s < 9223372036
    → Returns
        (ts_to_tp (clock_time s n))
        λ tp. (tp ≡ pos (s * billion + n)) × (tp_to_ts tp ≡ ok (clock_time s n))
tp_to_ts-ts_to_tp s n below small =
    let total = s * billion + n in
    let sec : total / billion ≡ s = omega arith in
    let rest : total - s * billion ≡ n = omega arith in
    (
      pos total,
      ts_to_tp_steps (clock_time s n) (pos (s * billion)) (pos total)
          (rw (*ℤ-pos s billion) (long_long_lem (pos (s * billion)) (omega arith)))
          (rw (+ℤ-pos (s * billion) n) (long_long_lem (pos total) (omega arith))),
      (
        refl,
        tp_to_ts_steps (pos total) (pos s) (pos (s * billion)) (pos n)
            (rw (/ℤ-pos total, sec) (long_long_lem (pos s) (omega arith)))
            (rw (*ℤ-pos s billion) (long_long_lem (pos (s * billion)) (omega arith)))
            (rw (-ℤ-pos total (s * billion) (omega arith), rest)
              (long_long_lem (pos n) (omega arith))),
      ),
    )
