-- ===== src/Time/Units.antt =====
-- The units of tecc_time.h.
use tecc.Base.{ℕ, suc, ◌*◌, ◌≤◌, ◌≡◌, inl, inr, refl, ap, ◌∙◌, false, arith, Bool-cases}
use tecc.Base.Int.{ℤ, pos, negsuc, ◌*ℤ◌, *ℤ_parts, eq_of_parts}
use tecc.Base.Run.{◌>>=◌}
use tecc.Time.Defs.{in_range, long_long, billion, seconds, minutes, hours, days}

-- What is too large stays so.
in_range-*ℤ :
    (x : ℤ) (k : ℕ) → ((m : ℕ) → m ≤ m * k) → in_range x ≡ false → in_range (x *ℤ k) ≡ false
unfolding ◌*ℤ◌
in_range-*ℤ (pos n) k grows e = ground (arith, grows n)
in_range-*ℤ (negsuc n) k grows e = ground (arith, grows (suc n))

then_times :
    (x : ℤ) (k : ℕ)
    → ((m : ℕ) → m ≤ m * k)
    → (long_long x >>= λ t. long_long (t *ℤ k)) ≡ long_long (x *ℤ k)
unfolding long_long
then_times x k grows = elim (Bool-cases (in_range x)) [
  | inl e ↦ rw e
  | inr e ↦ rw (e, in_range-*ℤ x k grows e)
]

module _ (x : ℤ) where
  minutes_parts : (x *ℤ billion) *ℤ 60 ≡ x *ℤ (60 * billion)
  minutes_parts =
      let a = *ℤ_parts x billion in
      let b = *ℤ_parts (x *ℤ billion) 60 in
      let c = *ℤ_parts x (60 * billion) in eq_of_parts _ _ (omega arith)

  hours_parts : (x *ℤ (60 * billion)) *ℤ 60 ≡ x *ℤ (3600 * billion)
  hours_parts =
      let a = *ℤ_parts x (60 * billion) in
      let b = *ℤ_parts (x *ℤ (60 * billion)) 60 in
      let c = *ℤ_parts x (3600 * billion) in eq_of_parts _ _ (omega arith)

  days_parts : (x *ℤ (3600 * billion)) *ℤ 24 ≡ x *ℤ (86400 * billion)
  days_parts =
      let a = *ℤ_parts x (3600 * billion) in
      let b = *ℤ_parts (x *ℤ (3600 * billion)) 24 in
      let c = *ℤ_parts x (86400 * billion) in eq_of_parts _ _ (omega arith)

minutes_lem : (n : ℤ) → minutes n ≡ long_long (n *ℤ (60 * billion))
unfolding minutes seconds
minutes_lem n = then_times (n *ℤ billion) 60 (λ m. omega arith) ∙ ap long_long (minutes_parts n)

hours_lem : (n : ℤ) → hours n ≡ long_long (n *ℤ (3600 * billion))
unfolding hours
hours_lem n =
    rw (minutes_lem n)
      (then_times (n *ℤ (60 * billion)) 60 (λ m. omega arith) ∙ ap long_long (hours_parts n))

-- The macros SECONDS, MINUTES, HOURS and DAYS give the number of nanoseconds, and overflow exactly
-- where that is no long long.
pub days_lem :
    (n : ℤ)
    → (seconds n ≡ long_long (n *ℤ billion))
      × (minutes n ≡ long_long (n *ℤ (60 * billion)))
      × (hours n ≡ long_long (n *ℤ (3600 * billion)))
      × (days n ≡ long_long (n *ℤ (86400 * billion)))
unfolding seconds days
days_lem n = (
  refl,
  minutes_lem n,
  hours_lem n,
  rw (hours_lem n)
      (then_times (n *ℤ (3600 * billion)) 24 (λ m. omega arith) ∙ ap long_long (days_parts n)),
)
