-- ===== src/Arena/Slots.antt =====
-- Single slots of an arena, and memory outside its block.
use mathlib.Core.Bool.{true≢false}
use tecc.Base.{
  ℕ, ◌<◌, ◌≡◌, inl, inr, sym, ap, ◌∙◌, true, false, Option, none, some, List, arith, ◌==◌,
  Bool-cases, ==_iff,
}
use tecc.Base.Heap.{Ptr, put, Holds, put_ne, put_self}
use tecc.Arena.Defs.{Word, Arena}
use tecc.Arena.Pool.{elem, at, frame, IsPool, slot_ne}

pub elem-ne : (i j : ℕ) (js : List ℕ) → elem i js ≡ true → elem j js ≡ false → (i == j) ≡ false
elem-ne i j js inside out = elim (Bool-cases (i == j)) [
  | inl e ↦ absurd (true≢false (sym inside ∙ ap (λ (k : ℕ). elem k js) ((==_iff i j).0 e) ∙ out))
  | inr e ↦ e
]

module _ {a : Arena} {live frees : List ℕ} (t : IsPool a live frees) where
  pub slot_holds : (i : ℕ) (w : Word) → a.memory (at a i) ≡ some w → Holds a.memory (at a i) w
  slot_holds i w e = let based = t.based in record { not_null = ground arith; holds = e }

  pub other_slot :
      (w : Word) (i j : ℕ)
      → (j == i) ≡ false
      → put a.memory (at a i) (some w) (at a j) ≡ a.memory (at a j)
  other_slot w i j differ =
      put_ne a.memory (at a i) (some w) (at a j) (slot_ne a.buf a.elem_size j i t.sized differ)

  pub still_backed :
      (w : Word) (i j : ℕ)
      → j < a.capacity
      → (w' : Word) × (put a.memory (at a i) (some w) (at a j) ≡ some w')
  still_backed w i j h = elim (Bool-cases (j == i)) [
    | inl e ↦ (
      w,
      ap (λ (k : ℕ). put a.memory (at a i) (some w) (at a k)) ((==_iff j i).0 e)
          ∙ put_self a.memory (at a i) (some w),
    )
    | inr e ↦ let (w', there) = t.backed j h in (w', other_slot w i j e ∙ there)
  ]

none≢some : {w : Word} → none ≡ some w → ⊥
none≢some e = cc

-- Memory outside the block does not matter to the slots.
pub put-IsPool :
    {a : Arena} {live frees : List ℕ} (p : Ptr) (c : Option Word)
    → IsPool a live frees
    → a.memory p ≡ none
    → IsPool (record a { memory = put a.memory p c }) live frees
put-IsPool {a} {live} {frees} p c t unused = record {
  sized = t.sized;
  based = t.based;
  listed = frame t.listed (λ i inside. same i (omega (arith, t.free_below i inside, t.fits)));
  once_live = t.once_live;
  once_free = t.once_free;
  apart = t.apart;
  live_below = t.live_below;
  free_below = t.free_below;
  fits = t.fits;
  counted = t.counted;
  marked = λ i inside. same i (omega (arith, t.live_below i inside, t.fits)) ∙ t.marked i inside;
  backed = λ i h. let (w, there) = t.backed i h in (w, same i h ∙ there);
}
  where
    same : (i : ℕ) → i < a.capacity → put a.memory p c (at a i) ≡ a.memory (at a i)
    same i h = put_ne a.memory p c (at a i) (elim (Bool-cases (at a i == p)) [
      | inl e ↦
          let (w, there) = t.backed i h in
          absurd (none≢some (sym unused ∙ sym (ap a.memory ((==_iff (at a i) p).0 e)) ∙ there))
      | inr e ↦ e
    ])
