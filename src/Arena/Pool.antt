-- ===== src/Arena/Pool.antt =====
-- The elements of an arena's block: those in use and those on the free list.
use native.Mathlib.Nat.{mul-lt-mul_of_pos_right}
use tecc.Base.{
  ℕ, suc, ◌+◌, ◌≤◌, ◌<◌, ◌≡◌, inl, inr, refl, sym, ap, ◌∙◌, Bool, true, false, ◌||◌, some, List, [],
  ◌∷◌, arith, ltb, ◌==◌, if◌then◌else◌, Bool-cases, ==_iff, length,
}
use tecc.Base.Heap.{Ptr, null, Heap}
use tecc.Arena.Defs.{Word, flags, link, Arena, slot_at}

unfoldable pub elem : ℕ → List ℕ → Bool
elem i [] = false
elem i (j ∷ js) = (i == j) || elem i js

unfoldable pub without : ℕ → List ℕ → List ℕ
without i [] = []
without i (j ∷ js) = if i == j then js else j ∷ without i js

abbrev pub Distinct : List ℕ → Type 0
Distinct [] = Unit
Distinct (j ∷ js) = (elem j js ≡ false) × Distinct js

abbrev pub at : Arena → ℕ → Ptr
at a i = slot_at a.buf a.elem_size i

-- The free list leads through the slots.
pub data FreeList (slot : ℕ → Ptr) (h : Heap Word) : Ptr → List ℕ → Type 0 where
  stop : {p : Ptr} → p ≡ null → FreeList slot h p []
  step :
      {p q : Ptr} {i : ℕ} {is : List ℕ}
      → p ≡ slot i
      → h p ≡ some (link q)
      → FreeList slot h q is
      → FreeList slot h p (i ∷ is)

-- The slots in use and the free ones are the first slots of the block, each one or the other.
pub record IsPool (a : Arena) (live frees : List ℕ) : Type 0 where
  pub sized : 0 < a.elem_size
  pub based : 0 < a.buf
  pub listed : FreeList (at a) a.memory a.free_list frees
  pub once_live : Distinct live
  pub once_free : Distinct frees
  pub apart : (i : ℕ) → elem i live ≡ true → elem i frees ≡ false
  pub live_below : (i : ℕ) → elem i live ≡ true → i < length live + length frees
  pub free_below : (i : ℕ) → elem i frees ≡ true → i < length live + length frees
  pub fits : length live + length frees ≤ a.capacity
  pub counted : a.allocated ≡ length live
  pub marked : (i : ℕ) → elem i live ≡ true → a.memory (at a i) ≡ some (flags 1)
  pub backed : (i : ℕ) → i < a.capacity → (w : Word) × (a.memory (at a i) ≡ some w)

pub elem-without_ne : (i j : ℕ) (js : List ℕ) → (j == i) ≡ false → elem j (without i js) ≡ elem j js
unfolding elem without
elem-without_ne i j [] e = refl
elem-without_ne i j (k ∷ js) e = ground (arith, elem-without_ne i j js)

pub elem-without_self : (i : ℕ) (js : List ℕ) → Distinct js → elem i (without i js) ≡ false
unfolding elem without
elem-without_self i [] once = refl
elem-without_self i (k ∷ js) once = elim (Bool-cases (i == k)) [
  | inl e ↦ rw e (ap (λ (x : ℕ). elem x js) ((==_iff i k).0 e) ∙ once.0)
  | inr e ↦ rw (e, e) (elem-without_self i js once.1)
]

pub elem-without : (i j : ℕ) (js : List ℕ) → elem j (without i js) ≡ true → elem j js ≡ true
unfolding elem without
elem-without i j [] h = h
elem-without i j (k ∷ js) h = ground (arith, elem-without i j js)

pub Distinct-without : (i : ℕ) (js : List ℕ) → Distinct js → Distinct (without i js)
unfolding elem without
Distinct-without i [] once = tt
Distinct-without i (k ∷ js) once = elim (Bool-cases (i == k)) [
  | inl e ↦ rw e once.1
  | inr e ↦
      let ne : (k == i) ≡ false = ground arith in
      rw e (elem-without_ne i k js ne ∙ once.0, Distinct-without i js once.1)
]

pub length-without :
    (i : ℕ) (js : List ℕ) → elem i js ≡ true → suc (length (without i js)) ≡ length js
unfolding elem without
length-without i [] h = cc
length-without i (k ∷ js) h = ground (arith, length-without i js)

slot_lt : (b e i j : ℕ) → 0 < e → i < j → slot_at b e i < slot_at b e j
slot_lt b e i j pos h = let less = mul-lt-mul_of_pos_right h pos in omega (arith, less)

-- Two slots have two addresses.
pub slot_ne : (b e i j : ℕ) → 0 < e → (i == j) ≡ false → (slot_at b e i == slot_at b e j) ≡ false
slot_ne b e i j pos differ = elim (Bool-cases (ltb i j)) [
  | inl lt ↦ let less = slot_lt b e i j pos (ground arith) in ground (arith, less)
  | inr ge ↦ let less = slot_lt b e j i pos (ground arith) in ground (arith, less)
]

-- A free list is one where the memory of its slots is the same.
pub frame :
    {slot : ℕ → Ptr} {h g : Heap Word} {p : Ptr} {is : List ℕ}
    → FreeList slot h p is
    → ((i : ℕ) → elem i is ≡ true → g (slot i) ≡ h (slot i))
    → FreeList slot g p is
unfolding elem
frame (stop e) same = stop e
frame {h} {g} (step {i} e there rest) same =
    step e (ap g e ∙ same i (ground arith) ∙ sym (ap h e) ∙ there)
      (frame rest (λ j inside. same j (ground arith)))
