-- ===== src/Map/Cells.antt =====
-- What a bucket stands for: the address, key and value of each node, in order.
use mathlib.Core.Path.{subst}
use tecc.Base.{
  ℕ, suc, ◌≡◌, ◌⊎◌, inl, inr, refl, sym, ap, ◌∙◌, Bool, true, false, ◌||◌, Option, none, some, List,
  [], ◌∷◌, arith, ◌==◌, if◌then◌else◌, Bool-cases, ==_iff, length,
}
use tecc.Base.Heap.{Ptr, null}
use tecc.Map.Defs.{Key, same_key}

abbrev pub Cells : Type 0
Cells = List (Ptr × Key × ℕ)

-- The address is that of one of the cells.
unfoldable pub has : Ptr → Cells → Bool
has a [] = false
has a ((p, _, _) ∷ cs) = (a == p) || has a cs

-- The address of the first cell with the key, or NULL.
unfoldable pub addr : Key → Cells → Ptr
addr k [] = null
addr k ((p, j, _) ∷ cs) = if same_key j k then p else addr k cs

-- The value of the first cell with the key.
unfoldable pub find : Key → Cells → Option ℕ
find k [] = none
find k ((_, j, v) ∷ cs) = if same_key j k then some v else find k cs

unfoldable pub assign : Key → ℕ → Cells → Cells
assign k v [] = []
assign k v ((p, j, w) ∷ cs) = if same_key j k then (p, j, v) ∷ cs else (p, j, w) ∷ assign k v cs

-- The cells without the first one with the key.
unfoldable pub erase : Key → Cells → Cells
erase k [] = []
erase k ((p, j, w) ∷ cs) = if same_key j k then cs else (p, j, w) ∷ erase k cs

-- No two cells have the same key.
abbrev pub Once : Cells → Type 0
Once [] = Unit
Once ((_, k, _) ∷ cs) = (find k cs ≡ none) × Once cs

pub same_key_iff : (s t : Key) → same_key s t ≡ true → s ≡ t
unfolding same_key
same_key_iff [] [] h = refl
same_key_iff [] (d ∷ t) h = cc
same_key_iff (c ∷ s) [] h = cc
same_key_iff (c ∷ s) (d ∷ t) h = ground (arith, same_key_iff s t)

pub same_key_self : (s : Key) → same_key s s ≡ true
unfolding same_key
same_key_self [] = refl
same_key_self (c ∷ s) = ground (arith, same_key_self s)

pub same_key_symm : (s t : Key) → same_key s t ≡ same_key t s
same_key_symm s t = elim (Bool-cases (same_key s t)) [
  | inl e ↦ let same = same_key_iff s t e in rw same
  | inr e ↦ elim (Bool-cases (same_key t s)) [
    | inl e' ↦ let same = same_key_iff t s e' in rw same
    | inr e' ↦ rw (e, e')
  ]
]

-- Keys are compared as a decision on their equality.
pub Key-cases : (s t : Key) → ((same_key s t ≡ true) × (s ≡ t)) ⊎ (same_key s t ≡ false)
Key-cases s t = elim (Bool-cases (same_key s t)) [
  | inl e ↦ inl (e, same_key_iff s t e)
  | inr e ↦ inr e
]

-- Two different keys are not both equal to a third.
pub apart : (j k q : Key) → same_key j k ≡ false → same_key j q ≡ true → same_key k q ≡ false
apart j k q e h = elim (Bool-cases (same_key k q)) [
  | inl e' ↦ let jk : same_key j k ≡ same_key j q = rw (same_key_iff k q e') in cc
  | inr e' ↦ e'
]

pub has-assign : (a : Ptr) (k : Key) (v : ℕ) (cs : Cells) → has a (assign k v cs) ≡ has a cs
unfolding has assign
has-assign a k v [] = refl
has-assign a k v ((p, j, w) ∷ cs) = ground (arith, has-assign a k v cs)

pub has-erase : (a : Ptr) (k : Key) (cs : Cells) → has a cs ≡ false → has a (erase k cs) ≡ false
unfolding has erase
has-erase a k [] h = refl
has-erase a k ((p, j, w) ∷ cs) h = ground (arith, has-erase a k cs)

pub has-addr : (k : Key) (cs : Cells) → (addr k cs == null) ≡ false → has (addr k cs) cs ≡ true
unfolding has addr
has-addr k [] h = cc
has-addr k ((p, j, w) ∷ cs) h = ground (arith, has-addr k cs)

pub has-ne : (a b : Ptr) (cs : Cells) → has a cs ≡ false → has b cs ≡ true → (b == a) ≡ false
has-ne a b cs out i = elim (Bool-cases (b == a)) [
  | inl e ↦ let same : has b cs ≡ has a cs = ap (λ c. has c cs) ((==_iff b a).0 e) in cc
  | inr e ↦ e
]

pub has-ne' : (a b : Ptr) (cs : Cells) → has a cs ≡ false → has b cs ≡ true → (a == b) ≡ false
has-ne' a b cs out i = ground (arith, has-ne a b cs out i)

pub length-assign : (k : Key) (v : ℕ) (cs : Cells) → length (assign k v cs) ≡ length cs
unfolding assign
length-assign k v [] = refl
length-assign k v ((p, j, w) ∷ cs) = ground (arith, length-assign k v cs)

pub length-erase :
    (k : Key) (cs : Cells) (v : ℕ) → find k cs ≡ some v → suc (length (erase k cs)) ≡ length cs
unfolding erase find
length-erase k [] v h = cc
length-erase k ((p, j, w) ∷ cs) v h = ground (arith, length-erase k cs v)

pub find-assign :
    (k q : Key) (v old : ℕ) (cs : Cells)
    → find k cs ≡ some old
    → find q (assign k v cs) ≡ (if same_key k q then some v else find q cs)
unfolding find assign
find-assign k q v old [] h = cc
find-assign k q v old ((p, j, w) ∷ cs) h = elim (Key-cases j k) [
  | inl (e, same) ↦ rw (e, same) (ground arith)
  | inr e ↦ ground (arith, e, find-assign k q v old cs, apart j k q)
]

pub find-erase :
    (k q : Key) (cs : Cells)
    → Once cs
    → find q (erase k cs) ≡ (if same_key k q then none else find q cs)
unfolding find erase
find-erase k q [] once = ground arith
find-erase k q ((p, j, w) ∷ cs) once = elim (Key-cases j k) [
  | inl (e, same) ↦
      let gone : find k cs ≡ none = subst (λ (i : Key). find i cs ≡ none) same once.0 in
      elim (Key-cases k q) [
        | inl (e', same') ↦ rw (e, e') (subst (λ (i : Key). find i cs ≡ none) same' gone)
        | inr e' ↦ rw (e, same, e')
      ]
  | inr e ↦ ground (arith, e, find-erase k q cs, apart j k q)
]

some-ne-none : {v : ℕ} → some v ≡ none → ⊥
some-ne-none e = cc

pub find-assign-none :
    (k q : Key) (v old : ℕ) (cs : Cells)
    → find k cs ≡ some old
    → find q cs ≡ none
    → find q (assign k v cs) ≡ none
unfolding find
find-assign-none k q v old cs h none_there = rw (find-assign k q v old cs h) (elim (Key-cases k q) [
  | inl (e, same) ↦ absurd (some-ne-none (sym h ∙ rw (same, none_there)))
  | inr e ↦ rw (e, none_there)
])

pub Once-assign :
    (k : Key) (v old : ℕ) (cs : Cells) → find k cs ≡ some old → Once cs → Once (assign k v cs)
unfolding assign find
Once-assign k v old [] h once = tt
Once-assign k v old ((p, j, w) ∷ cs) h once = elim (Key-cases j k) [
  | inl (e, same) ↦ rw e once
  | inr e ↦
      let there : find k cs ≡ some old = rw e at h in
      rw e (find-assign-none k j v old cs there once.0, Once-assign k v old cs there once.1)
]

pub Once-erase : (k : Key) (cs : Cells) → Once cs → Once (erase k cs)
unfolding erase find
Once-erase k [] once = tt
Once-erase k ((p, j, w) ∷ cs) once = elim (Key-cases j k) [
  | inl (e, same) ↦ rw e once.1
  | inr e ↦
      rw e (find-erase k j cs once.1 ∙ rw (same_key_symm k j, e, once.0), Once-erase k cs once.1)
]
