-- ===== src/Queue/Line.antt =====
-- The nodes of a queue in the heap, from its head to its tail.
use mathlib.Core.Bool.{true≢false}
use tecc.Base.{
  ℕ, ◌≡◌, inl, inr, refl, sym, ap, ◌∙◌, Bool, true, false, ◌||◌, none, some, List, [], ◌∷◌, ◌++◌,
  map, arith, ◌==◌, Bool-cases, ==_iff,
}
use tecc.Base.Heap.{Ptr, null, Heap, Holds}
use tecc.Queue.Defs.{Node, Queue}

-- The address and the object of each node, in order.
abbrev pub Cells : Type 0
Cells = List (Ptr × ℕ)

abbrev pub objects : Cells → List ℕ
objects cs = map (λ c. c.1) cs

abbrev pub node : ℕ → Ptr → Node
node obj next = record { obj = obj; next = next }

unfoldable pub owns : Ptr → Cells → Bool
owns a [] = false
owns a ((p, _) ∷ cs) = (a == p) || owns a cs

-- From `p` the links lead through the cells, each node once, to the last one, which is `last`.
pub data Line (h : Heap Node) : Ptr → Ptr → Cells → Type 0 where
  empty : {p last : Ptr} → p ≡ null → last ≡ null → Line h p last []
  single : {p : Ptr} {x : ℕ} → Holds h p (node x null) → Line h p p ((p, x) ∷ [])
  cons :
      {p q last : Ptr} {x : ℕ} {c : Ptr × ℕ} {cs : Cells}
      → Holds h p (node x q)
      → owns p (c ∷ cs) ≡ false
      → Line h q last (c ∷ cs)
      → Line h p last ((p, x) ∷ c ∷ cs)

-- The queue holds the cells, and no node stands outside them.
pub record IsQueue (q : Queue) (cs : Cells) : Type 0 where
  pub line : Line q.heap q.head q.tail cs
  pub owned : (a : Ptr) → owns a cs ≡ false → q.heap a ≡ none

none≢some : {n : Node} → none ≡ some n → ⊥
none≢some e = cc

pub owns-append :
    (a b : Ptr) (y : ℕ) (cs : Cells)
    → owns a cs ≡ false
    → (a == b) ≡ false
    → owns a (cs ++ ((b, y) ∷ [])) ≡ false
unfolding owns
owns-append a b y [] o ne = rw ne
owns-append a b y ((p, x) ∷ cs) o ne = ground (arith, owns-append a b y cs)

pub owns-ne : (a b : Ptr) (cs : Cells) → owns a cs ≡ true → owns b cs ≡ false → (a == b) ≡ false
owns-ne a b cs inside out = elim (Bool-cases (a == b)) [
  | inl e ↦ absurd (true≢false (sym inside ∙ ap (λ c. owns c cs) ((==_iff a b).0 e) ∙ out))
  | inr e ↦ e
]

module _ {h : Heap Node} where
  pub frame :
      {g : Heap Node} {p last : Ptr} {cs : Cells}
      → Line h p last cs
      → ((a : Ptr) → owns a cs ≡ true → g a ≡ h a)
      → Line g p last cs
  unfolding owns
  frame (empty e e') same = empty e e'
  frame (single {p} here) same =
      single (record { not_null = here.not_null; holds = same p (ground arith) ∙ here.holds })
  frame (cons {p} here out rest) same =
      cons (record { not_null = here.not_null; holds = same p (ground arith) ∙ here.holds }) out
        (frame rest (λ a i. same a (ground arith)))

  -- The last node has no next one.
  pub last_lem :
      {p last : Ptr} {c : Ptr × ℕ} {cs : Cells}
      → Line h p last (c ∷ cs)
      → (z : ℕ) × Holds h last (node z null) × (owns last (c ∷ cs) ≡ true)
  unfolding owns
  last_lem (single {x} here) = (x, here, ground arith)
  last_lem (cons here out rest) = let (z, there, inside) = last_lem rest in (z, there, ground arith)

  pub fresh_out :
      {p last : Ptr} {cs : Cells} (a : Ptr) → Line h p last cs → h a ≡ none → owns a cs ≡ false
  unfolding owns
  fresh_out a (empty e e') unused = refl
  fresh_out a (single {p} here) unused = elim (Bool-cases (a == p)) [
    | inl e ↦ absurd (none≢some (sym unused ∙ ap h ((==_iff a p).0 e) ∙ here.holds))
    | inr e ↦ rw e
  ]
  fresh_out a (cons {p} here out rest) unused = elim (Bool-cases (a == p)) [
    | inl e ↦ absurd (none≢some (sym unused ∙ ap h ((==_iff a p).0 e) ∙ here.holds))
    | inr e ↦ rw e (fresh_out a rest unused)
  ]

  -- A node behind the last one, which is linked to it.
  pub extend :
      {g : Heap Node} {p last new : Ptr} {c : Ptr × ℕ} {cs : Cells} {y : ℕ}
      → Line h p last (c ∷ cs)
      → Holds g new (node y null)
      → owns new (c ∷ cs) ≡ false
      → ((z : ℕ) → Holds h last (node z null) → g last ≡ some (node z new))
      → ((a : Ptr) → owns a (c ∷ cs) ≡ true → (a == last) ≡ false → g a ≡ h a)
      → Line g p new ((c ∷ cs) ++ ((new, y) ∷ []))
  unfolding owns
  extend {new} (single {p} {x} here) there out link same =
      cons (record { not_null = here.not_null; holds = link x here }) (ground arith) (single there)
  extend {last} {new} {y} (cons {p} {x} {c} {cs} here apart rest) there out link same =
      let (_, _, inside) = last_lem rest in
      let ne : (p == last) ≡ false =
        let apart' = owns-ne last p (c ∷ cs) inside apart in ground arith in
      cons (record { not_null = here.not_null; holds = same p (ground arith) ne ∙ here.holds })
        (owns-append p new y (c ∷ cs) apart (ground arith))
        (extend rest there (ground arith) link (λ a i differ. same a (ground arith) differ))

  pub head_lem :
      {p last : Ptr} {c : Ptr × ℕ} {cs : Cells} → Line h p last (c ∷ cs) → (p == null) ≡ false
  head_lem (single here) = here.not_null
  head_lem (cons here out rest) = here.not_null
