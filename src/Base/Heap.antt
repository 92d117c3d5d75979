-- ===== src/Base/Heap.antt =====
-- Memory that holds nodes of one type, by address. `malloc` is outside the repository: what it
-- returns is an argument of the code that calls it.
use tecc.Base.Tests.{◌==◌, if◌then◌else◌, Bool-cases}
use mathlib.Core.Logic.{inl, inr}
use tecc.Base.Run.{Run, ok, fault, ◌>>=◌}
use Prim.Native.Nat.{ℕ}
use mathlib.Core.Path.{◌≡◌, sym, ◌∙◌}
use mathlib.Core.Bool.{false}
use mathlib.Core.Option.{Option, none, some}
use native.Mathlib.Omega.{arith}

abbrev pub Ptr : Type 0
Ptr = ℕ

-- NULL
abbrev pub null : Ptr
null = 0

abbrev pub Heap : Type 0 → Type 0
Heap Node = Ptr → Option Node

module _ {Node : Type 0} where
  -- What address `p` holds becomes `c`.
  unfoldable pub put : Heap Node → Ptr → Option Node → Heap Node
  put h p c q = if q == p then c else h q

  unfoldable pub given : Option Node → Run Node
  given none = fault
  given (some n) = ok n

  -- Access to `*p`.
  unfoldable pub load : Heap Node → Ptr → Run Node
  load h p = if p == null then fault else given (h p)

  -- A node that `malloc` returned at `p` is filled in; NULL faults.
  unfoldable pub fill : Heap Node → Ptr → Node → Run (Heap Node)
  fill h p n = if p == null then fault else ok (put h p (some n))

  -- `*p = n`
  unfoldable pub store : Heap Node → Ptr → Node → Run (Heap Node)
  store h p n = load h p >>= λ _. ok (put h p (some n))

  unfoldable pub free : Heap Node → Ptr → Run (Heap Node)
  free h p = load h p >>= λ _. ok (put h p none)

  -- `p` points to the node `n`.
  pub record Holds (h : Heap Node) (p : Ptr) (n : Node) : Type 0 where
    pub not_null : (p == null) ≡ false
    pub holds : h p ≡ some n

  -- `p` is what `malloc` may return: neither NULL nor in use.
  pub record IsFresh (h : Heap Node) (p : Ptr) : Type 0 where
    pub not_null : (p == null) ≡ false
    pub unused : h p ≡ none

  module _ {h : Heap Node} {p : Ptr} {n : Node} (there : Holds h p n) where
    pub load_lem : load h p ≡ ok n
    unfolding load given
    load_lem = rw (there.not_null, there.holds)

    pub store_lem : (n' : Node) → store h p n' ≡ ok (put h p (some n'))
    unfolding store
    store_lem n' = rw load_lem

    pub free_lem : free h p ≡ ok (put h p none)
    unfolding free
    free_lem = rw load_lem

    pub Holds-put : (n' : Node) → Holds (put h p (some n')) p n'
    unfolding put
    Holds-put n' = record { not_null = there.not_null; holds = ground arith }

  pub fill_lem :
      (h : Heap Node) (p : Ptr) (n : Node)
      → (p == null) ≡ false
      → fill h p n ≡ ok (put h p (some n))
  unfolding fill
  fill_lem h p n some_place = rw some_place

  -- Nothing is freed where nothing is in use.
  pub free-fault : (h : Heap Node) (p : Ptr) → h p ≡ none → free h p ≡ fault
  unfolding free load given
  free-fault h p e = elim (Bool-cases (p == null)) [ inl z ↦ rw z | inr z ↦ rw (z, e) ]

  pub put_self : (h : Heap Node) (p : Ptr) (c : Option Node) → put h p c p ≡ c
  unfolding put
  put_self h p c = ground arith

  pub put_ne :
      (h : Heap Node) (p : Ptr) (c : Option Node) (q : Ptr) → (q == p) ≡ false → put h p c q ≡ h q
  unfolding put
  put_ne h p c q e = rw e

  pub Holds-put_ne :
      {h : Heap Node} {p : Ptr} {n : Node} (a : Ptr) (c : Option Node)
      → Holds h p n
      → (p == a) ≡ false
      → Holds (put h a c) p n
  unfolding put
  Holds-put_ne a c there e = record { not_null = there.not_null; holds = rw e there.holds }

  pub Holds-unique : {h : Heap Node} {p : Ptr} {n n' : Node} → Holds h p n → Holds h p n' → n ≡ n'
  Holds-unique a b = let e = sym a.holds ∙ b.holds in cc
