-- ===== src/Map/Chain.antt =====
-- A bucket in the heap: a chain of nodes, each linked to the one before it and the one behind it.
use mathlib.Core.Path.{subst}
use mathlib.Core.Bool.{true≢false}
use tecc.Base.{
  ℕ, zero, suc, ◌<◌, ◌≡◌, inl, inr, refl, sym, ap, ◌∙◌, true, false, Option, none, some, [], ◌∷◌,
  arith, ◌==◌, Bool-cases, ==_iff, length,
}
use tecc.Base.Heap.{
  Ptr, null, Heap, put, Holds, load_lem, store_lem, Holds-put, Holds-put_ne, Holds-unique, put_ne,
}
use tecc.Base.Run.{ok, Returns}
use tecc.Map.Defs.{Key, Node, same_key, find_in_bucket, set_prev}
use tecc.Map.Cells.{
  Cells, has, addr, find, assign, has-addr, has-assign, has-ne, has-ne', Key-cases,
}

abbrev pub node : Key → ℕ → Ptr → Ptr → Node
node k v prev next = record { key = k; value = v; prev = prev; next = next }

-- From `p` the `next` links lead through the cells to NULL, each node once, and the `prev` links
-- lead back, that of the first node to `prev`.
pub data Chain (h : Heap Node) : Ptr → Ptr → Cells → Type 0 where
  nil : {prev p : Ptr} → p ≡ null → Chain h prev p []
  cons :
      {prev p q : Ptr} {k : Key} {v : ℕ} {cs : Cells}
      → Holds h p (node k v prev q)
      → has p cs ≡ false
      → Chain h p q cs
      → Chain h prev p ((p, k, v) ∷ cs)

-- `g` differs from `h` at most at the addresses of the cells.
abbrev pub SameOutside : Cells → Heap Node → Heap Node → Type 0
SameOutside cs h g = (a : Ptr) → has a cs ≡ false → g a ≡ h a

-- The node that is found holds the key and the value that the cells give it.
pub record Found (h : Heap Node) (k : Key) (cs : Cells) : Type 0 where
  pub value : ℕ
  pub prev : Ptr
  pub next : Ptr
  pub here : Holds h (addr k cs) (node k value prev next)
  pub found : find k cs ≡ some value

none≢some : {n : Node} → none ≡ some n → ⊥
none≢some e = cc

module _ {h : Heap Node} where
  -- A chain stays a chain where its own nodes do.
  pub frame :
      {g : Heap Node} {prev p : Ptr} {cs : Cells}
      → Chain h prev p cs
      → ((a : Ptr) → has a cs ≡ true → g a ≡ h a)
      → Chain g prev p cs
  unfolding has
  frame (nil e) same = nil e
  frame (cons {p} here out rest) same =
      cons (record { not_null = here.not_null; holds = same p (ground arith) ∙ here.holds }) out
        (frame rest (λ a i. same a (ground arith)))

  pub frame-put :
      {prev p : Ptr} {cs : Cells} (a : Ptr) (c : Option Node)
      → Chain h prev p cs
      → has a cs ≡ false
      → Chain (put h a c) prev p cs
  frame-put {cs} a c chain out = frame chain (λ b i. put_ne h a c b (has-ne a b cs out i))

  -- With more fuel than cells the search of a bucket ends, at the first node with the key.
  pub find_in_bucket_lem :
      (fuel : ℕ) (key : Key) {prev p : Ptr} {cs : Cells}
      → Chain h prev p cs
      → length cs < fuel
      → find_in_bucket fuel h p key ≡ ok (addr key cs)
  unfolding find_in_bucket addr
  find_in_bucket_lem zero key c enough = absurd (omega arith)
  find_in_bucket_lem (suc fuel) key (nil e) enough = rw e
  find_in_bucket_lem (suc fuel) key (cons {p} {k} here out rest) enough =
      rw (here.not_null, load_lem here)
        (elim (Bool-cases (same_key k key)) [
          | inl e ↦ rw e
          | inr e ↦ rw e (find_in_bucket_lem fuel key rest (omega arith))
        ])

  pub found_lem :
      (k : Key) {prev p : Ptr} {cs : Cells}
      → Chain h prev p cs
      → (addr k cs == null) ≡ false
      → Found h k cs
  unfolding addr find
  found_lem k (nil e) some_place = absurd (true≢false some_place)
  found_lem k {prev} (cons {p} {q} {k = j} {v} here out rest) some_place = elim (Key-cases j k) [
    | inl (e, same) ↦ record {
      value = v;
      prev = prev;
      next = q;
      here = rw e (subst (λ (i : Key). Holds h p (node i v prev q)) same here);
      found = rw e;
    }
    | inr e ↦
        let f = found_lem k rest (rw e at some_place) in
        record {
          value = f.value;
          prev = f.prev;
          next = f.next;
          here = rw e f.here;
          found = rw e f.found;
        }
  ]

  pub absent_lem :
      (k : Key) {prev p : Ptr} {cs : Cells}
      → Chain h prev p cs
      → (addr k cs == null) ≡ true
      → find k cs ≡ none
  unfolding addr find
  absent_lem k (nil e) h = refl
  absent_lem k (cons {k = j} here out rest) h = elim (Key-cases j k) [
    | inl (e, same) ↦ absurd (true≢false (sym (rw e at h) ∙ here.not_null))
    | inr e ↦ rw e (absent_lem k rest (rw e at h))
  ]

  -- A new value in the node found is a new value in its cell.
  pub assign-Chain :
      (k : Key) (v : ℕ) (n : Node) {prev p : Ptr} {cs : Cells}
      → Chain h prev p cs
      → Holds h (addr k cs) n
      → Chain (put h (addr k cs) (some (record n { value = v }))) prev p (assign k v cs)
  unfolding addr assign
  assign-Chain k v n (nil e) there = nil e
  assign-Chain k v n {prev} (cons {p} {q} {k = j} {v = w} {cs} here out rest) there =
      elim (Key-cases j k) [
        | inl (e, same) ↦
            let n_is : n ≡ node j w prev q = Holds-unique (rw e at there) here in
            rw e (
              subst
                (λ (x : Node).
                  Chain (put h p (some (record x { value = v }))) prev p ((p, j, v) ∷ cs))
                (sym n_is) (cons (Holds-put here (node j v prev q)) out (frame-put p _ rest out)))
        | inr e ↦
            let there' : Holds h (addr k cs) n = rw e at there in
            let inside = has-addr k cs there'.not_null in
            rw e (
              cons (Holds-put_ne (addr k cs) _ here (has-ne' p (addr k cs) cs out inside))
                (has-assign p k v cs ∙ out) (assign-Chain k v n rest there'))
      ]

  -- The `prev` link of the first node, if there is one, is set.
  pub set_prev-Chain :
      (x : Ptr) {prev p : Ptr} {cs : Cells}
      → Chain h prev p cs
      → Returns (set_prev h p x) λ g. Chain g x p cs × SameOutside cs h g
  unfolding set_prev has
  set_prev-Chain x (nil e) = (h, rw e, (nil e, λ a out. refl))
  set_prev-Chain x (cons {p} {q} {k} {v} here out rest) =
      let changed = node k v x q in
      (
        put h p (some changed),
        rw (here.not_null, load_lem here, store_lem here changed),
        (
          cons (Holds-put here changed) out (frame-put p _ rest out),
          λ a o. put_ne h p _ a (ground arith),
        ),
      )

  -- A free address is that of no cell.
  pub fresh_out :
      {prev p : Ptr} {cs : Cells} (a : Ptr) → Chain h prev p cs → h a ≡ none → has a cs ≡ false
  unfolding has
  fresh_out a (nil e) unused = refl
  fresh_out a (cons {p} here out rest) unused = elim (Bool-cases (a == p)) [
    | inl e ↦
        let same = ap h ((==_iff a p).0 e) in absurd (none≢some (sym unused ∙ same ∙ here.holds))
    | inr e ↦ rw e (fresh_out a rest unused)
  ]
