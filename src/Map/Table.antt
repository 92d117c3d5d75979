-- ===== src/Map/Table.antt =====
-- The table as a family of buckets, what it maps, and the change of one bucket.
use mathlib.Core.Bool.{true≢false}
use tecc.Base.{
  ℕ, zero, suc, ◌+◌, ◌%◌, ◌≤◌, ◌<◌, ◌≡◌, ◌⊎◌, inl, inr, refl, sym, ap, ◌∙◌, true, false, Option,
  none, some, [], arith, ◌==◌, if◌then◌else◌, Bool-cases, ==_iff, length, get_or, set, length-set,
  get_or-set_self, get_or-set_ne,
}
use tecc.Base.Heap.{Ptr, null, Heap}
use tecc.Map.Defs.{Key, Node, Map, fnv_1a_64, same_key}
use tecc.Map.Cells.{Cells, has, find, Once, Key-cases}
use tecc.Map.Chain.{Chain, frame, fresh_out}

abbrev pub Buckets : Type 0
Buckets = ℕ → Cells

abbrev pub replace : Buckets → ℕ → Cells → Buckets
replace cells i c j = if j == i then c else cells j

-- The number of cells of the first `n` buckets.
unfoldable pub total : ℕ → Buckets → ℕ
total zero cells = 0
total (suc n) cells = total n cells + length (cells n)

total-replace_of_le :
    (n : ℕ) (cells : Buckets) (i : ℕ) (c : Cells)
    → n ≤ i
    → total n (replace cells i c) ≡ total n cells
unfolding total
total-replace_of_le zero cells i c h = refl
total-replace_of_le (suc n) cells i c h = ground (arith, total-replace_of_le n cells i c)

pub total-replace :
    (n : ℕ) (cells : Buckets) (i : ℕ) (c : Cells)
    → i < n
    → total n (replace cells i c) + length (cells i) ≡ total n cells + length c
unfolding total
total-replace zero cells i c h = absurd (omega arith)
total-replace (suc n) cells i c h = elim (Bool-cases (n == i)) [
  | inl e ↦
      let same : n ≡ i = (==_iff n i).0 e in
      rw (e, total-replace_of_le n cells i c (omega arith), same) (omega arith)
  | inr e ↦ rw e (omega (arith, total-replace n cells i c (ground arith)))
]

pub length-le-total : (n : ℕ) (cells : Buckets) (i : ℕ) → i < n → length (cells i) ≤ total n cells
length-le-total n cells i h = omega (arith, total-replace n cells i [] h)

-- The bucket where a key belongs.
abbrev pub home : Map → Key → ℕ
home m k = fnv_1a_64 k % m.capacity

-- The table `m` holds the buckets: their chains share no node, each key stands in its own bucket
-- and once, the size is the number of cells, and no node stands outside them.
pub record IsTable (m : Map) (cells : Buckets) : Type 0 where
  pub width : length m.nodes ≡ m.capacity
  pub some_buckets : 0 < m.capacity
  pub chain : (i : ℕ) → i < m.capacity → Chain m.heap null (get_or m.nodes i null) (cells i)
  pub apart :
      (i j : ℕ) (a : Ptr)
      → i < m.capacity
      → j < m.capacity
      → has a (cells i) ≡ true
      → has a (cells j) ≡ true
      → i ≡ j
  pub once : (i : ℕ) → i < m.capacity → Once (cells i)
  pub placed : (i : ℕ) (k : Key) (v : ℕ) → i < m.capacity → find k (cells i) ≡ some v → home m k ≡ i
  pub counted : total m.capacity cells ≡ m.size
  pub owned : (a : Ptr) → ((i : ℕ) → i < m.capacity → has a (cells i) ≡ false) → m.heap a ≡ none

-- The value that the table maps a key to.
unfoldable pub view : Map → Buckets → Key → Option ℕ
view m cells k = find k (cells (home m k))

-- A new chain for bucket `i` of a table.
pub record Change (m : Map) (cells : Buckets) (i : ℕ) (g : Heap Node) (root : Ptr) (c : Cells)
    (size : ℕ) : Type 0 where
  pub inside : i < m.capacity
  pub chain : Chain g null root c
  pub same : (a : Ptr) → has a (cells i) ≡ false → has a c ≡ false → g a ≡ m.heap a
  pub comes : (a : Ptr) → has a c ≡ true → (has a (cells i) ≡ true) ⊎ (m.heap a ≡ none)
  pub freed : (a : Ptr) → has a (cells i) ≡ true → has a c ≡ false → g a ≡ none
  pub once : Once c
  pub placed : (k : Key) (v : ℕ) → find k c ≡ some v → home m k ≡ i
  pub counted : size + length (cells i) ≡ m.size + length c

abbrev pub changed : Map → ℕ → Heap Node → Ptr → ℕ → Map
changed m i g root size = record m { heap = g; nodes = set m.nodes i root; size = size }

==_self : (n : ℕ) → (n == n) ≡ true
==_self n = ground arith

module _ {m : Map} {cells : Buckets} {i size : ℕ} {g : Heap Node} {root : Ptr} {c : Cells}
    (t : IsTable m cells) (x : Change m cells i g root c size) where
  -- A node of another bucket is neither in the old nor in the new chain.
  elsewhere :
      (j : ℕ) (a : Ptr)
      → j < m.capacity
      → (j == i) ≡ false
      → has a (cells j) ≡ true
      → (has a (cells i) ≡ false) × (has a c ≡ false)
  elsewhere j a h ne there =
      let old : has a (cells i) ≡ false = elim (Bool-cases (has a (cells i))) [
        | inl here ↦
            absurd (true≢false (sym ((==_iff j i).1 (t.apart j i a h x.inside there here)) ∙ ne))
        | inr out ↦ out
      ] in
      (
        old,
        elim (Bool-cases (has a c)) [
          | inl new ↦ elim (x.comes a new) [
            | inl here ↦ absurd (true≢false (sym here ∙ old))
            | inr unused ↦ absurd (true≢false (sym there ∙ fresh_out a (t.chain j h) unused))
          ]
          | inr out ↦ out
        ],
      )

  Chain-at :
      (j : ℕ)
      → j < m.capacity
      → Chain g null (get_or (set m.nodes i root) j null) (replace cells i c j)
  Chain-at j h = elim (Bool-cases (j == i)) [
    | inl e ↦
        let same : j ≡ i = (==_iff j i).0 e in
        let inside : i < length m.nodes = omega (arith, x.inside, t.width) in
        rw (e, same, get_or-set_self m.nodes i root null inside) x.chain
    | inr e ↦
        rw (e, get_or-set_ne m.nodes i j root null (ground arith))
          (frame (t.chain j h)
            λ a there. let (old, new) = elsewhere j a h e there in x.same a old new)
  ]

  apart_at :
      (j k : ℕ) (a : Ptr)
      → j < m.capacity
      → k < m.capacity
      → has a (replace cells i c j) ≡ true
      → has a (replace cells i c k) ≡ true
      → j ≡ k
  apart_at j k a hj hk there there' = elim (Bool-cases (j == i)) [
    | inl e ↦ elim (Bool-cases (k == i)) [
      | inl e' ↦ (==_iff j i).0 e ∙ sym ((==_iff k i).0 e')
      | inr e' ↦
          absurd (true≢false (sym (rw e at there) ∙ (elsewhere k a hk e' (rw e' at there')).1))
    ]
    | inr e ↦ elim (Bool-cases (k == i)) [
      | inl e' ↦
          absurd (true≢false (sym (rw e' at there') ∙ (elsewhere j a hj e (rw e at there)).1))
      | inr e' ↦ t.apart j k a hj hk (rw e at there) (rw e' at there')
    ]
  ]

  owned_at :
      (a : Ptr) → ((j : ℕ) → j < m.capacity → has a (replace cells i c j) ≡ false) → g a ≡ none
  owned_at a out =
      let new : has a c ≡ false = rw (==_self i) at (out i x.inside) in
      elim (Bool-cases (has a (cells i))) [
        | inl here ↦ x.freed a here new
        | inr old ↦ x.same a old new ∙ t.owned a (out_before old)
      ]
    where
      out_before : has a (cells i) ≡ false → (j : ℕ) → j < m.capacity → has a (cells j) ≡ false
      out_before old j h = elim (Bool-cases (j == i)) [
        | inl e ↦ rw ((==_iff j i).0 e) old
        | inr e ↦ rw e at (out j h)
      ]

  pub change-IsTable : IsTable (changed m i g root size) (replace cells i c)
  change-IsTable = record {
    width = length-set m.nodes i root ∙ t.width;
    some_buckets = t.some_buckets;
    chain = Chain-at;
    apart = apart_at;
    once = λ j h. elim (Bool-cases (j == i)) [ inl e ↦ rw e x.once | inr e ↦ rw e (t.once j h) ];
    placed = λ j k v h found. elim (Bool-cases (j == i)) [
      | inl e ↦ x.placed k v (rw e at found) ∙ sym ((==_iff j i).0 e)
      | inr e ↦ t.placed j k v h (rw e at found)
    ];
    counted = omega (arith, total-replace m.capacity cells i c x.inside, x.counted, t.counted);
    owned = owned_at;
  }

  -- What the change does to the map: nothing to the keys of other buckets.
  pub view-change :
      (k q : Key) (v : Option ℕ)
      → home m k ≡ i
      → ((q : Key) → find q c ≡ (if same_key k q then v else find q (cells i)))
      → view (changed m i g root size) (replace cells i c) q
        ≡ (if same_key k q then v else view m cells q)
  unfolding view
  view-change k q v at_home finds = elim (Bool-cases (home m q == i)) [
    | inl e ↦ rw (e, finds q, (==_iff (home m q) i).0 e)
    | inr e ↦ rw e (elim (Key-cases k q) [
      | inl (same, eq) ↦
          absurd (true≢false (sym ((==_iff (home m q) i).1 (ap (home m) (sym eq) ∙ at_home)) ∙ e))
      | inr differ ↦ rw differ
    ])
  ]
