-- ===== src/Map/Methods.antt =====
-- `TecMap_get` against the map that the table stands for.
use tecc.Base.{
  ℕ, zero, suc, ◌+◌, ◌≤◌, ◌<◌, ◌≡◌, ◌⊎◌, inl, inr, refl, sym, ap, ◌∙◌, true, false, Option, none,
  some, List, [], ◌∷◌, arith, ◌==◌, if◌then◌else◌, Bool-cases, length, get_or, set-get_or,
}
use tecc.Base.Heap.{Ptr, null, Heap, Holds, load_lem}
use tecc.Base.Run.{ok}
use tecc.Map.Defs.{Key, Node, Map, same_key, slot, root_at, find_node, get}
use tecc.Map.Cells.{Cells, addr, find, Key-cases}
use tecc.Map.Chain.{Chain, nil, cons, node, find_in_bucket_lem, found_lem, absent_lem}
use tecc.Map.Table.{
  Buckets, replace, home, IsTable, view, Change, changed, change-IsTable, view-change,
  length-le-total,
}

-- A pointer that is NULL where there is nothing.
abbrev pub or_null : Option ℕ → ℕ
or_null none = null
or_null (some v) = v

abbrev pub count : Option ℕ → ℕ
count none = 0
count (some v) = 1

pub root_at_lem : (ps : List Ptr) (i : ℕ) → i < length ps → root_at ps i ≡ ok (get_or ps i null)
unfolding root_at
root_at_lem [] i h = absurd (omega arith)
root_at_lem (p ∷ ps) zero h = refl
root_at_lem (p ∷ ps) (suc i) h = root_at_lem ps i (omega arith)

pub slot_lem : {m : Map} {cells : Buckets} (k : Key) → IsTable m cells → slot m k ≡ ok (home m k)
unfolding slot
slot_lem {m} k t =
    let nonzero : (m.capacity == 0) ≡ false = ground (arith, t.some_buckets) in rw nonzero

pub home-lt : {m : Map} {cells : Buckets} (k : Key) → IsTable m cells → home m k < m.capacity
home-lt k t = let pos = t.some_buckets in omega arith

find_root :
    (m : Map) (k : Key) (i : ℕ) (p : Ptr) (cs : Cells)
    → root_at m.nodes i ≡ ok p
    → Chain m.heap null p cs
    → length cs ≤ m.size
    → find_node m k i ≡ ok (addr k cs)
unfolding find_node addr
find_root m k i p cs at_root (nil e) small = rw (at_root, e)
find_root m k i p cs at_root (cons {k = j} here out rest) small =
    rw (at_root, here.not_null, load_lem here)
      (elim (Bool-cases (same_key j k)) [
        | inl e ↦ rw e
        | inr e ↦ rw e (find_in_bucket_lem (suc m.size) k rest (omega arith))
      ])

module _ {m : Map} {cells : Buckets} (t : IsTable m cells) (k : Key) where
  abbrev pub bucket : Cells
  bucket = cells (home m k)

  abbrev pub root : Ptr
  root = get_or m.nodes (home m k) null

  pub bucket-Chain : Chain m.heap null root bucket
  bucket-Chain = t.chain (home m k) (home-lt k t)

  pub root_here : root_at m.nodes (home m k) ≡ ok root
  root_here = root_at_lem m.nodes (home m k) (omega (arith, home-lt k t, t.width))

  pub bucket_size : length bucket ≤ m.size
  bucket_size = omega (arith, length-le-total m.capacity cells (home m k) (home-lt k t), t.counted)

  pub find_here : find_node m k (home m k) ≡ ok (addr k bucket)
  find_here = find_root m k (home m k) root bucket root_here bucket-Chain bucket_size

  get_steps :
      (p : Ptr) (v : ℕ)
      → find_node m k (home m k) ≡ ok p
      → ((p == null) ≡ true) × (v ≡ null) ⊎ (n : Node) × Holds m.heap p n × (n.value ≡ v)
      → get m k ≡ ok v
  unfolding get
  get_steps p v there (inl (e, z)) = rw (slot_lem k t, there, e, z)
  get_steps p v there (inr (n, holds, e)) =
      rw (slot_lem k t, there, holds.not_null, load_lem holds, e)

  -- `TecMap_get` of a well-formed table returns the value that the table maps the key to, and NULL
  -- if it maps it to none.
  pub get-view : get m k ≡ ok (or_null (view m cells k))
  unfolding view
  get-view = elim (Bool-cases (addr k bucket == null)) [
    | inl e ↦
        get_steps (addr k bucket) _ find_here (inl (e, ap or_null (absent_lem k bucket-Chain e)))
    | inr e ↦
        let f = found_lem k bucket-Chain e in
        get_steps (addr k bucket) _ find_here
          (inr (node k f.value f.prev f.next, f.here, sym (ap or_null f.found)))
  ]

-- A write of `o` at the key `k` that returned `r`: the old value comes back, the table stays well
-- formed, the key maps to `o` and the others to what they did, and the size counts the keys.
pub record Writes (m : Map) (cells : Buckets) (k : Key) (o : Option ℕ) (r : ℕ × Map) : Type 0 where
  pub returned : r.0 ≡ or_null (view m cells k)
  pub buckets : Buckets
  pub table : IsTable r.1 buckets
  pub reads : (q : Key) → view r.1 buckets q ≡ (if same_key k q then o else view m cells q)
  pub size : r.1.size + count (view m cells k) ≡ m.size + count o
  pub same_capacity : r.1.capacity ≡ m.capacity

module _ {m : Map} {cells : Buckets} (t : IsTable m cells) (k : Key) where
  pub Change-Writes :
      (o : Option ℕ) (g : Heap Node) (p : Ptr) (c : Cells) (size : ℕ)
      → Change m cells (home m k) g p c size
      → ((q : Key) → find q c ≡ (if same_key k q then o else find q (cells (home m k))))
      → size + count (view m cells k) ≡ m.size + count o
      → Writes m cells k o (or_null (view m cells k), changed m (home m k) g p size)
  Change-Writes o g p c size x finds counts = record {
    returned = refl;
    buckets = replace cells (home m k) c;
    table = change-IsTable t x;
    reads = λ q. view-change t x k q o refl finds;
    size = counts;
    same_capacity = refl;
  }

  -- A change of the heap alone is a change with the old root.
  pub same_root :
      (g : Heap Node) (size : ℕ)
      → record m { heap = g; size = size }
        ≡ changed m (home m k) g (get_or m.nodes (home m k) null) size
  same_root g size =
      ap (λ (ns : List Ptr). record m { heap = g; nodes = ns; size = size })
        (sym (set-get_or m.nodes (home m k) null))

  -- Keys of a chain at its own place.
  pub placed_with :
      (o : Option ℕ) (c : Cells)
      → ((q : Key) → find q c ≡ (if same_key k q then o else find q (cells (home m k))))
      → (q : Key) (v : ℕ) → find q c ≡ some v
      → home m q ≡ home m k
  placed_with o c finds q v there = elim (Key-cases k q) [
    | inl (e, same) ↦ ap (home m) (sym same)
    | inr e ↦ t.placed (home m k) q v (home-lt k t) (sym (finds q ∙ rw e) ∙ there)
  ]
