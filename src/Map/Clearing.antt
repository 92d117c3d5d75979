-- ===== src/Map/Clearing.antt =====
-- `TecMap_init`, `TecMap_clear` and `TecMap_done`: tables without a key.
use mathlib.Core.Bool.{true≢false}
use tecc.Base.{
  ℕ, zero, suc, ◌+◌, ◌-◌, ◌≤◌, ◌<◌, ◌≡◌, inl, inr, refl, sym, ap, ◌∙◌, true, none, some, List, [],
  arith, ◌==◌, if◌then◌else◌, Bool-cases, ==_iff, length, replicate, length-replicate, get_or, set,
  set-get_or,
}
use tecc.Base.Heap.{Ptr, null, Heap, free_lem, load_lem, put_self, put_ne}
use tecc.Base.Run.{Run, ok, ◌>>=◌, Returns}
use tecc.Map.Defs.{
  Key, Node, Map, root_at, delete_bucket, clear_bucket, clear_loop, clear, done, init, default_size,
}
use tecc.Map.Cells.{Cells, has, find}
use tecc.Map.Chain.{SameOutside, frame-put, Chain, nil, cons}
use tecc.Map.Table.{Buckets, replace, total, IsTable, view, change-IsTable, length-le-total}
use tecc.Map.Methods.{root_at_lem}

-- With more fuel than nodes every node of a chain is freed, and nothing else.
delete_bucket_lem :
    (fuel : ℕ) {h : Heap Node} {prev p : Ptr} {cs : Cells}
    → Chain h prev p cs
    → length cs < fuel
    → Returns
        (delete_bucket fuel h p)
        λ g. ((a : Ptr) → has a cs ≡ true → g a ≡ none) × SameOutside cs h g
unfolding delete_bucket has
delete_bucket_lem zero chain enough = absurd (omega arith)
delete_bucket_lem (suc fuel) {h} (nil e) enough =
    (h, rw e, (λ a there. absurd (true≢false (sym there)), λ a out. refl))
delete_bucket_lem (suc fuel) {h} (cons {p} {cs} here out rest) enough =
    let (g, run, (gone, same)) = delete_bucket_lem fuel (frame-put p none rest out) (omega arith) in
    (
      g,
      rw (here.not_null, load_lem here, free_lem here) run,
      (
        λ a there. elim (Bool-cases (a == p)) [
          | inl e ↦ let at : a ≡ p = (==_iff a p).0 e in rw at (same p out ∙ put_self h p none)
          | inr e ↦ gone a (rw e at there)
        ],
        λ a o. same a (ground arith) ∙ put_ne h p none a (ground arith),
      ),
    )

delete_bucket-null :
    (fuel : ℕ) (h : Heap Node) (p : Ptr) → (p == null) ≡ true → delete_bucket (suc fuel) h p ≡ ok h
unfolding delete_bucket
delete_bucket-null fuel h p e = rw e

clear_bucket_steps :
    (fuel i : ℕ) (h g : Heap Node) (nodes : List Ptr)
    → root_at nodes i ≡ ok (get_or nodes i null)
    → delete_bucket (suc fuel) h (get_or nodes i null) ≡ ok g
    → clear_bucket (suc fuel) i h nodes ≡ ok (g, set nodes i null)
unfolding clear_bucket
clear_bucket_steps fuel i h g nodes there run = elim (Bool-cases (get_or nodes i null == null)) [
  | inl e ↦
      let empty : get_or nodes i null ≡ null = (==_iff (get_or nodes i null) null).0 e in
      let same : set nodes i null ≡ nodes =
        ap (set nodes i) (sym empty) ∙ set-get_or nodes i null in
      rw (there, e, same)
        (ap (λ (r : Run (Heap Node)). r >>= λ x. ok (x, nodes))
          (sym (delete_bucket-null fuel h (get_or nodes i null) e) ∙ run))
  | inr e ↦ rw (there, e, run)
]

none≢some : {v : ℕ} → none ≡ some v → ⊥
none≢some e = cc

module _ {m : Map} {cells : Buckets} (t : IsTable m cells) where
  clear_bucket-IsTable :
      (fuel i : ℕ)
      → m.size ≤ fuel
      → i < m.capacity
      → Returns (clear_bucket (suc fuel) i m.heap m.nodes) λ r.
        IsTable
          (record m { heap = r.0; nodes = r.1; size = m.size - length (cells i) })
          (replace cells i [])
  unfolding has find
  clear_bucket-IsTable fuel i small inside =
      let size_le = length-le-total m.capacity cells i inside in
      let (g, run, (gone, same)) =
        delete_bucket_lem (suc fuel) (t.chain i inside) (omega (arith, size_le, t.counted)) in
      (
        (g, set m.nodes i null),
        clear_bucket_steps fuel i m.heap g m.nodes (root_at_lem m.nodes i (omega (arith, t.width)))
            run,
        change-IsTable t (record {
          inside = inside;
          chain = nil refl;
          same = λ a old new. same a old;
          comes = λ a new. absurd (true≢false (sym new));
          freed = λ a old new. gone a old;
          once = tt;
          placed = λ k v e. absurd (none≢some e);
          counted = omega (arith, size_le, t.counted);
        }),
      )

total-empty : (n : ℕ) (cells : Buckets) → ((i : ℕ) → i < n → cells i ≡ []) → total n cells ≡ 0
unfolding total
total-empty zero cells empty = refl
total-empty (suc n) cells empty =
    rw (total-empty n cells (λ i h. empty i (omega arith)), empty n (omega arith))

-- A table whose buckets are empty holds no node at all.
empty-IsTable :
    {m : Map} {cells : Buckets}
    → IsTable m cells
    → ((i : ℕ) → i < m.capacity → cells i ≡ [])
    → IsTable (record m { size = 0 }) (λ _. [])
unfolding has find
empty-IsTable {m} {cells} t empty = record {
  width = t.width;
  some_buckets = t.some_buckets;
  chain = λ i h. rw (sym (empty i h)) (t.chain i h);
  apart = λ i j a hi hj there. absurd (true≢false (sym there));
  once = λ i h. tt;
  placed = λ i k v h e. absurd (none≢some e);
  counted = total-empty m.capacity (λ _. []) (λ i h. refl);
  owned = λ a out. t.owned a (λ i h. rw (empty i h));
}

clear_loop_lem :
    (n i fuel : ℕ) {m : Map} {cells : Buckets}
    → IsTable m cells
    → i + n ≡ m.capacity
    → m.size ≤ fuel
    → ((j : ℕ) → j < i → cells j ≡ [])
    → Returns
        (clear_loop (suc fuel) n i m.heap m.nodes)
        λ r. IsTable (record m { heap = r.0; nodes = r.1; size = 0 }) (λ _. [])
unfolding clear_loop
clear_loop_lem zero i fuel {m} {cells} t at small empty =
    ((m.heap, m.nodes), refl, empty-IsTable t (λ j h. empty j (omega arith)))
clear_loop_lem (suc n) i fuel {m} {cells} t at small empty =
    let (r, run, t') = clear_bucket-IsTable t fuel i small (omega arith) in
    let (r', run', t'') = clear_loop_lem n (suc i) fuel t' (omega arith) (omega arith) (λ j h.
      elim (Bool-cases (j == i)) [ inl e ↦ rw e | inr e ↦ rw e (empty j (ground arith)) ]) in
    (r', rw run run', t'')

-- `TecMap_clear` of a well-formed table ends and does not fault. It leaves a well-formed table of
-- the same capacity with no key and size 0, and every node of the table is freed.
pub clear-IsTable :
    {m : Map} {cells : Buckets}
    → IsTable m cells
    → Returns (clear m) λ m'.
      IsTable m' (λ _. [])
      × ((a : Ptr) → m'.heap a ≡ none)
      × (m'.size ≡ 0)
      × (m'.capacity ≡ m.capacity)
unfolding clear has
clear-IsTable {m} t =
    let (r, run, t') =
      clear_loop_lem m.capacity 0 m.size t (omega arith) (omega arith)
        (λ j h. absurd (omega arith)) in
    (_, rw run, (t', (λ a. t'.owned a (λ i h. refl)), refl, refl))

-- `TecMap_done` of a well-formed table ends, does not fault, and leaves no node allocated, no
-- bucket and capacity 0.
pub done-empty :
    {m : Map} {cells : Buckets}
    → IsTable m cells
    → Returns
        (done m)
        λ m'. ((a : Ptr) → m'.heap a ≡ none) × (m'.nodes ≡ []) × (m'.capacity ≡ 0) × (m'.size ≡ 0)
unfolding done
done-empty t =
    let (m', run, (_, gone, size, _)) = clear-IsTable t in (_, rw run, (gone, refl, refl, size))

get_or-replicate : (n i : ℕ) → get_or (replicate n null) i null ≡ null
get_or-replicate zero i = refl
get_or-replicate (suc n) zero = refl
get_or-replicate (suc n) (suc i) = get_or-replicate n i

-- `TecMap_init` with memory granted and no node allocated makes a well-formed table with no key, of the size asked for
-- or, for 0, of the default size.
pub init-IsTable :
    (m : Map) (size : ℕ)
    → ((a : Ptr) → m.heap a ≡ none)
    → ((init m true size).0 ≡ true)
      × IsTable (init m true size).1 (λ _. [])
      × ((k : Key) → view (init m true size).1 (λ _. []) k ≡ none)
      × ((init m true size).1.size ≡ 0)
      × ((init m true size).1.capacity ≡ (if size == 0 then default_size else size))
unfolding init has find view
init-IsTable m size unused =
    let n = if size == 0 then default_size else size in
    let pos : 0 < n = ground arith in
    (
      refl,
      record {
        width = length-replicate n null;
        some_buckets = pos;
        chain = λ i h. nil (get_or-replicate n i);
        apart = λ i j a hi hj there. absurd (true≢false (sym there));
        once = λ i h. tt;
        placed = λ i k v h e. absurd (none≢some e);
        counted = total-empty n (λ _. []) (λ i h. refl);
        owned = λ a out. unused a;
      },
      (λ k. refl),
      refl,
      refl,
    )
