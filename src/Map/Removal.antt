-- ===== src/Map/Removal.antt =====
-- `TecMap_remove` against the map that the table stands for.
use mathlib.Core.Bool.{true≢false}
use tecc.Base.{
  ℕ, ◌+◌, ◌-◌, ◌≡◌, inl, inr, refl, sym, ap, ◌∙◌, true, false, Option, none, some, List, [], ◌∷◌,
  arith, ◌==◌, Bool-cases, get_or, set-get_or,
}
use tecc.Base.Heap.{Ptr, null, Heap, put, Holds, load_lem, put_self}
use tecc.Base.Run.{ok, Returns}
use tecc.Map.Defs.{Key, Node, Map, drop_root, unlink, remove_node, remove}
use tecc.Map.Cells.{
  Cells, has, addr, find, erase, Key-cases, has-erase, find-erase, Once-erase, length-erase,
}
use tecc.Map.Chain.{node, SameOutside, Chain, nil, cons, node, absent_lem}
use tecc.Map.Links.{Dropped, drop-Dropped, unlink-Unlinked}
use tecc.Map.Table.{Buckets, home, IsTable, view, Change, changed}
use tecc.Map.Methods.{
  or_null, count, slot_lem, home-lt, bucket, root, bucket-Chain, bucket_size, find_here, Writes,
  Change-Writes, placed_with,
}

-- The node with the key is taken out of bucket `i`, whose root is `r`, and freed.
record Removed (m : Map) (k : Key) (i : ℕ) (r : Ptr) (cs : Cells) : Type 0 where
  pub target : Node
  pub there : Holds m.heap (addr k cs) target
  pub found : find k cs ≡ some target.value
  pub heap : Heap Node
  pub new_root : Ptr
  pub run :
      remove_node m (addr k cs) target i ≡ ok (target.value, changed m i heap new_root (m.size - 1))
  pub chain : Chain heap null new_root (erase k cs)
  pub same : SameOutside cs m.heap heap
  pub freed : heap (addr k cs) ≡ none

drop_root_lem :
    (m : Map) {p q : Ptr} {cs : Cells} (k : Key) (v i : ℕ)
    → (d : Dropped m.heap p q cs)
    → drop_root m p (node k v null q) i ≡ ok (changed m i (put d.linked_heap p none) q (m.size - 1))
unfolding drop_root
drop_root_lem m k v i d = rw (d.linked, d.freed)

removed_root_lem :
    (m : Map) {p q : Ptr} {cs : Cells} (k : Key) (v i : ℕ)
    → (d : Dropped m.heap p q cs)
    → remove_node m p (node k v null q) i
      ≡ ok (v, changed m i (put d.linked_heap p none) q (m.size - 1))
unfolding remove_node
removed_root_lem m k v i d = rw (drop_root_lem m k v i d)

-- A node behind the root leaves the root where it is.
unlinked_lem :
    (m : Map) (p : Ptr) (n : Node) {g : Heap Node} {r : Ptr} (i : ℕ)
    → (n.prev == null) ≡ false
    → unlink m.heap p n ≡ ok g
    → get_or m.nodes i null ≡ r
    → remove_node m p n i ≡ ok (n.value, changed m i g r (m.size - 1))
unfolding remove_node
unlinked_lem m p n {g} i behind run at_root =
    rw (behind, run, sym at_root)
      (ap (λ (ns : List Ptr). ok (n.value, record m { heap = g; nodes = ns; size = m.size - 1 }))
        (sym (set-get_or m.nodes i null)))

removed_lem :
    (m : Map) (k : Key) (i : ℕ) {r : Ptr} {cs : Cells}
    → get_or m.nodes i null ≡ r
    → Chain m.heap null r cs
    → (addr k cs == null) ≡ false
    → Removed m k i r cs
unfolding addr find erase has
removed_lem m k i at_root (nil e) some_place = absurd (true≢false some_place)
removed_lem m k i at_root (cons {p} {q} {k = j} {v = v} {cs} here out rest) some_place =
    elim (Key-cases j k) [
      | inl (e, same) ↦
          let d = drop-Dropped here out rest in
          record {
            target = node j v null q;
            there = rw e here;
            found = rw e;
            heap = put d.linked_heap p none;
            new_root = q;
            run = rw e (removed_root_lem m j v i d);
            chain = rw e d.chain;
            same = λ a o. d.same a (ground arith) (ground arith);
            freed = rw e (put_self d.linked_heap p none);
          }
      | inr e ↦
          let u = unlink-Unlinked k here out rest (rw e at some_place) in
          record {
            target = u.target;
            there = rw e u.there;
            found = rw e u.found;
            heap = u.heap;
            new_root = p;
            run = rw e (unlinked_lem m (addr k cs) u.target i u.behind u.run at_root);
            chain = rw e u.chain;
            same = u.same;
            freed = rw e u.freed;
          }
    ]

-- Only the address of the node with the key is lost.
erased-addr :
    (a : Ptr) (k : Key) (cs : Cells) → has a cs ≡ true → has a (erase k cs) ≡ false → a ≡ addr k cs
unfolding has erase addr
erased-addr a k [] there gone = cc
erased-addr a k ((p, j, w) ∷ cs) there gone = ground (arith, erased-addr a k cs)

module _ {m : Map} {cells : Buckets} (t : IsTable m cells) (k : Key) where
  module _ (x : Removed m k (home m k) (root t k) (cells (home m k))) where
    removed-Change :
        Change m cells (home m k) x.heap x.new_root (erase k (cells (home m k))) (m.size - 1)
    removed-Change =
        let cs = cells (home m k) in
        record {
          inside = home-lt k t;
          chain = x.chain;
          same = λ a old new. x.same a old;
          comes = λ a new. elim (Bool-cases (has a cs)) [
            | inl old ↦ inl old
            | inr out ↦ absurd (true≢false (sym new ∙ has-erase a k cs out))
          ];
          freed = λ a old new. ap x.heap (erased-addr a k cs old new) ∙ x.freed;
          once = Once-erase k cs (t.once (home m k) (home-lt k t));
          placed =
              placed_with t k none (erase k cs)
                (λ q. find-erase k q cs (t.once (home m k) (home-lt k t)));
          counted = omega (arith, length-erase k cs x.target.value x.found, bucket_size t k);
        }

    remove_steps :
        (r : ℕ × Map)
        → remove_node m (addr k (bucket t k)) x.target (home m k) ≡ ok r
        → remove m k ≡ ok r
    unfolding remove
    remove_steps r run = rw (slot_lem k t, find_here t k, x.there.not_null, load_lem x.there) run

    remove-there : Returns (remove m k) (Writes m cells k none)
    unfolding view
    remove-there =
        let once = t.once (home m k) (home-lt k t) in
        (
          (or_null (view m cells k), changed m (home m k) x.heap x.new_root (m.size - 1)),
          remove_steps _ x.run
              ∙ ap
                  (λ (o : Option ℕ).
                    ok (or_null o, changed m (home m k) x.heap x.new_root (m.size - 1)))
                  (sym x.found),
          Change-Writes t k none x.heap x.new_root (erase k (bucket t k)) (m.size - 1)
              removed-Change (λ q. find-erase k q (bucket t k) once)
              (ap (λ (o : Option ℕ). m.size - 1 + count o) x.found
                ∙ omega
                    (arith, length-erase k (bucket t k) x.target.value x.found, bucket_size t k)),
        )

  -- With no node for the key the table stays.
  remove-absent :
      (addr k (cells (home m k)) == null) ≡ true → Returns (remove m k) (Writes m cells k none)
  unfolding remove view
  remove-absent no_place =
      let absent = absent_lem k (bucket-Chain t k) no_place in
      (
        (null, m),
        rw (slot_lem k t, find_here t k, no_place),
        record {
          returned = ap or_null (sym absent);
          buckets = cells;
          table = t;
          reads =
              λ q. elim (Key-cases k q) [ inl (e, same) ↦ rw (e, sym same, absent) | inr e ↦ rw e ];
          size = ap (λ (o : Option ℕ). m.size + count o) absent;
          same_capacity = refl;
        },
      )

-- `TecMap_remove` of a well-formed table ends and does not fault. The key is in the map no more and
-- the other keys map to what they did, the value the key had or NULL is returned, the table stays
-- well formed, and the size counts the keys.
pub remove-Writes :
    {m : Map} {cells : Buckets} (k : Key)
    → IsTable m cells
    → Returns (remove m k) (Writes m cells k none)
remove-Writes {m} {cells} k t = elim (Bool-cases (addr k (cells (home m k)) == null)) [
  | inl e ↦ remove-absent t k e
  | inr e ↦ remove-there t k (removed_lem m k (home m k) refl (bucket-Chain t k) e)
]
