-- ===== src/Map/Writing.antt =====
-- `TecMap_set` against the map that the table stands for.
use mathlib.Core.Bool.{true≢false}
use tecc.Base.{
  ℕ, ◌+◌, ◌≡◌, inl, inr, refl, sym, ap, ◌∙◌, true, false, Option, none, some, ◌∷◌, arith, ◌==◌,
  if◌then◌else◌, Bool-cases, ==_iff, get_or,
}
use tecc.Base.Heap.{Ptr, null, Heap, put, Holds, IsFresh, load_lem, store_lem, put_ne}
use tecc.Base.Run.{ok, Returns}
use tecc.Map.Defs.{Key, Node, Map, same_key, find_node, change_value, add_root, put_value}
use tecc.Map.Cells.{
  has, addr, find, assign, has-assign, has-addr, has-ne', find-assign, Once-assign, length-assign,
}
use tecc.Map.Chain.{node, Found, found_lem, absent_lem, assign-Chain}
use tecc.Map.Links.{Pushed, push-Pushed}
use tecc.Map.Table.{Buckets, home, IsTable, view, Change, changed}
use tecc.Map.Methods.{
  or_null, count, slot_lem, home-lt, bucket, root, bucket-Chain, root_here, find_here, Writes,
  Change-Writes, same_root, placed_with,
}

module _ {m : Map} {cells : Buckets} (t : IsTable m cells) (k : Key) where
  module _ (v : ℕ) (f : Found m.heap k (cells (home m k))) where
    abbrev found_at : Ptr
    found_at = addr k (cells (home m k))

    abbrev written : Heap Node
    written = put m.heap found_at (some (node k v f.prev f.next))

    assigned :
        (q : Key)
        → find q (assign k v (cells (home m k)))
          ≡ (if same_key k q then some v else find q (cells (home m k)))
    assigned q = find-assign k q v f.value (cells (home m k)) f.found

    written-Change :
        Change m cells
          (home m k)
          written
          (get_or m.nodes (home m k) null)
          (assign k v (cells (home m k)))
          m.size
    written-Change =
        let cs = cells (home m k) in
        record {
          inside = home-lt k t;
          chain = assign-Chain k v (node k f.value f.prev f.next) (bucket-Chain t k) f.here;
          same = λ a old new.
              put_ne m.heap found_at _ a
                (has-ne' a found_at cs old (has-addr k cs f.here.not_null));
          comes = λ a new. inl (sym (has-assign a k v cs) ∙ new);
          freed = λ a old new. absurd (true≢false (sym old ∙ sym (has-assign a k v cs) ∙ new));
          once = Once-assign k v f.value cs f.found (t.once (home m k) (home-lt k t));
          placed = placed_with t k (some v) _ assigned;
          counted = omega (arith, length-assign k v cs);
        }

  put_changes :
      (p found : Ptr) (v : ℕ) (r : ℕ × Map)
      → find_node m k (home m k) ≡ ok found
      → (found == null) ≡ false
      → change_value m found v ≡ ok r
      → put_value m p k v ≡ ok r
  unfolding put_value
  put_changes p found v r there some_place run = rw (slot_lem k t, there, some_place) run

  put_adds :
      (p found : Ptr) (v : ℕ) (r : ℕ × Map)
      → find_node m k (home m k) ≡ ok found
      → (found == null) ≡ true
      → add_root m p (home m k) k v ≡ ok r
      → put_value m p k v ≡ ok r
  unfolding put_value
  put_adds p found v r there no_place run = rw (slot_lem k t, there, no_place) run

  change_value_lem :
      (p : Ptr) (n : Node) (v : ℕ)
      → Holds m.heap p n
      → change_value m p v
        ≡ ok (n.value, record m { heap = put m.heap p (some (record n { value = v })) })
  unfolding change_value
  change_value_lem p n v holds = rw (load_lem holds, store_lem holds (record n { value = v }))

  put-old :
      (p : Ptr) (v : ℕ)
      → Found m.heap k (cells (home m k))
      → Returns (put_value m p k v) (Writes m cells k (some v))
  unfolding view
  put-old p v f =
      let g = written v f in
      (
        (or_null (view m cells k), changed m (home m k) g (root t k) m.size),
        put_changes p (found_at v f) v _ (find_here t k) f.here.not_null (
            change_value_lem _ (node k f.value f.prev f.next) v f.here
            ∙ ap ok (ap (λ (o : Option ℕ). (or_null o, record m { heap = g })) (sym f.found))
            ∙ ap (λ (r : Map). ok (or_null (view m cells k), r)) (same_root t k g m.size)),
        Change-Writes t k (some v) g (root t k) (assign k v (bucket t k)) m.size
            (written-Change v f) (assigned v f) (ap (λ (o : Option ℕ). m.size + count o) f.found),
      )

  module _ {p : Ptr} (v : ℕ) (fresh : IsFresh m.heap p) (absent : find k (cells (home m k)) ≡ none)
      (u : Pushed m.heap p k v (root t k) (cells (home m k))) where
    added :
        (q : Key)
        → find q ((p, k, v) ∷ cells (home m k))
          ≡ (if same_key k q then some v else find q (cells (home m k)))
    unfolding find
    added q = refl

    added-Change : Change m cells (home m k) u.heap p ((p, k, v) ∷ cells (home m k)) (m.size + 1)
    unfolding has
    added-Change = record {
      inside = home-lt k t;
      chain = u.chain;
      same = λ a old new. u.same a new;
      comes = λ a new. elim (Bool-cases (a == p)) [
        | inl e ↦ inr (ap m.heap ((==_iff a p).0 e) ∙ fresh.unused)
        | inr e ↦ inl (rw e at new)
      ];
      freed = λ a old new. absurd (true≢false (sym old ∙ (ground (arith, new))));
      once = (absent, t.once (home m k) (home-lt k t));
      placed = placed_with t k (some v) ((p, k, v) ∷ cells (home m k)) added;
      counted = omega arith;
    }

  add_root_lem :
      {p : Ptr} (v : ℕ)
      → (u : Pushed m.heap p k v (root t k) (cells (home m k)))
      → add_root m p (home m k) k v ≡ ok (null, changed m (home m k) u.heap p (m.size + 1))
  unfolding add_root
  add_root_lem v u = rw (root_here t k, u.filled, u.linked)

  put-new :
      (p : Ptr) (v : ℕ)
      → IsFresh m.heap p
      → (addr k (cells (home m k)) == null) ≡ true
      → Returns (put_value m p k v) (Writes m cells k (some v))
  unfolding view
  put-new p v fresh no_place =
      let u = push-Pushed k v fresh (bucket-Chain t k) in
      let absent = absent_lem k (bucket-Chain t k) no_place in
      (
        (or_null (view m cells k), changed m (home m k) u.heap p (m.size + 1)),
        put_adds p _ v _ (find_here t k) no_place (
            add_root_lem v u
            ∙ ap (λ (o : Option ℕ). ok (or_null o, changed m (home m k) u.heap p (m.size + 1)))
                (sym absent)),
        Change-Writes t k (some v) u.heap p ((p, k, v) ∷ bucket t k) (m.size + 1)
            (added-Change v fresh absent u) (added v fresh absent u)
            (ap (λ (o : Option ℕ). m.size + 1 + count o) absent ∙ omega arith),
      )

-- `TecMap_set` of a well-formed table, with a fresh node from `malloc` for a new key, ends and does
-- not fault. It maps the key to the value and leaves the other keys alone, returns the value the
-- key had or NULL, keeps the table well formed, and the size counts the keys.
pub put_value-Writes :
    {m : Map} {cells : Buckets} {p : Ptr} (k : Key) (v : ℕ)
    → IsTable m cells
    → IsFresh m.heap p
    → Returns (put_value m p k v) (Writes m cells k (some v))
put_value-Writes {m} {cells} {p} k v t fresh =
    elim (Bool-cases (addr k (cells (home m k)) == null)) [
      | inl e ↦ put-new t k p v fresh e
      | inr e ↦ put-old t k p v (found_lem k (bucket-Chain t k) e)
    ]
