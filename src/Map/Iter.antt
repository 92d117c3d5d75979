-- ===== src/Map/Iter.antt =====
-- The iterator of tecc_map.c, and the loop over a table that tecc_map.h shows.
use tecc.Base.{ℕ, zero, suc, ◌-◌, Option, none, some, List, [], ◌∷◌, ◌==◌, if◌then◌else◌}
use tecc.Base.Heap.{Ptr, null, load}
use tecc.Base.Run.{Run, ok, out_of_fuel, ◌>>=◌}
use tecc.Map.Defs.{Key, Map, root_at}

-- The table stands beside the iterator, which points to it.
pub record Iter : Type 0 where
  pub pos : ℕ
  pub cur : Ptr

-- The first bucket with a node among the `n` buckets from `pos` on, and its root.
unfoldable pub scan : ℕ → List Ptr → ℕ → Run (Option (ℕ × Ptr))
scan zero nodes pos = ok none
scan (suc n) nodes pos = do
  cur ← root_at nodes pos
  let rest = scan n nodes (suc pos)
  if cur == null then rest else ok (some (pos, cur))

-- The pointer that is returned, NULL at the end, and the iterator.
unfoldable pub stand : Iter → Option (ℕ × Ptr) → Ptr × Iter
stand it none = (null, it)
stand it (some (pos, cur)) = (cur, record { pos = pos; cur = cur })

unfoldable pub begin : Map → Run (Ptr × Iter)
begin m = do found ← scan m.capacity m.nodes 0; ok (stand (record { pos = 0; cur = null }) found)

unfoldable pub next : Map → Iter → Run (Ptr × Iter)
next m it = if it.cur == null then ok (null, it) else do
  n ← load m.heap it.cur
  if n.next == null
      then (scan (m.capacity - suc it.pos) m.nodes (suc it.pos) >>= λ found. ok (stand it found))
      else ok (n.next, record it { cur = n.next })

-- `none` is an iterator without a table.
unfoldable pub rewind : Option Map → Iter → Run (Ptr × Iter)
rewind none it = ok (null, it)
rewind (some m) it = begin m

-- while (p) { use p; p = TecMapIter_next(&iter); }
unfoldable pub visit : ℕ → Map → Ptr × Iter → Run (List (Key × ℕ))
visit zero m r = out_of_fuel
visit (suc fuel) m r = if r.0 == null then ok [] else do
  n ← load m.heap r.0
  r' ← next m r.1
  rest ← visit fuel m r'
  ok ((n.key, n.value) ∷ rest)

-- The loop runs once for each node.
unfoldable pub visit_all : Map → Run (List (Key × ℕ))
visit_all m = begin m >>= λ r. visit (suc m.size) m r
