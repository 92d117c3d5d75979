-- ===== src/Map/Visit.antt =====
-- The iterator visits the pairs of a table, bucket after bucket.
use mathlib.Core.Path.{subst}
use mathlib.Core.Bool.{true≢false}
use tecc.Base.{
  ℕ, zero, suc, ◌+◌, ◌-◌, ◌<◌, ◌≡◌, refl, sym, ap, ◌∙◌, true, false, Option, none, some, [], ◌∷◌,
  ◌++◌, arith, leb, ◌==◌, ==_iff, length, get_or,
}
use tecc.Base.Heap.{Ptr, null, Holds, load_lem}
use tecc.Base.Run.{ok}
use tecc.Map.Defs.{Key, Node, Map, root_at}
use tecc.Map.Cells.{Cells, find}
use tecc.Map.Chain.{node, Chain, nil, cons}
use tecc.Map.Table.{Buckets, home, view, total, IsTable}
use tecc.Map.Methods.{root_at_lem}
use tecc.Map.Pairs.{cells_from, pairs, length-cells_from, find-cells_from}
use tecc.Map.Iter.{Iter, scan, stand, begin, next, visit, visit_all}

-- The iterator stands at a node: the nodes from there on in its bucket are those of `here`.
record At (m : Map) (cells : Buckets) (it : Iter) (todo : Cells) : Type 0 where
  pub here : Cells
  pub prev : Ptr
  pub inside : it.pos < m.capacity
  pub not_null : (it.cur == null) ≡ false
  pub chain : Chain m.heap prev it.cur here
  pub todo_is : todo ≡ here ++ cells_from cells (suc it.pos) (m.capacity - suc it.pos)

-- What begin or next returned, where the cells `todo` are still to visit.
data Step (m : Map) (cells : Buckets) : Cells → Ptr × Iter → Type 0 where
  over : {it : Iter} → Step m cells [] (null, it)
  stands : {it : Iter} {todo : Cells} → At m cells it todo → Step m cells todo (it.cur, it)

-- The first bucket from `i` on that is not empty, if there is one.
record Scanned (m : Map) (cells : Buckets) (i n : ℕ) (it : Iter) : Type 0 where
  pub found : Option (ℕ × Ptr)
  pub run : scan n m.nodes i ≡ ok found
  pub step : Step m cells (cells_from cells i n) (stand it found)

module _ {m : Map} {cells : Buckets} (t : IsTable m cells) where
  scan_lem : (n i : ℕ) (it : Iter) → i + n ≡ m.capacity → Scanned m cells i n it
  unfolding scan stand cells_from
  scan_lem zero i it at = record { found = none; run = refl; step = over }
  scan_lem (suc n) i it at =
      root_case (get_or m.nodes i null) (cells i) refl refl
        (root_at_lem m.nodes i (omega (arith, t.width))) (t.chain i (omega arith))
        (scan_lem n (suc i) it (omega arith))
    where
      root_case :
          (p : Ptr) (cs : Cells)
          → get_or m.nodes i null ≡ p
          → cells i ≡ cs
          → root_at m.nodes i ≡ ok (get_or m.nodes i null)
          → Chain m.heap null p cs
          → Scanned m cells (suc i) n it
          → Scanned m cells i (suc n) it
      root_case p cs e_p e_cs there (nil e) s = record {
        found = s.found;
        run = rw (there ∙ ap ok (e_p ∙ e)) s.run;
        step = rw e_cs s.step;
      }
      root_case p cs e_p e_cs there (cons here out rest) s =
          let behind : n ≡ m.capacity - suc i = omega arith in
          record {
            found = some (i, p);
            run = rw (there ∙ ap ok e_p, here.not_null);
            step = stands (record {
              here = cs;
              prev = null;
              inside = omega arith;
              not_null = here.not_null;
              chain = cons here out rest;
              todo_is =
                  ap (λ (l : Cells). l ++ cells_from cells (suc i) n) e_cs
                  ∙ ap (λ (k : ℕ). cs ++ cells_from cells (suc i) k) behind;
            });
          }

-- The iterator leaves the node of the cell `c`, whose pair it stood at.
record Moved (m : Map) (cells : Buckets) (it : Iter) (c : Ptr × Key × ℕ) (todo : Cells)
    : Type 0 where
  pub left : Node
  pub there : Holds m.heap it.cur left
  pub key_is : left.key ≡ c.1
  pub value_is : left.value ≡ c.2
  pub result : Ptr × Iter
  pub run : next m it ≡ ok result
  pub step : Step m cells todo result

module _ {m : Map} {cells : Buckets} (t : IsTable m cells) where
  next_end :
      (it : Iter) (n : Node) (found : Option (ℕ × Ptr))
      → Holds m.heap it.cur n
      → n.next ≡ null
      → scan (m.capacity - suc it.pos) m.nodes (suc it.pos) ≡ ok found
      → next m it ≡ ok (stand it found)
  unfolding next
  next_end it n found there e run = rw (there.not_null, load_lem there, e, run)

  next_here :
      (it : Iter) (n : Node)
      → Holds m.heap it.cur n
      → (n.next == null) ≡ false
      → next m it ≡ ok (n.next, record it { cur = n.next })
  unfolding next
  next_here it n there e = rw (there.not_null, load_lem there, e)

  tail_of : {c d : Ptr × Key × ℕ} {l l' : Cells} → c ∷ l ≡ d ∷ l' → (c ≡ d) × (l ≡ l')
  tail_of e = (cc, cc)

  next_lem :
      {it : Iter} {c : Ptr × Key × ℕ} {todo : Cells}
      → At m cells it (c ∷ todo)
      → Moved m cells it c todo
  next_lem {it} {c} {todo} x = by_chain x.here x.chain x.todo_is
    where
      by_chain :
          (here : Cells)
          → Chain m.heap x.prev it.cur here
          → c ∷ todo ≡ here ++ cells_from cells (suc it.pos) (m.capacity - suc it.pos)
          → Moved m cells it c todo
      by_chain [] (nil e) order = absurd (true≢false (sym ((==_iff it.cur null).1 e) ∙ x.not_null))
      by_chain ((_, k, v) ∷ []) (cons here out (nil e)) order =
          let (same, behind) = tail_of order in
          let s = scan_lem t (m.capacity - suc it.pos) (suc it.pos) it (omega (arith, x.inside)) in
          record {
            left = node k v x.prev _;
            there = here;
            key_is = ap (λ (d : Ptr × Key × ℕ). d.1) (sym same);
            value_is = ap (λ (d : Ptr × Key × ℕ). d.2) (sym same);
            result = stand it s.found;
            run = next_end it _ s.found here e s.run;
            step = subst (λ (l : Cells). Step m cells l (stand it s.found)) (sym behind) s.step;
          }
      by_chain ((_, k, v) ∷ d ∷ cs) (cons {q} here out (cons here' out' rest)) order =
          let (same, behind) = tail_of order in
          record {
            left = node k v x.prev q;
            there = here;
            key_is = ap (λ (d : Ptr × Key × ℕ). d.1) (sym same);
            value_is = ap (λ (d : Ptr × Key × ℕ). d.2) (sym same);
            result = (q, record it { cur = q });
            run = next_here it _ here here'.not_null;
            step = stands (record {
              here = d ∷ cs;
              prev = it.cur;
              inside = x.inside;
              not_null = here'.not_null;
              chain = cons here' out' rest;
              todo_is = behind;
            });
          }

  -- An iterator at a node has a pair to visit.
  at_lem : {it : Iter} → At m cells it [] → ⊥
  at_lem {it} x = by_chain x.here x.chain x.todo_is
    where
      by_chain :
          (here : Cells)
          → Chain m.heap x.prev it.cur here
          → [] ≡ here ++ cells_from cells (suc it.pos) (m.capacity - suc it.pos)
          → ⊥
      by_chain [] (nil e) order = true≢false (sym ((==_iff it.cur null).1 e) ∙ x.not_null)
      by_chain (c ∷ cs) chain order = cc

  visit_lem :
      (fuel : ℕ) (todo : Cells) {r : Ptr × Iter}
      → Step m cells todo r
      → length todo < fuel
      → visit fuel m r ≡ ok (pairs todo)
  unfolding visit
  visit_lem zero todo step enough = absurd (omega arith)
  visit_lem (suc fuel) [] over enough = refl
  visit_lem (suc fuel) [] (stands x) enough = absurd (at_lem x)
  visit_lem (suc fuel) (c ∷ todo) (stands x) enough =
      let y = next_lem x in
      rw (x.not_null, load_lem y.there, y.run, visit_lem fuel todo y.step (omega arith))
        (ap (λ (k : Key). ok ((k, y.left.value) ∷ pairs todo)) y.key_is
          ∙ ap (λ (v : ℕ). ok ((c.1, v) ∷ pairs todo)) y.value_is)

-- The loop over a well-formed table ends, does not fault, and visits the pairs of all its buckets,
-- in order: as many as the size of the table, and what they say of a key is what the table maps it
-- to.
pub visit_all-pairs :
    {m : Map} {cells : Buckets}
    → IsTable m cells
    → (visit_all m ≡ ok (pairs (cells_from cells 0 m.capacity)))
      × (length (cells_from cells 0 m.capacity) ≡ m.size)
      × ((k : Key) → find k (cells_from cells 0 m.capacity) ≡ view m cells k)
unfolding visit_all begin total
visit_all-pairs {m} {cells} t =
    let count : length (cells_from cells 0 m.capacity) ≡ m.size =
      omega (arith, length-cells_from cells 0 m.capacity m.capacity (omega arith), t.counted) in
    let s = scan_lem t m.capacity 0 (record { pos = 0; cur = null }) (omega arith) in
    (
      rw s.run (visit_lem t (suc m.size) _ s.step (omega (arith, count))),
      count,
      λ k.
          let first : leb 0 (home m k) ≡ true = ground arith in
          find-cells_from k m.capacity 0 t (omega arith) ∙ rw first,
    )
