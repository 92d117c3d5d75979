-- ===== src/Map/Links.antt =====
-- Changes to a bucket's links: a new root, the root removed, a node behind it removed.
use mathlib.Core.Bool.{true≢false}
use tecc.Base.{ℕ, ◌≡◌, inl, inr, ◌∙◌, true, false, none, some, ◌∷◌, arith, ◌==◌}
use tecc.Base.Heap.{
  Ptr, null, Heap, put, free, Holds, IsFresh, load_lem, store_lem, free_lem, fill_lem, Holds-put,
  Holds-put_ne, put_self, put_ne,
}
use tecc.Base.Run.{ok}
use tecc.Map.Defs.{Key, Node, same_key, new_node, set_prev, unlink}
use tecc.Map.Cells.{Cells, has, addr, find, erase, has-erase, Key-cases}
use tecc.Map.Chain.{node, Chain, nil, cons, SameOutside, frame-put, set_prev-Chain, fresh_out}

-- A new node at `q` in front of a chain, which it is linked to.
pub record Pushed (h : Heap Node) (q : Ptr) (k : Key) (v : ℕ) (p : Ptr) (cs : Cells) : Type 0 where
  pub heap : Heap Node
  pub filled : new_node h q k v null p ≡ ok (put h q (some (node k v null p)))
  pub linked : set_prev (put h q (some (node k v null p))) p q ≡ ok heap
  pub chain : Chain heap null q ((q, k, v) ∷ cs)
  pub same : SameOutside ((q, k, v) ∷ cs) h heap

-- The root of a chain is taken out: the next node becomes the root, and the old one is freed.
pub record Dropped (h : Heap Node) (p q : Ptr) (cs : Cells) : Type 0 where
  pub linked_heap : Heap Node
  pub linked : set_prev h q null ≡ ok linked_heap
  pub freed : free linked_heap p ≡ ok (put linked_heap p none)
  pub chain : Chain (put linked_heap p none) null q cs
  pub same : (a : Ptr) → (a == p) ≡ false → has a cs ≡ false → put linked_heap p none a ≡ h a

module _ {h : Heap Node} where
  -- A node moves into a heap that agrees with its own there.
  moved : {g : Heap Node} {p : Ptr} {n : Node} → Holds h p n → g p ≡ h p → Holds g p n
  moved there same = record { not_null = there.not_null; holds = same ∙ there.holds }

  pub push-Pushed :
      {p q : Ptr} {cs : Cells} (k : Key) (v : ℕ)
      → IsFresh h q
      → Chain h null p cs
      → Pushed h q k v p cs
  unfolding new_node has
  push-Pushed {p} {q} {cs} k v fresh chain =
      let out = fresh_out q chain fresh.unused in
      let made = some (node k v null p) in
      let (g, linked, (chain', same)) = set_prev-Chain q (frame-put q made chain out) in
      record {
        heap = g;
        filled = fill_lem h q (node k v null p) fresh.not_null;
        linked = linked;
        chain =
            cons (record { not_null = fresh.not_null; holds = same q out ∙ put_self h q made }) out
              chain';
        same = λ a o. same a (ground arith) ∙ put_ne h q made a (ground arith);
      }

  pub drop-Dropped :
      {p q : Ptr} {cs : Cells} {n : Node}
      → Holds h p n
      → has p cs ≡ false
      → Chain h p q cs
      → Dropped h p q cs
  drop-Dropped {p} here out rest =
      let (g, linked, (chain, same)) = set_prev-Chain null rest in
      record {
        linked_heap = g;
        linked = linked;
        freed = free_lem (moved here (same p out));
        chain = frame-put p none chain out;
        same = λ a ne o. put_ne g p none a ne ∙ same a o;
      }

-- The node with the key is taken out of the cells behind `c`, and freed.
pub record Unlinked (h : Heap Node) (k : Key) (prev c : Ptr) (j : Key) (w : ℕ) (cs : Cells)
    : Type 0 where
  pub target : Node
  pub there : Holds h (addr k cs) target
  pub behind : (target.prev == null) ≡ false
  pub found : find k cs ≡ some target.value
  pub heap : Heap Node
  pub run : unlink h (addr k cs) target ≡ ok heap
  pub chain : Chain heap prev c ((c, j, w) ∷ erase k cs)
  pub same : SameOutside ((c, j, w) ∷ cs) h heap
  pub freed : heap (addr k cs) ≡ none

module _ {h : Heap Node} where
  unlink_next :
      {prev c p q : Ptr} {j i : Key} {w v : ℕ} {cs : Cells} (k : Key)
      → Holds h c (node j w prev p)
      → has c ((p, i, v) ∷ cs) ≡ false
      → Holds h p (node i v c q)
      → has p cs ≡ false
      → Chain h p q cs
      → same_key i k ≡ true
      → Unlinked h k prev c j w ((p, i, v) ∷ cs)
  unfolding unlink addr find erase has
  unlink_next {prev} {c} {p} {q} {j} {i} {w} {v} {cs} k first apart here out rest e =
      let skip = some (node j w prev q) in
      let c_out : has c cs ≡ false = ground arith in
      let c_ne : (c == p) ≡ false = ground arith in
      let c_ne' : (p == c) ≡ false = ground arith in
      let (g, linked, (chain, same)) = set_prev-Chain c (frame-put c skip rest c_out) in
      let here' : Holds g p (node i v c q) = moved (Holds-put_ne c skip here c_ne') (same p out) in
      record {
        target = node i v c q;
        there = rw e here;
        behind = first.not_null;
        found = rw e;
        heap = put g p none;
        run = rw (e, load_lem first, store_lem first (node j w prev q), linked, free_lem here');
        chain = rw e (
            cons
              (Holds-put_ne p none (moved (Holds-put first (node j w prev q)) (same c c_out)) c_ne)
              c_out (frame-put p none chain out));
        same = λ a o.
            put_ne g p none a (ground arith)
            ∙ same a (ground arith)
            ∙ put_ne h c skip a (ground arith);
        freed = rw e (put_self g p none);
      }

  pub unlink-Unlinked :
      (k : Key) {prev c p : Ptr} {j : Key} {w : ℕ} {cs : Cells}
      → Holds h c (node j w prev p)
      → has c cs ≡ false
      → Chain h c p cs
      → (addr k cs == null) ≡ false
      → Unlinked h k prev c j w cs
  unfolding addr find erase has
  unlink-Unlinked k first apart (nil e) some_place = absurd (true≢false some_place)
  unlink-Unlinked k {prev} {c} {j = j} {w} first apart (cons {p} {q} {k = i} {v} {cs} here out rest)
        some_place =
      elim (Key-cases i k) [
        | inl (e, _) ↦ unlink_next k first apart here out rest e
        | inr e ↦
            let u = unlink-Unlinked k here out rest (rw e at some_place) in
            record {
              target = u.target;
              there = rw e u.there;
              behind = u.behind;
              found = rw e u.found;
              heap = u.heap;
              run = rw e u.run;
              chain =
                  rw e (
                    cons (moved first (u.same c apart)) (ground (arith, has-erase c k cs)) u.chain);
              same = λ a o. u.same a (ground arith);
              freed = rw e u.freed;
            }
      ]
