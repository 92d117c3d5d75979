-- ===== src/Queue/Methods.antt =====
-- `TecQueue_push`, `TecQueue_pop` and `TecQueue_done` against the list that the queue stands for.
use tecc.Base.{
  ℕ, suc, zero, ◌<◌, ◌≡◌, inl, inr, refl, ap, ◌∙◌, true, false, none, some, [], ◌∷◌, ◌++◌, arith,
  ◌==◌, if◌then◌else◌, Bool-cases, ==_iff, length,
}
use tecc.Base.Heap.{
  Ptr, null, Heap, put, Holds, IsFresh, Holds-unique, Holds-put_ne, load_lem, store_lem, free_lem,
  fill_lem, put_ne, put_self,
}
use tecc.Base.Run.{ok, Returns}
use tecc.Queue.Defs.{Node, Queue, init, link_tail, push, pop, free_nodes, done}
use tecc.Queue.Line.{
  Cells, node, owns, Line, empty, single, cons, IsQueue, frame, last_lem, fresh_out, extend,
  owns-ne, head_lem,
}

pub init_at : (q : Queue) → ((a : Ptr) → q.heap a ≡ none) → IsQueue (init q) []
unfolding init owns
init_at q unused = record { line = empty refl refl; owned = λ a out. unused a }

-- A cell at the end is one more owned address.
owns-end :
    (a new : Ptr) (y : ℕ) (cs : Cells)
    → owns a (cs ++ ((new, y) ∷ [])) ≡ false
    → (owns a cs ≡ false) × ((a == new) ≡ false)
unfolding owns
owns-end a new y [] out = (refl, ground arith)
owns-end a new y ((p, x) ∷ cs) out = ground (arith, owns-end a new y cs)

push_empty :
    (q : Queue) {p : Ptr} (x : ℕ)
    → (q.tail == null) ≡ true
    → IsFresh q.heap p
    → push q p x ≡ ok (record { heap = put q.heap p (some (node x null)); head = p; tail = p })
unfolding push link_tail
push_empty q {p} x e fresh = rw (fill_lem q.heap p (node x null) fresh.not_null, e)

push_linked :
    {q : Queue} {p : Ptr} (x z : ℕ)
    → Holds (put q.heap p (some (node x null))) q.tail (node z null)
    → IsFresh q.heap p
    → push q p x
      ≡ ok (record {
        heap = put (put q.heap p (some (node x null))) q.tail (some (node z p));
        head = q.head;
        tail = p;
      })
unfolding push link_tail
push_linked {q} {p} x z there fresh = rw (
  fill_lem q.heap p (node x null) fresh.not_null,
  there.not_null,
  load_lem there,
  store_lem there (node z p),
)

push_lem :
    {h : Heap Node} {head tail p : Ptr} {cs : Cells} (x : ℕ)
    → Line h head tail cs
    → IsFresh h p
    → ((a : Ptr) → owns a cs ≡ false → h a ≡ none)
    → Returns
        (push (record { heap = h; head = head; tail = tail }) p x)
        λ q'. IsQueue q' (cs ++ ((p, x) ∷ []))
unfolding owns
push_lem {h} {head} {tail} {p} {cs = []} x (empty e e') fresh owned = (
  _,
  push_empty _ x ((==_iff tail null).1 e') fresh,
  record {
    line = single (record { not_null = fresh.not_null; holds = put_self h p _ });
    owned = λ a out. put_ne h p _ a (ground arith) ∙ owned a refl;
  },
)
push_lem {h} {head} {tail} {p} {cs = c ∷ cs} x line fresh owned =
    let (z, last, inside) = last_lem line in
    let out = fresh_out p line fresh.unused in
    let made = some (node x null) in
    let ne = owns-ne tail p (c ∷ cs) inside out in
    let there = Holds-put_ne p made last ne in
    let linked = some (node z p) in
    (
      _,
      push_linked x z there fresh,
      record {
        line =
            extend line
              (Holds-put_ne tail linked
                (record { not_null = fresh.not_null; holds = put_self h p made }) (ground arith))
              out
              (λ z' last'.
                put_self (put h p made) tail linked
                ∙ ap (λ (n : Node). some (record n { next = p })) (Holds-unique last last'))
              (λ a i differ.
                put_ne (put h p made) tail linked a differ
                ∙ put_ne h p made a (owns-ne a p (c ∷ cs) i out));
        owned = λ a o.
            let (o', differ) = owns-end a p x (c ∷ cs) o in
            put_ne (put h p made) tail linked a
              (let differ' = owns-ne tail a (c ∷ cs) inside o' in ground arith)
            ∙ put_ne h p made a differ
            ∙ owned a o';
      },
    )

-- `TecQueue_push` of a fresh node ends, does not fault, and puts the object behind the others.
pub push-IsQueue :
    {q : Queue} {p : Ptr} {cs : Cells} (x : ℕ)
    → IsQueue q cs
    → IsFresh q.heap p
    → Returns (push q p x) λ q'. IsQueue q' (cs ++ ((p, x) ∷ []))
push-IsQueue x t fresh = push_lem x t.line fresh t.owned

-- Without the node at `p`, which is freed, no node stands outside the others.
freed_owned :
    (h : Heap Node) (p : Ptr) (x : ℕ) (cs : Cells)
    → ((a : Ptr) → owns a ((p, x) ∷ cs) ≡ false → h a ≡ none)
    → (a : Ptr) → owns a cs ≡ false
    → put h p none a ≡ none
unfolding owns
freed_owned h p x cs owned a out = elim (Bool-cases (a == p)) [
  | inl e ↦ rw ((==_iff a p).0 e) (put_self h p none)
  | inr e ↦ put_ne h p none a e ∙ owned a (ground arith)
]

pop_steps :
    (q : Queue) (n : Node)
    → Holds q.heap q.head n
    → pop q
      ≡ ok (
          some (
            n.obj,
            record {
              heap = put q.heap q.head none;
              head = n.next;
              tail = if n.next == null then null else q.tail;
            },
          ))
unfolding pop
pop_steps q n there = rw (there.not_null, load_lem there, free_lem there)

pop_lem :
    {h : Heap Node} {head tail p : Ptr} {x : ℕ} {cs : Cells}
    → Line h head tail ((p, x) ∷ cs)
    → ((a : Ptr) → owns a ((p, x) ∷ cs) ≡ false → h a ≡ none)
    → (q' : Queue) × (pop (record { heap = h; head = head; tail = tail }) ≡ ok (some (x, q')))
      × IsQueue q' cs
unfolding owns
pop_lem {h} {p} {x} (single here) owned = (
  _,
  pop_steps _ (node x null) here,
  record { line = empty refl refl; owned = freed_owned h p x [] owned },
)
pop_lem {h} {tail} {p} {x} (cons {q} {c} {cs} here out rest) owned = (
  record { heap = put h p none; head = q; tail = tail },
  pop_steps _ (node x q) here ∙ rw (head_lem rest),
  record {
    line = frame rest (λ a i. put_ne h p none a (owns-ne a p (c ∷ cs) i out));
    owned = freed_owned h p x (c ∷ cs) owned;
  },
)

-- `TecQueue_pop` of a queue that is not empty does not wait and does not fault: it takes the object
-- at the front, and the others stay in their order.
pub pop-IsQueue :
    {q : Queue} {p : Ptr} {x : ℕ} {cs : Cells}
    → IsQueue q ((p, x) ∷ cs)
    → (q' : Queue) × (pop q ≡ ok (some (x, q'))) × IsQueue q' cs
pop-IsQueue t = pop_lem t.line t.owned

pub pop_waits : {q : Queue} → IsQueue q [] → pop q ≡ ok none
unfolding pop
pop_waits t = waits t.line
  where
    waits :
        {h : Heap Node} {p last : Ptr}
        → Line h p last []
        → pop (record { heap = h; head = p; tail = last }) ≡ ok none
    waits (empty e e') = rw e

free_nodes_lem :
    (fuel : ℕ) {h : Heap Node} {p last : Ptr} {cs : Cells}
    → Line h p last cs
    → length cs < fuel
    → ((a : Ptr) → owns a cs ≡ false → h a ≡ none)
    → Returns (free_nodes fuel h p) λ g. (a : Ptr) → g a ≡ none
unfolding free_nodes owns
free_nodes_lem zero line enough owned = absurd (omega arith)
free_nodes_lem (suc fuel) {h} (empty e e') enough owned = (h, rw e, λ a. owned a refl)
free_nodes_lem (suc fuel) {h} (single {p} {x} here) enough owned =
    let (g, run, gone) =
      free_nodes_lem fuel (empty {last = null} refl refl) (omega arith)
        (freed_owned h p x [] owned) in
    (g, rw (here.not_null, load_lem here, free_lem here) run, gone)
free_nodes_lem (suc fuel) {h} (cons {p} {x} {c} {cs} here out rest) enough owned =
    let rest' = frame rest (λ a i. put_ne h p none a (owns-ne a p (c ∷ cs) i out)) in
    let (g, run, gone) =
      free_nodes_lem fuel rest' (omega arith) (freed_owned h p x (c ∷ cs) owned) in
    (g, rw (here.not_null, load_lem here, free_lem here) run, gone)

-- `TecQueue_done` of a queue with fewer nodes than the fuel ends, does not fault, and frees every
-- node.
pub done-freed :
    (fuel : ℕ) {q : Queue} {cs : Cells}
    → IsQueue q cs
    → length cs < fuel
    → Returns (done fuel q) λ q'. (a : Ptr) → q'.heap a ≡ none
unfolding done
done-freed fuel {q} t enough =
    let (g, run, gone) = free_nodes_lem fuel t.line enough t.owned in
    (record q { heap = g }, rw run, gone)
