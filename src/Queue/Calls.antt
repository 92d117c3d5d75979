-- ===== src/Queue/Calls.antt =====
-- Sequences of calls of a queue by any threads. The mutex of the queue puts them in an order.
use mathlib.Core.Path.{subst}
use tecc.Base.{
  ℕ, ◌<◌, ◌≡◌, refl, sym, ap, ◌∙◌, none, some, List, [], ◌∷◌, ◌++◌, arith, append-nil, append_assoc,
  length,
}
use tecc.Base.Heap.{Ptr, IsFresh}
use tecc.Base.Run.{Run, ok, Returns}
use tecc.Queue.Defs.{Queue, init, push, pop}
use tecc.Queue.Line.{Cells, objects, IsQueue}
use tecc.Queue.Methods.{init_at, push-IsQueue, pop-IsQueue, pop_waits}

-- The calls made since `start`: what was pushed, what was popped, and the queue they lead to. A
-- call of pop that waits is not over, and leaves the queue alone.
pub data Calls (start : Queue) : List ℕ → List ℕ → Queue → Type 0 where
  begin : Calls start [] [] (init start)
  pushed :
      {ins outs : List ℕ} {q q' : Queue} (p : Ptr) (x : ℕ)
      → Calls start ins outs q
      → IsFresh q.heap p
      → push q p x ≡ ok q'
      → Calls start (ins ++ (x ∷ [])) outs q'
  popped :
      {ins outs : List ℕ} {q q' : Queue} (x : ℕ)
      → Calls start ins outs q
      → pop q ≡ ok (some (x, q'))
      → Calls start ins (outs ++ (x ∷ [])) q'

-- The queue holds what was pushed and not yet popped.
pub record Fifo (ins outs : List ℕ) (q : Queue) : Type 0 where
  pub cells : Cells
  pub queue : IsQueue q cells
  pub order : ins ≡ outs ++ objects cells

objects-append :
    (cs : Cells) (p : Ptr) (x : ℕ) → objects (cs ++ ((p, x) ∷ [])) ≡ objects cs ++ (x ∷ [])
objects-append [] p x = refl
objects-append (c ∷ cs) p x = ap (◌∷◌ c.1) (objects-append cs p x)

ok-inj : {A : Type 0} {a b : A} → ok a ≡ ok b → a ≡ b
ok-inj e = cc

-- What a run returned is its result.
returned : {A : Type 0} {P : A → Type 0} {r : Run A} (a : A) → Returns r P → r ≡ ok a → P a
returned {P} a (b, run, holds) e = subst P (ok-inj (sym run ∙ e)) holds

popped_lem :
    (cs : Cells) {q q' : Queue} (x : ℕ)
    → IsQueue q cs
    → pop q ≡ ok (some (x, q'))
    → (cs' : Cells) × IsQueue q' cs' × (objects cs ≡ x ∷ objects cs')
popped_lem [] x t run = let waits = pop_waits t in absurd (none≢some (ok-inj (sym waits ∙ run)))
  where
    none≢some : {c : ℕ × Queue} → none ≡ some c → ⊥
    none≢some e = cc
popped_lem ((p, y) ∷ cs) {q'} x t run =
    let (q'', run', t') = pop-IsQueue t in
    let same : (y, q'') ≡ (x, q') = some-inj (ok-inj (sym run' ∙ run)) in
    (
      cs,
      subst (λ (r : ℕ × Queue). IsQueue r.1 cs) same t',
      ap (λ (r : ℕ × Queue). r.0 ∷ objects cs) same,
    )
  where
    some-inj : {a b : ℕ × Queue} → some a ≡ some b → a ≡ b
    some-inj e = cc

-- Whatever the interleaving of pushes of fresh nodes and pops from a new queue with no node, what
-- was popped, followed by what the queue holds, is what was pushed, in that order: nothing is lost, repeated or overtaken.
pub Calls-Fifo :
    {start : Queue} {ins outs : List ℕ} {q : Queue}
    → ((a : Ptr) → start.heap a ≡ none)
    → Calls start ins outs q
    → Fifo ins outs q
Calls-Fifo unused begin = record { cells = []; queue = init_at _ unused; order = refl }
Calls-Fifo unused (pushed {ins} {outs} {q'} p x calls fresh run) =
    let f = Calls-Fifo unused calls in
    record {
      cells = f.cells ++ ((p, x) ∷ []);
      queue = returned q' (push-IsQueue x f.queue fresh) run;
      order =
          ap (λ (l : List ℕ). l ++ (x ∷ [])) f.order
          ∙ append_assoc outs (objects f.cells) (x ∷ [])
          ∙ ap (λ (l : List ℕ). outs ++ l) (sym (objects-append f.cells p x));
    }
Calls-Fifo unused (popped {ins} {outs} {q'} x calls run) =
    let f = Calls-Fifo unused calls in
    let (cells', t', front) = popped_lem f.cells x f.queue run in
    record {
      cells = cells';
      queue = t';
      order =
          f.order
          ∙ ap (λ (l : List ℕ). outs ++ l) front
          ∙ sym (append_assoc outs (x ∷ []) (objects cells'));
    }

-- From a new queue with no node, while less was popped than pushed, a call of pop does not wait and does not fault, and pops what
-- comes next in the order of the pushes.
pub Calls-pop :
    {start : Queue} {ins outs : List ℕ} {q : Queue}
    → ((a : Ptr) → start.heap a ≡ none)
    → Calls start ins outs q
    → length outs < length ins
    → (x : ℕ) × (rest : List ℕ) × (ins ≡ (outs ++ (x ∷ [])) ++ rest)
      × ((q' : Queue) × (pop q ≡ ok (some (x, q'))))
Calls-pop {ins} {outs} unused calls some_left =
    let f = Calls-Fifo unused calls in next f.cells f.queue f.order
  where
    next :
        {q : Queue} (cs : Cells)
        → IsQueue q cs
        → ins ≡ outs ++ objects cs
        → (x : ℕ) × (rest : List ℕ) × (ins ≡ (outs ++ (x ∷ [])) ++ rest)
          × ((q' : Queue) × (pop q ≡ ok (some (x, q'))))
    next [] t order = let e = ap length (order ∙ append-nil outs) in absurd (omega (arith, e))
    next ((p, x) ∷ cs) t order =
        let (q', run, _) = pop-IsQueue t in
        (x, objects cs, order ∙ sym (append_assoc outs (x ∷ []) (objects cs)), (q', run))
