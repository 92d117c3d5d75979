-- ===== src/ThreadPool/Running.antt =====
-- The tasks of a thread are run in order, and those of all threads when the pool ends.
use tecc.Base.{
  ℕ, zero, suc, ◌<◌, ◌≡◌, inl, inr, refl, sym, ◌∙◌, true, some, List, [], ◌∷◌, ◌++◌, arith, length,
}
use tecc.Base.Heap.{Ptr, null, Heap, Holds, load_lem}
use tecc.Base.Run.{Run, ok, ◌>>=◌, Run-cases, bind_assoc, bind_cong}
use tecc.Queue.Defs.{Queue, pop}
use tecc.Queue.Line.{Cells, IsQueue}
use tecc.Queue.Methods.{pop-IsQueue}
use tecc.Arena.Defs.{Arena, release}
use tecc.Arena.Pool.{elem, without, at, IsPool}
use tecc.Arena.Releasing.{release-IsPool}
use tecc.ThreadPool.Defs.{Task, TaskNode, Memory, Code, call, perform, taken, turn}
use tecc.ThreadPool.Threads.{proceed, task_loop}

-- The tasks that stand for the objects of a queue: each stands in a slot of the arena that is in
-- use, another one for each.
abbrev pub Lined : Arena → Heap Task → List ℕ → Cells → List Task → Type 0
Lined a h live [] [] = Unit
Lined a h live [] (t ∷ ts) = ⊥
Lined a h live (c ∷ cs) [] = ⊥
Lined a h live ((p, x) ∷ cs) (t ∷ ts) =
    (i : ℕ) × (x ≡ at a i) × (elem i live ≡ true) × Holds h x t × Lined a h (without i live) cs ts

pub Lined-moved :
    (a a' : Arena) (h : Heap Task) (live : List ℕ) (cs : Cells) (ts : List Task)
    → a'.buf ≡ a.buf
    → a'.elem_size ≡ a.elem_size
    → Lined a h live cs ts
    → Lined a' h live cs ts
Lined-moved a a' h live [] [] e e' l = l
Lined-moved a a' h live [] (t ∷ ts) e e' l = absurd l
Lined-moved a a' h live (c ∷ cs) [] e e' l = absurd l
Lined-moved a a' h live ((p, x) ∷ cs) (t ∷ ts) e e' (i, here, inside, there, l) =
    (i, here ∙ sym (rw (e, e')), inside, there, Lined-moved a a' h (without i live) cs ts e e' l)

module _ {World : Type 0} (code : Code World) where
  -- The functions of tasks are called one after the other.
  unfoldable pub run_all : List Task → Memory World → Run (Memory World)
  run_all [] mem = ok mem
  run_all (t ∷ ts) mem = call code t mem >>= λ mem'. run_all ts mem'

  pub turn-null :
      (node : TaskNode) (q : Queue) (mem : Memory World)
      → pop node.q ≡ ok (some (null, q))
      → turn code node mem ≡ ok (some (null, record node { q = q; sig_terminated = true }, mem))
  unfolding turn taken
  turn-null node q mem popped = rw popped

  pub turn_calls :
      (node : TaskNode) (q : Queue) (x : Ptr) (t : Task) (a : Arena) (mem : Memory World)
      → pop node.q ≡ ok (some (x, q))
      → Holds node.tasks x t
      → release node.arena x ≡ ok a
      → turn code node mem
        ≡ (call code t mem >>= λ m. ok (some (x, record node { q = q; arena = a }, m)))
  unfolding turn taken perform
  turn_calls node q x t a mem popped there given =
      rw (popped, there.not_null, load_lem there)
        (elim (Run-cases (call code t mem)) [
          | inl e ↦ rw e
          | inr (inl e) ↦ rw e
          | inr (inr (m, e)) ↦ rw (e, given)
        ])

  null_round :
      (fuel : ℕ) (node : TaskNode) (q : Queue) (mem : Memory World)
      → pop node.q ≡ ok (some (null, q))
      → task_loop (suc fuel) code node mem
        ≡ ok (some (record node { q = q; sig_terminated = true }, mem))
  unfolding task_loop proceed
  null_round fuel node q mem popped = rw (turn-null node q mem popped)

  task_round :
      (fuel : ℕ) (node : TaskNode) (q : Queue) (x : Ptr) (t : Task) (a : Arena) (mem : Memory World)
      → pop node.q ≡ ok (some (x, q))
      → Holds node.tasks x t
      → release node.arena x ≡ ok a
      → task_loop (suc fuel) code node mem
        ≡ (call code t mem >>= λ m. task_loop fuel code (record node { q = q; arena = a }) m)
  unfolding task_loop proceed
  task_round fuel node q x t a mem popped there given =
      rw (turn_calls node q x t a mem popped there given) (elim (Run-cases (call code t mem)) [
        | inl e ↦ rw e
        | inr (inl e) ↦ rw e
        | inr (inr (m, e)) ↦ rw (e, there.not_null)
      ])

  -- What a thread leaves that took NULL.
  pub record Ended (node' : TaskNode) : Type 0 where
    pub empty : IsQueue node'.q []
    pub told : node'.sig_terminated ≡ true
    pub live : List ℕ
    pub frees : List ℕ
    pub pool : IsPool node'.arena live frees

  -- The loop over a queue of tasks with a NULL behind them calls them in order and gives them back.
  pub task_loop_lem :
      (fuel : ℕ) (cells : Cells) (ts : List Task) (n : Ptr) {live frees : List ℕ} (node : TaskNode)
      → IsQueue node.q (cells ++ ((n, null) ∷ []))
      → IsPool node.arena live frees
      → Lined node.arena node.tasks live cells ts
      → length cells < fuel
      → (node' : TaskNode) × Ended node'
        × ((mem : Memory World)
            → task_loop fuel code node mem ≡ (run_all ts mem >>= λ m. ok (some (node', m))))
  unfolding run_all
  task_loop_lem zero cells ts n node line pool l enough = absurd (omega arith)
  task_loop_lem (suc fuel) [] [] n {live} {frees} node line pool l enough =
      let (q, popped, empty) = pop-IsQueue line in
      (
        record node { q = q; sig_terminated = true },
        record { empty = empty; told = refl; live = live; frees = frees; pool = pool },
        λ mem. null_round fuel node q mem popped,
      )
  task_loop_lem (suc fuel) [] (t ∷ ts) n node line pool l enough = absurd l
  task_loop_lem (suc fuel) (c ∷ cells) [] n node line pool l enough = absurd l
  task_loop_lem (suc fuel) ((p, x) ∷ cells) (t ∷ ts) n {live} node line pool
        (i, here, inside, there, l) enough =
      let (q, popped, line') = pop-IsQueue line in
      let (a, given, (frees', pool', same, size)) = release-IsPool i pool inside in
      let node₁ : TaskNode = record node { q = q; arena = a } in
      let given_here : release node.arena x ≡ ok a = rw here given in
      let (node', ended, loop) =
        task_loop_lem fuel cells ts n node₁ line' pool'
          (Lined-moved node.arena a node.tasks (without i live) cells ts same size l)
          (omega arith) in
      (
        node',
        ended,
        λ mem.
            task_round fuel node q x t a mem popped there given_here
            ∙ bind_cong (call code t mem) _ _ loop
            ∙ bind_assoc (call code t mem) (λ m. run_all ts m) (λ m. ok (some (node', m))),
      )
