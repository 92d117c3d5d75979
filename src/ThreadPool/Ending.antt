-- ===== src/ThreadPool/Ending.antt =====
-- `TecThrPool_done`: the tasks that wait are run before the pool ends.
use tecc.Base.{
  if_true, if_false, ℕ, ◌<◌, ◌≡◌, ◌⊎◌, inl, inr, refl, sym, ap, ◌∙◌, true, false, none, some, List,
  [], ◌∷◌, ◌++◌, arith, length,
}
use tecc.Base.Heap.{Ptr, null, IsFresh}
use tecc.Base.Run.{Run, ok, ◌>>=◌, Run-cases, bind_assoc, bind_cong}
use tecc.Queue.Defs.{Queue, push}
use tecc.Queue.Defs as QueueDefs
use tecc.Queue.Line.{Cells, IsQueue}
use tecc.Queue.Methods.{push-IsQueue, done-freed}
use tecc.Arena.Defs as ArenaDefs
use tecc.Arena.Pool.{IsPool}
use tecc.ThreadPool.Defs.{Task, TaskNode, Pool, Memory, Code, call}
use tecc.ThreadPool.Threads.{
  task_loop, stop_thread, clear_node, then_clear, node_done, nodes_done, done,
}
use tecc.ThreadPool.Running.{Lined, run_all, task_loop_lem}

-- A thread that was created and has the tasks `ts` in its queue. `n` is what malloc returns for the
-- NULL that ends it.
pub record Serves (fuel : ℕ) (n : Ptr) (node : TaskNode) (ts : List Task) : Type 0 where
  pub joinable : node.joinable ≡ true
  pub cells : Cells
  pub live : List ℕ
  pub frees : List ℕ
  pub line : IsQueue node.q cells
  pub fresh : IsFresh node.q.heap n
  pub pool : IsPool node.arena live frees
  pub tasks : Lined node.arena node.tasks live cells ts
  pub enough : length cells < fuel

-- A thread that was not created, with whatever in its queue.
pub record IsIdle (fuel : ℕ) (node : TaskNode) : Type 0 where
  pub joinable : node.joinable ≡ false
  pub cells : Cells
  pub line : IsQueue node.q cells
  pub enough : length cells < fuel

-- The tasks of each thread, none for those that were not created.
abbrev pub AllReady : ℕ → List Ptr → List TaskNode → List (List Task) → Type 0
AllReady fuel ns [] [] = Unit
AllReady fuel ns [] (ts ∷ tss) = ⊥
AllReady fuel ns (node ∷ nodes) [] = ⊥
AllReady fuel [] (node ∷ nodes) (ts ∷ tss) = ⊥
AllReady fuel (n ∷ ns) (node ∷ nodes) (ts ∷ tss) =
    (Serves fuel n node ts ⊎ (IsIdle fuel node × (ts ≡ []))) × AllReady fuel ns nodes tss

abbrev pub all_tasks : List (List Task) → List Task
all_tasks [] = []
all_tasks (ts ∷ tss) = ts ++ all_tasks tss

clear_steps :
    (fuel : ℕ) (node : TaskNode) (q : Queue)
    → QueueDefs.done fuel node.q ≡ ok q
    → (node' : TaskNode) × (clear_node fuel node ≡ ok node')
unfolding clear_node
clear_steps fuel node q run = (record node { q = q; arena = ArenaDefs.done node.arena }, rw run)

module _ {World : Type 0} (code : Code World) where
  stop_steps :
      (fuel : ℕ) (n : Ptr) (node node' : TaskNode) (q : Queue) (mem : Memory World)
      (r : Run (Memory World))
      → node.joinable ≡ true
      → push node.q n null ≡ ok q
      → task_loop fuel code (record node { q = q }) mem ≡ (r >>= λ m. ok (some (node', m)))
      → stop_thread fuel code n node mem
        ≡ (r >>= λ m. ok (some (record node' { joinable = false }, m)))
  unfolding stop_thread
  stop_steps fuel n node node' q mem r joinable pushed looped =
      if_true node.joinable _ _ joinable
      ∙ rw (pushed, looped)
          (elim (Run-cases r) [ inl e ↦ rw e | inr (inl e) ↦ rw e | inr (inr (m, e)) ↦ rw e ])

  clear_after :
      (fuel : ℕ) (n : Ptr) (node node₁ node₂ : TaskNode) (mem : Memory World)
      (r : Run (Memory World))
      → stop_thread fuel code n node mem ≡ (r >>= λ m. ok (some (node₁, m)))
      → clear_node fuel node₁ ≡ ok node₂
      → node_done fuel code n node mem ≡ (r >>= λ m. ok (some (node₂, m)))
  unfolding node_done then_clear
  clear_after fuel n node node₁ node₂ mem r stopped cleared = rw stopped (elim (Run-cases r) [
    | inl e ↦ rw e
    | inr (inl e) ↦ rw e
    | inr (inr (m, e)) ↦ rw (e, cleared)
  ])

  node_done-Serves :
      (fuel : ℕ) (n : Ptr) (node : TaskNode) (ts : List Task)
      → Serves fuel n node ts
      → (node' : TaskNode) × ((mem : Memory World)
          → node_done fuel code n node mem ≡ (run_all code ts mem >>= λ m. ok (some (node', m))))
  node_done-Serves fuel n node ts s =
      let (q, pushed, line) = push-IsQueue null s.line s.fresh in
      let (node₁, ended, loop) =
        task_loop_lem code fuel s.cells ts n (record node { q = q }) line s.pool s.tasks s.enough in
      let (q', freed, gone) = done-freed fuel ended.empty (omega (arith, s.enough)) in
      let (node₂, cleared) = clear_steps fuel (record node₁ { joinable = false }) q' freed in
      (
        node₂,
        λ mem.
            clear_after fuel n node (record node₁ { joinable = false }) node₂ mem
              (run_all code ts mem)
              (stop_steps fuel n node node₁ q mem (run_all code ts mem) s.joinable pushed
                (loop mem))
              cleared,
      )

  idle_steps :
      (fuel : ℕ) (n : Ptr) (node node' : TaskNode) (mem : Memory World)
      → node.joinable ≡ false
      → clear_node fuel node ≡ ok node'
      → node_done fuel code n node mem ≡ ok (some (node', mem))
  unfolding node_done stop_thread then_clear
  idle_steps fuel n node node' mem idle cleared =
      ap (λ r. r >>= λ r. then_clear fuel r) (if_false node.joinable _ (ok (some (node, mem))) idle)
      ∙ rw cleared

  node_done-Ready :
      (fuel : ℕ) (n : Ptr) (node : TaskNode) (ts : List Task)
      → Serves fuel n node ts ⊎ (IsIdle fuel node × (ts ≡ []))
      → (node' : TaskNode) × ((mem : Memory World)
          → node_done fuel code n node mem ≡ (run_all code ts mem >>= λ m. ok (some (node', m))))
  unfolding run_all
  node_done-Ready fuel n node ts (inl s) = node_done-Serves fuel n node ts s
  node_done-Ready fuel n node ts (inr (idle, e)) =
      let (q, freed, gone) = done-freed fuel idle.line idle.enough in
      let (node', cleared) = clear_steps fuel node q freed in
      (node', λ mem. rw e (idle_steps fuel n node node' mem idle.joinable cleared))

  pub run_all-append :
      (ts us : List Task) (mem : Memory World)
      → run_all code (ts ++ us) mem ≡ (run_all code ts mem >>= λ m. run_all code us m)
  unfolding run_all
  run_all-append [] us mem = refl
  run_all-append (t ∷ ts) us mem =
      bind_cong (call code t mem) _ _ (λ m. run_all-append ts us m)
      ∙ bind_assoc (call code t mem) (λ m. run_all code ts m) (λ m. run_all code us m)

  nodes_steps :
      (fuel : ℕ) (n : Ptr) (ns : List Ptr) (node : TaskNode) (nodes : List TaskNode)
      (mem : Memory World) (node' : TaskNode) (r : Run (Memory World))
      → node_done fuel code n node mem ≡ (r >>= λ m. ok (some (node', m)))
      → nodes_done fuel code (n ∷ ns) (node ∷ nodes) mem
        ≡ (r >>= λ m. nodes_done fuel code ns nodes m)
  unfolding nodes_done
  nodes_steps fuel n ns node nodes mem node' r ended =
      rw ended (elim (Run-cases r) [ inl e ↦ rw e | inr (inl e) ↦ rw e | inr (inr (m, e)) ↦ rw e ])

  nodes_done_lem :
      (fuel : ℕ) (ns : List Ptr) (nodes : List TaskNode) (tss : List (List Task))
      (mem : Memory World)
      → AllReady fuel ns nodes tss
      → nodes_done fuel code ns nodes mem ≡ (run_all code (all_tasks tss) mem >>= λ m. ok (some m))
  unfolding nodes_done run_all
  nodes_done_lem fuel ns [] [] mem ready = refl
  nodes_done_lem fuel ns [] (ts ∷ tss) mem ready = absurd ready
  nodes_done_lem fuel ns (node ∷ nodes) [] mem ready = absurd ready
  nodes_done_lem fuel [] (node ∷ nodes) (ts ∷ tss) mem ready = absurd ready
  nodes_done_lem fuel (n ∷ ns) (node ∷ nodes) (ts ∷ tss) mem (ready, others) =
      let (node', ended) = node_done-Ready fuel n node ts ready in
      nodes_steps fuel n ns node nodes mem node' (run_all code ts mem) (ended mem)
      ∙ bind_cong (run_all code ts mem) _ _ (λ m. nodes_done_lem fuel ns nodes tss m others)
      ∙ bind_assoc (run_all code ts mem) (λ m. run_all code (all_tasks tss) m) (λ m. ok (some m))
      ∙ ap (λ r. r >>= λ m. ok (some m)) (sym (run_all-append ts (all_tasks tss) mem))

-- The threads taken up one after the other, TecThrPool_done of a pool whose threads have well-
-- formed queues and arenas, a slot in use for each task that waits, and a fresh node for the NULL
-- of each thread: it ends as the tasks do. It calls the tasks that wait for the threads that were
-- created, each once, and frees both arenas then; the tasks that wait for a thread that was not
-- created are dropped. It neither faults nor waits for ever unless a function of a task does.
pub done-run_all :
    {World : Type 0} (code : Code World) (fuel : ℕ) (ns : List Ptr) (self : Pool)
    (tss : List (List Task)) (mem : Memory World)
    → AllReady fuel ns self.nodes tss
    → done fuel code ns self mem ≡ (
        run_all code (all_tasks tss) mem >>= λ m.
        ok (some (record m { buffers = none; payloads = none })))
unfolding done
done-run_all code fuel ns self tss mem ready =
    rw (nodes_done_lem code fuel ns self.nodes tss mem ready)
      (elim (Run-cases (run_all code (all_tasks tss) mem)) [
        | inl e ↦ rw e
        | inr (inl e) ↦ rw e
        | inr (inr (m, e)) ↦ rw e
      ])
