-- ===== src/ThreadPool/Threads.antt =====
-- tecc_thread_pool.c: the loop of a thread, and the start and the end of the pool. While
-- TecThrPool_done waits for a thread, that thread works off its queue; what other threads run
-- meanwhile is taken up when the loop comes to them.
use tecc.Base.{
  ℕ, zero, suc, Bool, true, false, Option, none, some, List, [], ◌∷◌, ◌==◌, if◌then◌else◌,
}
use tecc.Base.Heap.{Ptr, null}
use tecc.Base.Run.{Run, ok, fault, out_of_fuel, ◌>>=◌}
use tecc.Queue.Defs.{push}
use tecc.Queue.Defs as QueueDefs
use tecc.Arena.Defs as ArenaDefs
use tecc.ThreadPool.Defs.{TaskNode, Pool, Memory, Code, turn}

-- Whether the system created the thread.
unfoldable pub node_run : Bool → TaskNode → Bool × TaskNode
node_run created node = (created, record node { joinable = created })

-- The loop over the nodes, up to the first whose thread is not created.
unfoldable pub run_nodes : List Bool → List TaskNode → Bool × List TaskNode
run_nodes created [] = (true, [])
run_nodes [] (node ∷ nodes) = (true, node ∷ nodes)
run_nodes (c ∷ created) (node ∷ nodes) =
    let r = node_run c node in
    let rest = run_nodes created nodes in
    if r.0 then (rest.0, r.1 ∷ rest.1) else (false, r.1 ∷ nodes)

-- What the system answers for each thread is an argument.
unfoldable pub run : List Bool → Pool → Bool × Pool
run created self = let r = run_nodes created self.nodes in (r.0, record self { nodes = r.1 })

unfoldable pub clear_node : ℕ → TaskNode → Run TaskNode
clear_node fuel node = do
  q ← QueueDefs.done fuel node.q
  ok (record node { q = q; arena = ArenaDefs.done node.arena })

module _ {World : Type 0} where
  -- After a turn: the loop goes on, unless NULL was taken or the thread waits for ever.
  unfoldable pub proceed :
      (TaskNode → Memory World → Run (Option (TaskNode × Memory World)))
      → Option (Ptr × TaskNode × Memory World)
      → Run (Option (TaskNode × Memory World))
  proceed rest none = ok none
  proceed rest (some (task, node, mem)) =
      if task == null then ok (some (node, mem)) else rest node mem

  -- `task_func`; the fuel bounds the turns.
  unfoldable pub task_loop :
      ℕ → Code World → TaskNode → Memory World → Run (Option (TaskNode × Memory World))
  task_loop zero code node mem = out_of_fuel
  task_loop (suc fuel) code node mem = turn code node mem >>= λ r. proceed (task_loop fuel code) r

  -- The thread takes NULL, for which malloc returned the node `n`, and is joined.
  unfoldable pub stop_thread :
      ℕ → Code World → Ptr → TaskNode → Memory World → Run (Option (TaskNode × Memory World))
  stop_thread fuel code n node mem =
      if node.joinable
      then (do
        q ← push node.q n null
        r ← task_loop fuel code (record node { q = q }) mem
        ok (elim r [
          | none ↦ none
          | some (node', mem') ↦ some (record node' { joinable = false }, mem')
        ]))
      else ok (some (node, mem))

  unfoldable pub then_clear :
      ℕ → Option (TaskNode × Memory World) → Run (Option (TaskNode × Memory World))
  then_clear fuel none = ok none
  then_clear fuel (some (node, mem)) = clear_node fuel node >>= λ node'. ok (some (node', mem))

  unfoldable pub node_done :
      ℕ → Code World → Ptr → TaskNode → Memory World → Run (Option (TaskNode × Memory World))
  node_done fuel code n node mem = stop_thread fuel code n node mem >>= λ r. then_clear fuel r

  -- The loop over the nodes, with what malloc returns for the NULL of each; `none` where a thread
  -- never ends.
  unfoldable pub nodes_done :
      ℕ → Code World → List Ptr → List TaskNode → Memory World → Run (Option (Memory World))
  nodes_done fuel code ns [] mem = ok (some mem)
  nodes_done fuel code [] (node ∷ nodes) mem = fault
  nodes_done fuel code (n ∷ ns) (node ∷ nodes) mem = node_done fuel code n node mem >>= λ r.
      elim r [ none ↦ ok none | some (node', mem') ↦ nodes_done fuel code ns nodes mem' ]

  -- The nodes and the two arenas are freed in the end.
  unfoldable pub done :
      ℕ → Code World → List Ptr → Pool → Memory World → Run (Option (Memory World))
  done fuel code ns self mem = nodes_done fuel code ns self.nodes mem >>= λ r.
      ok (elim r [
        | none ↦ none
        | some mem' ↦ some (record mem' { buffers = none; payloads = none })
      ])
