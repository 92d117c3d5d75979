-- ===== src/ThreadPool/Closing.antt =====
-- TecThrPool_done while the threads take turns: `Closing` is any run of its loop between the turns of
-- the threads. A turn, with its task, is one step.
use tecc.Base.{ℕ, ◌≡◌, ◌⊎◌, true, false, Option, none, some, List, [], ◌∷◌, ◌++◌, ◌==◌}
use tecc.Base.Heap.{Ptr, null, IsFresh}
use tecc.Base.Run.{ok, ◌>>=◌}
use tecc.Queue.Defs.{push}
use tecc.Queue.Line.{Cells, IsQueue}
use tecc.Arena.Pool.{IsPool}
use tecc.ThreadPool.Defs.{Task, TaskNode, Memory, Code, turn}
use tecc.ThreadPool.Threads.{clear_node}
use tecc.ThreadPool.Running.{Lined}

-- A thread that was created takes a turn.
pub data TurnIn {World : Type 0} (code : Code World)
    : List TaskNode → Memory World → List TaskNode → Memory World → Type 0 where
  here :
      {node node' : TaskNode} {nodes : List TaskNode} {mem mem' : Memory World} (task : Ptr)
      → node.joinable ≡ true
      → turn code node mem ≡ ok (some (task, node', mem'))
      → TurnIn code (node ∷ nodes) mem (node' ∷ nodes) mem'
  there :
      {nodes nodes' : List TaskNode} {mem mem' : Memory World} (node : TaskNode)
      → TurnIn code nodes mem nodes' mem'
      → TurnIn code (node ∷ nodes) mem (node ∷ nodes') mem'

-- The rest of a call of TecThrPool_done up to its end: the thread that it waits for, the nodes that
-- its loop has yet to come to, and the memory before and after. What malloc returns for a NULL is
-- fresh.
pub data Closing {World : Type 0} (code : Code World)
    : Option TaskNode → List TaskNode → Memory World → Memory World → Type 0 where
  finishes :
      {mem : Memory World}
      → Closing code none [] mem (record mem { buffers = none; payloads = none })
  skips :
      {node node' : TaskNode} {nodes : List TaskNode} {mem mem' : Memory World} (fuel : ℕ)
      → node.joinable ≡ false
      → clear_node fuel node ≡ ok node'
      → Closing code none nodes mem mem'
      → Closing code none (node ∷ nodes) mem mem'
  tells :
      {node node' : TaskNode} {nodes : List TaskNode} {mem mem' : Memory World} (n : Ptr)
      → node.joinable ≡ true
      → IsFresh node.q.heap n
      → (push node.q n null >>= λ q. ok (record node { q = q })) ≡ ok node'
      → Closing code (some node') nodes mem mem'
      → Closing code none (node ∷ nodes) mem mem'
  works :
      {node node' : TaskNode} {nodes : List TaskNode} {mem mem₁ mem' : Memory World} (task : Ptr)
      → turn code node mem ≡ ok (some (task, node', mem₁))
      → (task == null) ≡ false
      → Closing code (some node') nodes mem₁ mem'
      → Closing code (some node) nodes mem mem'
  joins :
      {node node' node'' : TaskNode} {nodes : List TaskNode} {mem mem₁ mem' : Memory World}
      (fuel : ℕ)
      → turn code node mem ≡ ok (some (null, node', mem₁))
      → clear_node fuel (record node' { joinable = false }) ≡ ok node''
      → Closing code none nodes mem₁ mem'
      → Closing code (some node) nodes mem mem'
  others :
      {waited : Option TaskNode} {nodes nodes' : List TaskNode} {mem mem₁ mem' : Memory World}
      → TurnIn code nodes mem nodes' mem₁
      → Closing code waited nodes' mem₁ mem'
      → Closing code waited nodes mem mem'

-- The first task of one of the threads is taken.
pub data Picks : List (List Task) → Task → List (List Task) → Type 0 where
  first : {tss : List (List Task)} (t : Task) (ts : List Task) → Picks ((t ∷ ts) ∷ tss) t (ts ∷ tss)
  later :
      {tss tss' : List (List Task)} {t : Task} (ts : List Task)
      → Picks tss t tss'
      → Picks (ts ∷ tss) t (ts ∷ tss')

abbrev AllRun : List (List Task) → Type 0
AllRun [] = Unit
AllRun (ts ∷ tss) = (ts ≡ []) × AllRun tss

-- The tasks of all threads, in turns: all of them, those of each thread in their order.
pub data InTurns : List (List Task) → List Task → Type 0 where
  over : {tss : List (List Task)} → AllRun tss → InTurns tss []
  takes :
      {tss tss' : List (List Task)} {t : Task} {turns : List Task}
      → Picks tss t tss'
      → InTurns tss' turns
      → InTurns tss (t ∷ turns)

-- A node whose queue holds the tasks `ts`, and `behind` after them.
pub record Works (behind : Cells) (node : TaskNode) (ts : List Task) : Type 0 where
  pub cells : Cells
  pub live : List ℕ
  pub frees : List ℕ
  pub line : IsQueue node.q (cells ++ behind)
  pub pool : IsPool node.arena live frees
  pub tasks : Lined node.arena node.tasks live cells ts

-- The tasks of each thread, none for those that were not created.
abbrev pub AllWork : List TaskNode → List (List Task) → Type 0
AllWork [] [] = Unit
AllWork [] (ts ∷ tss) = ⊥
AllWork (node ∷ nodes) [] = ⊥
AllWork (node ∷ nodes) (ts ∷ tss) =
    (((node.joinable ≡ true) × Works [] node ts) ⊎ ((node.joinable ≡ false) × (ts ≡ [])))
    × AllWork nodes tss
