-- ===== src/ThreadPool/Defs.antt =====
-- tecc_thread_pool.c and tecc_thread_pool.h. The function of a task is a pointer; what the code there
-- does is a parameter. A call of TecThrPool_enqueue is one step; so is a turn of a thread.
use tecc.Base.{
  ℕ, zero, suc, ◌+◌, ◌-◌, ◌*◌, ◌%◌, ◌^◌, Bool, true, false, Option, none, some, List, [], ◌∷◌, ltb,
  ◌==◌, if◌then◌else◌, length, replicate, set,
}
use tecc.Base.Heap.{Ptr, null, Heap, load, fill}
use tecc.Base.Run.{Run, ok, fault, ◌>>=◌}
use tecc.Buffer.Bytes.{peek, memcpy}
use tecc.Queue.Defs.{Queue, push, pop}
use tecc.Queue.Defs as QueueDefs
use tecc.Arena.Defs.{Arena, allocate, release}
use tecc.Arena.Defs as ArenaDefs

-- The fields behind the header, which is the arena's. `buffer` and `payload` are places in the
-- arenas of the pool, `none` is NULL.
pub record Task : Type 0 where
  pub buffer : Option ℕ
  pub buffer_size : ℕ
  pub payload : Option ℕ
  pub args : Ptr
  pub task_func : Ptr

-- `joinable` is TecThread_ok of the thread.
pub record TaskNode : Type 0 where
  pub joinable : Bool
  pub q : Queue
  pub arena : Arena
  pub tasks : Heap Task
  pub sig_terminated : Bool

-- The arenas are blocks of bytes, or NULL.
pub record Pool : Type 0 where
  pub nthreads : ℕ
  pub nodes : List TaskNode
  pub next_thread_index : ℕ
  pub buffer_size : ℕ
  pub buffer_arena : Option (List ℕ)
  pub payload_size : ℕ
  pub payload_arena : Option (List ℕ)

-- What the threads share with the functions of the tasks: the arenas and the rest of the program.
pub record Memory (World : Type 0) : Type 0 where
  pub buffers : Option (List ℕ)
  pub payloads : Option (List ℕ)
  pub world : World

-- What the function at an address does, given a task.
abbrev pub Code : Type 0 → Type 0
Code World = Ptr → Task → Memory World → Run (Memory World)

-- What the system grants for a node: the mutex of its arena, and the block of it.
abbrev pub NodeGrant : Type 0
NodeGrant = Bool × Ptr

-- sizeof(TecTask)
abbrev pub task_size : ℕ
task_size = 48

unfoldable pub node_init : TaskNode → NodeGrant → ℕ → TaskNode
node_init node (lock_ok, p) arena_nelems = record node {
  joinable = false;
  q = QueueDefs.init node.q;
  arena = (ArenaDefs.init node.arena lock_ok p arena_nelems task_size).1;
  sig_terminated = false;
}

-- A block of `n` pieces, which is not made for pieces of size 0; `granted` says whether calloc
-- returned one.
unfoldable pub make_arena : Bool → ℕ → ℕ → Option (List ℕ)
make_arena granted n size =
    if size == 0 then none else (if granted then some (replicate (n * size) 0) else none)

unfoldable pub init_nodes : List TaskNode → List NodeGrant → ℕ → List TaskNode
init_nodes [] grants arena_nelems = []
init_nodes (node ∷ nodes) [] arena_nelems = []
init_nodes (node ∷ nodes) (g ∷ grants) arena_nelems =
    node_init node g arena_nelems ∷ init_nodes nodes grants arena_nelems

-- `nodes` is the memory for the nodes, one for each thread.
unfoldable pub init : Bool → Bool → List TaskNode → List NodeGrant → ℕ → ℕ → ℕ → Pool
init buffers payloads nodes grants buffer_size payload_size arena_nelems = record {
  nthreads = length nodes;
  nodes = init_nodes nodes grants arena_nelems;
  next_thread_index = 0;
  buffer_size = buffer_size;
  buffer_arena = make_arena buffers (length nodes) buffer_size;
  payload_size = payload_size;
  payload_arena = make_arena payloads (length nodes) payload_size;
}

-- An int of 32 bits, converted to size_t.
unfoldable pub as_size : ℕ → ℕ
as_size i = if ltb i (2 ^ 31) then i else i + (2 ^ 64 - 2 ^ 32)

-- The index of the next thread; with no thread, a division by 0.
unfoldable pub thread_index : Pool → Run ℕ
thread_index self =
    if self.nthreads == 0 then fault else ok (as_size self.next_thread_index % self.nthreads)

-- atomic_fetch_add on an int of 32 bits.
unfoldable pub count_up : ℕ → ℕ
count_up i = (i + 1) % 2 ^ 32

unfoldable pub get_node : List TaskNode → ℕ → Run TaskNode
get_node [] n = fault
get_node (node ∷ nodes) zero = ok node
get_node (node ∷ nodes) (suc n) = get_node nodes n

-- The piece of thread `ndx`, or NULL.
unfoldable pub piece : Option (List ℕ) → ℕ → ℕ → Option ℕ
piece none ndx size = none
piece (some block) ndx size = some (ndx * size)

-- The payload is copied into the piece of the thread.
unfoldable pub copy_payload : Option (List ℕ) → ℕ → ℕ → Option (List ℕ) → Run (Option (List ℕ))
copy_payload none ndx size payload = ok none
copy_payload (some block) ndx size none = ok (some block)
copy_payload (some block) ndx size (some payload) = do
  src ← peek payload 0 size
  block' ← memcpy block (ndx * size) src
  ok (some block')

unfoldable pub new_task : Pool → ℕ → Ptr → Ptr → Task
new_task self ndx task_func args = record {
  buffer = piece self.buffer_arena ndx self.buffer_size;
  buffer_size = elim self.buffer_arena [ none ↦ 0 | some block ↦ self.buffer_size ];
  payload = piece self.payload_arena ndx self.payload_size;
  args = args;
  task_func = task_func;
}

-- `p` is what calloc returns where the arena of tasks is full, `n` what malloc returns for a node
-- of the queue.
unfoldable pub enqueue : Pool → Ptr → Ptr → Ptr → Option (List ℕ) → Ptr → Run Pool
enqueue self p n task_func payload args = do
  ndx ← thread_index self
  node ← get_node self.nodes ndx
  r ← allocate node.arena p
  block ← copy_payload self.payload_arena ndx self.payload_size payload
  tasks ← fill node.tasks r.0 (new_task self ndx task_func args)
  q ← push node.q n r.0
  ok (record self {
    next_thread_index = count_up self.next_thread_index;
    nodes = set self.nodes ndx (record node { arena = r.1; tasks = tasks; q = q });
    payload_arena = block;
  })

module _ {World : Type 0} where
  -- The function of a task, where it has one.
  unfoldable pub call : Code World → Task → Memory World → Run (Memory World)
  call code task mem = if task.task_func == null then ok mem else code task.task_func task mem

  -- The task that was taken is called, and given back to the arena.
  unfoldable pub perform :
      Code World → TaskNode → Ptr → Memory World → Run (TaskNode × Memory World)
  perform code node task mem = do
    t ← load node.tasks task
    mem' ← call code t mem
    a ← release node.arena task
    ok (record node { arena = a }, mem')

  -- After a turn: NULL ends the loop.
  unfoldable pub taken :
      Code World
      → TaskNode
      → Option (ℕ × Queue)
      → Memory World
      → Run (Option (Ptr × TaskNode × Memory World))
  taken code node none mem = ok none
  taken code node (some (task, q)) mem =
      if task == null
      then ok (some (null, record node { q = q; sig_terminated = true }, mem))
      else (perform code (record node { q = q }) task mem >>= λ r. ok (some (task, r.0, r.1)))

  -- One turn of `task_func`, or `none` while the queue is empty.
  unfoldable pub turn :
      Code World → TaskNode → Memory World → Run (Option (Ptr × TaskNode × Memory World))
  turn code node mem = do r ← pop node.q; taken code node r mem
