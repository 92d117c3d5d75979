-- ===== src/Examples/Pools.antt =====
-- tecc_thread_pool.c at a pool of two threads.
use mathlib.Core.Path.{subst}
use tecc.Base.{ℕ, ◌≡◌, refl, sym, inl, true, false, Option, none, some, List, [], ◌∷◌}
use tecc.Base.Heap.{put, given, load, fill, store, free}
use tecc.Base.Run.{Run, ok, ◌>>=◌, Returns}
use tecc.Buffer.Bytes.{splice, peek, memcpy}
use tecc.Queue.Defs.{Queue, link_tail, push, pop, free_nodes}
use tecc.Queue.Defs as QueueDefs
use tecc.Queue.Line.{IsQueue}
use tecc.Queue.Methods.{init_at, push-IsQueue}
use tecc.Arena.Defs.{
  Arena, take_slot, next_of, from_heap, allocate, release_slot, release_flagged, release,
  zero_slots, forget_slots,
}
use tecc.Arena.Pool.{elem}
use tecc.Examples.Arenas.{half, half-IsPool}
use tecc.Arena.Defs as ArenaDefs
use tecc.ThreadPool.Defs.{
  Task, TaskNode, Pool, Memory, Code, node_init, make_arena, init_nodes, init, as_size,
  thread_index, count_up, get_node, piece, copy_payload, new_task, enqueue, call, perform, taken,
  turn,
}
use tecc.ThreadPool.Enqueue.{Enqueued, enqueue-Enqueued}
use tecc.ThreadPool.Threads.{
  node_run, run_nodes, run, proceed, task_loop, stop_thread, clear_node, then_clear, node_done,
  nodes_done, done,
}
use tecc.ThreadPool.Running.{run_all}
use tecc.ThreadPool.Closing.{
  here, there, Closing, finishes, tells, works, joins, others, InTurns, Works,
}
use tecc.ThreadPool.Joining.{Closing-InTurns}

program : Unit {0}
unfolding put given load fill store free splice peek memcpy QueueDefs.init link_tail push pop
    take_slot next_of from_heap allocate release_slot release_flagged release zero_slots
    ArenaDefs.init node_init make_arena init_nodes init as_size thread_index count_up get_node piece
    copy_payload new_task enqueue call perform taken turn free_nodes QueueDefs.done forget_slots
    ArenaDefs.done node_run run_nodes run proceed task_loop stop_thread clear_node then_clear
    node_done nodes_done done run_all
program = tt

abbrev no_queue : Queue
no_queue = record { heap = λ _. none; head = 0; tail = 0 }

abbrev no_arena : Arena
no_arena = record {
  memory = λ _. none;
  buf = 0;
  elem_size = 48;
  capacity = 0;
  allocated = 0;
  free_list = 0;
}

abbrev raw : TaskNode
raw = record {
  joinable = false;
  q = no_queue;
  arena = no_arena;
  tasks = λ _. none;
  sig_terminated = false;
}

abbrev two_threads : Pool
two_threads = record {
  nthreads = 2;
  nodes = raw ∷ raw ∷ [];
  next_thread_index = 3;
  buffer_size = 0;
  buffer_arena = none;
  payload_size = 2;
  payload_arena = some (0 ∷ 0 ∷ 0 ∷ 0 ∷ []);
}

-- A pool is made for two nodes.
init_test :
    init true true (raw ∷ raw ∷ []) ((true, 0) ∷ (true, 0) ∷ []) 0 2 0
    ≡ record two_threads { next_thread_index = 0 }
unfolding program
init_test = refl

enqueue-Enqueued_example :
    Returns
      (enqueue two_threads 64 8 1000 (some (7 ∷ 9 ∷ [])) 5)
      (Enqueued two_threads 1 raw [] 8 64 (0 ∷ 0 ∷ 0 ∷ 0 ∷ []) (7 ∷ 9 ∷ []) 1000 5)
unfolding program
enqueue-Enqueued_example =
    enqueue-Enqueued two_threads 1 64 1000 5 refl refl refl (init_at no_queue (λ a. refl))
      (record { not_null = refl; unused = refl }) refl refl refl refl refl

-- Tasks that write down the place of their payload.
abbrev recording : Code (List (Option ℕ))
recording = λ f task mem. ok (record mem { world = task.payload ∷ mem.world })

-- Three tasks in a row: the first and the third go to thread 1, and the third overwrites the payload
-- of the first before that has run. What thread 1 is given for the first, and the payloads.
abbrev three_tasks : Run (Option (List ℕ) × List (Option ℕ))
three_tasks = do
  p ← enqueue two_threads 64 8 1000 (some (7 ∷ 9 ∷ [])) 5
  p' ← enqueue p 80 8 1000 (some (1 ∷ 2 ∷ [])) 5
  p'' ← enqueue p' 96 16 1000 (some (3 ∷ 4 ∷ [])) 5
  node ← get_node p''.nodes 1
  let mem : Memory (List (Option ℕ)) = record {
    buffers = none;
    payloads = p''.payload_arena;
    world = [];
  }
  r ← turn recording node mem
  ok (p''.payload_arena, elim r [ none ↦ [] | some (task, node', mem') ↦ mem'.world ])

overwritten_test : three_tasks ≡ ok (some (1 ∷ 2 ∷ 3 ∷ 4 ∷ []), some 2 ∷ [])
unfolding program
overwritten_test = refl

-- A thread with one task in its queue, in slot 0 of its arena; and one that was not created.
abbrev noting : Task
noting = record { buffer = none; buffer_size = 0; payload = some 3; args = 0; task_func = 1000 }

abbrev one_task : Queue
one_task = record {
  heap = put (λ _. none) 8 (some (record { obj = 64; next = 0 }));
  head = 8;
  tail = 8;
}

ok-inj : {a b : Queue} → ok a ≡ ok b → a ≡ b
ok-inj e = cc

one_task-IsQueue : IsQueue one_task ((8, 64) ∷ [])
unfolding program
one_task-IsQueue =
    let (q, run, line) =
      push-IsQueue {q = no_queue} {p = 8} 64 (init_at no_queue (λ a. refl))
        (record { not_null = refl; unused = refl }) in
    subst (λ (q : Queue). IsQueue q ((8, 64) ∷ [])) (ok-inj (sym run)) line

abbrev serving : TaskNode
serving = record {
  joinable = true;
  q = one_task;
  arena = half;
  tasks = put (λ _. none) 64 (some noting);
  sig_terminated = false;
}

abbrev last_words : Memory (List (Option ℕ))
last_words = record { buffers = none; payloads = some (0 ∷ 0 ∷ 0 ∷ 0 ∷ []); world = [] }

abbrev ending : Pool
ending = record two_threads { nodes = serving ∷ raw ∷ [] }

-- Two threads with a task each.
abbrev busy : Pool
busy = record two_threads { nodes = serving ∷ serving ∷ [] }

serving-Works : Works [] serving (noting ∷ [])
unfolding elem program
serving-Works = record {
  cells = (8, 64) ∷ [];
  live = 0 ∷ [];
  frees = 1 ∷ [];
  line = one_task-IsQueue;
  pool = half-IsPool;
  tasks = (0, refl, refl, record { not_null = refl; holds = refl }, tt);
}

-- The second thread takes its task first, then the first one, which is told to end and joined.
busy-Closing :
    (mem : Memory (List (Option ℕ))) × Closing recording none
      (serving ∷ serving ∷ [])
      last_words
      mem
unfolding program
busy-Closing = (
  _,
  others (there serving (here 64 refl refl)) (
      tells 16 refl (record { not_null = refl; unused = refl }) refl
        (works 64 refl refl (
          joins 2 refl refl (
            tells 24 refl (record { not_null = refl; unused = refl }) refl
              (joins 2 refl refl finishes))))),
)

Closing-InTurns_example :
    (turns : List Task) × InTurns ((noting ∷ []) ∷ (noting ∷ []) ∷ []) turns
    × ((run_all recording turns last_words >>= λ m.
          ok (record m { buffers = none; payloads = none }))
        ≡ ok busy-Closing.0)
Closing-InTurns_example =
    Closing-InTurns recording busy-Closing.1
      (inl (refl, serving-Works), (inl (refl, serving-Works), tt))

-- The task was called before the pool was gone.
done_test :
    done 2 recording (16 ∷ 16 ∷ []) ending last_words
    ≡ ok (some (record { buffers = none; payloads = none; world = some 3 ∷ [] }))
unfolding program
done_test = refl
