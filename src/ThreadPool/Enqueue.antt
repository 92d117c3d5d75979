-- ===== src/ThreadPool/Enqueue.antt =====
-- `TecThrPool_enqueue`.
use native.Mathlib.Nat.{mod-lt}
use mathlib.Core.Path.{subst}
use tecc.Base.{
  ℕ, zero, suc, ◌+◌, ◌*◌, ◌%◌, ◌≤◌, ◌<◌, ◌≡◌, ◌≢◌, refl, sym, ap, ◌∙◌, false, Option, some, List,
  [], ◌∷◌, ◌++◌, arith, ◌==◌, length, take, drop, take-length, inl, inr, Bool-cases, set, get_or,
  get_or-set_self, get_or-set_ne,
}
use tecc.Base.Heap.{Ptr, null, put, Holds, IsFresh, fill_lem, put_self}
use tecc.Base.Run.{ok, fault, Returns}
use tecc.Buffer.Bytes.{splice, peek_lem, memcpy_lem}
use tecc.Queue.Defs.{Queue, push}
use tecc.Queue.Line.{Cells, IsQueue}
use tecc.Queue.Methods.{push-IsQueue}
use tecc.Arena.Defs.{Arena, allocate}
use tecc.ThreadPool.Defs.{
  Task, TaskNode, Pool, thread_index, count_up, as_size, get_node, piece, copy_payload, new_task,
  enqueue,
}
use tecc.ThreadPool.Payload.{take-splice_at, pieces-le, other_piece}

-- The payload in the piece of thread `i`.
abbrev pub payload_of : Pool → ℕ → List ℕ → List ℕ
payload_of self i block = take self.payload_size (drop (i * self.payload_size) block)

pub thread_index-lt : (self : Pool) (i : ℕ) → thread_index self ≡ ok i → i < self.nthreads
unfolding thread_index
thread_index-lt self i e = elim (Bool-cases (self.nthreads == 0)) [
  | inl z ↦ absurd (stuck (rw z at e))
  | inr z ↦
      let same : ok (as_size self.next_thread_index % self.nthreads) ≡ ok i = rw z at e in
      let pos : 0 < self.nthreads = ground arith in
      subst (λ (x : ℕ). x < self.nthreads) (ok-inj same)
        (mod-lt (as_size self.next_thread_index) pos)
]
  where
    stuck : fault ≡ ok i → ⊥
    stuck e = cc

    ok-inj : {a b : ℕ} → ok a ≡ ok b → a ≡ b
    ok-inj e = cc

get_node_lem :
    (nodes : List TaskNode) (i : ℕ) (d : TaskNode)
    → i < length nodes
    → get_node nodes i ≡ ok (get_or nodes i d)
unfolding get_node
get_node_lem [] i d h = absurd (omega arith)
get_node_lem (node ∷ nodes) zero d h = refl
get_node_lem (node ∷ nodes) (suc i) d h = get_node_lem nodes i d (omega arith)

copy_lem :
    (block payload : List ℕ) (i size : ℕ)
    → length payload ≡ size
    → i * size + size ≤ length block
    → copy_payload (some block) i size (some payload) ≡ ok (some (splice block (i * size) payload))
unfolding copy_payload
copy_lem block payload i size e fits =
    let whole : take size (drop 0 payload) ≡ payload = take-length payload size (omega arith) in
    rw (
      peek_lem payload 0 size (omega arith),
      whole,
      memcpy_lem block (i * size) payload (omega arith),
    )

module _ (self : Pool) {i : ℕ} {node : TaskNode} (p n : Ptr) {t : Ptr} {a : Arena} {q : Queue}
    {block' : Option (List ℕ)} where
  enqueue_steps :
      (task_func args : Ptr) (payload : Option (List ℕ))
      → thread_index self ≡ ok i
      → get_node self.nodes i ≡ ok node
      → allocate node.arena p ≡ ok (t, a)
      → copy_payload self.payload_arena i self.payload_size payload ≡ ok block'
      → (t == null) ≡ false
      → push node.q n t ≡ ok q
      → enqueue self p n task_func payload args
        ≡ ok (record self {
          next_thread_index = count_up self.next_thread_index;
          nodes = set self.nodes i (record node {
            arena = a;
            tasks = put node.tasks t (some (new_task self i task_func args));
            q = q;
          });
          payload_arena = block';
        })
  unfolding enqueue
  enqueue_steps task_func args payload index there given copied some_place pushed = rw (
    index,
    there,
    given,
    copied,
    fill_lem node.tasks t (new_task self i task_func args) some_place,
    pushed,
  )

-- What a call of TecThrPool_enqueue leaves, for the task at `t` of thread `i`.
pub record Enqueued (self : Pool) (i : ℕ) (node : TaskNode) (cells : Cells) (n t : Ptr)
    (block payload : List ℕ) (task_func args : Ptr) (after : Pool) : Type 0 where
  pub counted : after.next_thread_index ≡ count_up self.next_thread_index
  pub queued : IsQueue (get_or after.nodes i node).q (cells ++ ((n, t) ∷ []))
  pub task : Task
  pub there : Holds (get_or after.nodes i node).tasks t task
  pub func : (task.task_func ≡ task_func) × (task.args ≡ args)
  pub payload_at : task.payload ≡ some (i * self.payload_size)
  pub block_after : List ℕ
  pub arena : after.payload_arena ≡ some block_after
  pub copied : payload_of self i block_after ≡ payload
  pub others : (j : ℕ) → i ≢ j → payload_of self j block_after ≡ payload_of self j block
  pub other_nodes : (j : ℕ) (d : TaskNode) → i ≢ j → get_or after.nodes j d ≡ get_or self.nodes j d

-- A call of TecThrPool_enqueue with a payload of the size of a piece, on a pool with as many nodes
-- as threads and a payload arena for them, where the node's queue is well formed, its new node
-- fresh, and the arena of tasks gives a place: it ends without a fault. The task goes behind the
-- others of the queue of the thread whose turn it is, with its function and arguments; the payload
-- is copied to the piece of that thread, and the other threads' nodes and pieces are left alone.
pub enqueue-Enqueued :
    (self : Pool) (i : ℕ) {node : TaskNode} {cells : Cells} {block payload : List ℕ} (p : Ptr)
    {n t : Ptr} {a : Arena} (task_func args : Ptr)
    → thread_index self ≡ ok i
    → length self.nodes ≡ self.nthreads
    → get_or self.nodes i node ≡ node
    → IsQueue node.q cells
    → IsFresh node.q.heap n
    → allocate node.arena p ≡ ok (t, a)
    → (t == null) ≡ false
    → self.payload_arena ≡ some block
    → length block ≡ self.nthreads * self.payload_size
    → length payload ≡ self.payload_size
    → Returns
        (enqueue self p n task_func (some payload) args)
        (Enqueued self i node cells n t block payload task_func args)
unfolding new_task piece
enqueue-Enqueued self i {node} {cells} {block} {payload} p {n} {t} {a} task_func args index width
      here line fresh given some_place arena sized whole =
    let below = thread_index-lt self i index in
    let (q, pushed, queued) = push-IsQueue t line fresh in
    let fits : i * self.payload_size + self.payload_size ≤ length block =
      omega (arith, pieces-le i self.nthreads self.payload_size below) in
    let inside : i < length self.nodes = omega arith in
    let copied : copy_payload self.payload_arena i self.payload_size (some payload)
        ≡ ok (some (splice block (i * self.payload_size) payload)) =
      rw arena (copy_lem block payload i self.payload_size whole fits) in
    let node' : TaskNode = record node {
      arena = a;
      tasks = put node.tasks t (some (new_task self i task_func args));
      q = q;
    } in
    let set_here = get_or-set_self self.nodes i node' node inside in
    (
      _,
      enqueue_steps self p n task_func args (some payload) index
          (get_node_lem self.nodes i node inside ∙ ap ok here) given copied some_place pushed,
      record {
        counted = refl;
        queued = rw set_here queued;
        task = new_task self i task_func args;
        there = rw set_here (record { not_null = some_place; holds = put_self node.tasks t _ });
        func = (refl, refl);
        payload_at = rw arena;
        block_after = splice block (i * self.payload_size) payload;
        arena = refl;
        copied =
            take-splice_at block (i * self.payload_size) self.payload_size payload (sym whole) fits;
        others = λ j ne. other_piece block i j self.payload_size payload whole ne;
        other_nodes = λ j d ne. get_or-set_ne self.nodes i j node' d ne;
      },
    )
