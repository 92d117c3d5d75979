-- ===== src/Queue/Defs.antt =====
-- tecc_queue.c and tecc_queue.h. Each function runs between the lock and the unlock of the queue's
-- mutex, but for the allocation of a node, which comes first, and its release, which comes last:
-- neither is seen by another thread. An object is a pointer that the queue does not follow.
use tecc.Base.{ℕ, zero, suc, Option, none, some, ◌==◌, if◌then◌else◌}
use tecc.Base.Heap.{Ptr, null, Heap, load, fill, store, free}
use tecc.Base.Run.{Run, ok, out_of_fuel, ◌>>=◌}

pub record Node : Type 0 where
  pub obj : ℕ
  pub next : Ptr

pub record Queue : Type 0 where
  pub heap : Heap Node
  pub head : Ptr
  pub tail : Ptr

unfoldable pub init : Queue → Queue
init q = record q { head = null; tail = null }

-- if (q->tail) q->tail->next = node;
unfoldable pub link_tail : Heap Node → Ptr → Ptr → Run (Heap Node)
link_tail h tail node =
    if tail == null then ok h else load h tail >>= λ n. store h tail (record n { next = node })

-- `p` is what `malloc` returns.
unfoldable pub push : Queue → Ptr → ℕ → Run Queue
push q p obj = do
  h ← fill q.heap p (record { obj = obj; next = null })
  h' ← link_tail h q.tail p
  ok (record { heap = h'; head = if q.tail == null then p else q.head; tail = p })

-- The object at the head, or `none` where the call waits for one.
unfoldable pub pop : Queue → Run (Option (ℕ × Queue))
pop q = if q.head == null then ok none else do
  n ← load q.heap q.head
  h ← free q.heap q.head
  ok (
      some
        (n.obj, record { heap = h; head = n.next; tail = if n.next == null then null else q.tail }))

-- The loop of `TecQueue_done`.
unfoldable pub free_nodes : ℕ → Heap Node → Ptr → Run (Heap Node)
free_nodes zero h n = out_of_fuel
free_nodes (suc fuel) h n =
    if n == null then ok h else load h n >>= λ c. free h n >>= λ h'. free_nodes fuel h' c.next

-- `fuel` bounds the number of nodes.
unfoldable pub done : ℕ → Queue → Run Queue
done fuel q = do h ← free_nodes fuel q.heap q.head; ok (record q { heap = h })
