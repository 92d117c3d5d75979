-- ===== src/Arena/Defs.antt =====
-- tecc_arena.c and tecc_arena.h. The first word of an element holds its flags while the element is
-- in use, and the link of the free list while it is not. Each function runs under the arena's lock.
use tecc.Base.{
  ℕ, zero, suc, ◌+◌, ◌-◌, ◌*◌, ◌%◌, Bool, true, false, some, none, ltb, ◌==◌, if◌then◌else◌,
}
use tecc.Base.Heap.{Ptr, null, Heap, put, load, store, free}
use tecc.Base.Run.{Run, ok, fault, ◌>>=◌}

pub data Word : Type 0 where
  flags : ℕ → Word
  link : Ptr → Word

pub record Arena : Type 0 where
  pub memory : Heap Word
  pub buf : Ptr
  pub elem_size : ℕ
  pub capacity : ℕ
  pub allocated : ℕ
  pub free_list : Ptr

-- `buf + i * elem_size`
abbrev pub slot_at : Ptr → ℕ → ℕ → Ptr
slot_at buf elem_size i = buf + i * elem_size

-- `calloc` zeroes the elements of the block.
unfoldable pub zero_slots : ℕ → Heap Word → Ptr → ℕ → Heap Word
zero_slots zero h buf elem_size = h
zero_slots (suc n) h buf elem_size =
    put (zero_slots n h buf elem_size) (slot_at buf elem_size n) (some (flags 0))

-- `lock_ok` says whether the mutex was made, and `p` is what `calloc` returns.
unfoldable pub init : Arena → Bool → Ptr → ℕ → ℕ → Bool × Arena
init a lock_ok p nelems elem_size =
    let b : Arena = record a {
      buf = null;
      elem_size = elem_size;
      capacity = nelems;
      allocated = 0;
      free_list = null;
    } in
    if lock_ok
    then (
      true,
      if nelems == 0 then b else record b {
        buf = p;
        memory = if p == null then a.memory else zero_slots nelems a.memory p elem_size;
      },
    )
    else (false, b)

unfoldable pub next_of : Word → Run Ptr
next_of (flags f) = fault
next_of (link p) = ok p

-- The element taken from the arena, or NULL, and the free list that is left.
unfoldable pub take_slot : Arena → Run (Ptr × Ptr)
take_slot a =
    if a.free_list == null
    then ok
        (if ltb a.allocated a.capacity then slot_at a.buf a.elem_size a.allocated else null, null)
    else load a.memory a.free_list >>= λ w. next_of w >>= λ next. ok (a.free_list, next)

-- ptr = TECC_CALLOC(1, arena->elem_size);
unfoldable pub from_heap : Arena → Ptr → Ptr × Arena
from_heap a p =
    if p == null then (null, a) else (p, record a { memory = put a.memory p (some (flags 0)) })

-- `p` is what `calloc` returns where the arena is full.
unfoldable pub allocate : Arena → Ptr → Run (Ptr × Arena)
allocate a p = do
  r ← take_slot a
  if r.0 == null then ok (from_heap (record a { free_list = r.1 }) p) else (do
    h ← store a.memory r.0 (flags 1)
    ok (r.0, record a { memory = h; free_list = r.1; allocated = a.allocated + 1 }))

-- An element with the flag goes to the free list, and the list is reset when no element is in use.
unfoldable pub release_slot : Arena → Ptr → Run Arena
release_slot a ptr = do
  h ← store a.memory ptr (link a.free_list)
  let count = a.allocated - 1
  ok (record a { memory = h; free_list = if count == 0 then null else ptr; allocated = count })

-- The flags of an element that was released are overwritten: to release it again faults.
unfoldable pub release_flagged : Arena → Ptr → Word → Run Arena
release_flagged a ptr (link p) = fault
release_flagged a ptr (flags f) =
    if f % 2 == 1
    then release_slot a ptr
    else (free a.memory ptr >>= λ h. ok (record a { memory = h }))

unfoldable pub release : Arena → Ptr → Run Arena
release a ptr = if ptr == null then ok a else load a.memory ptr >>= λ w. release_flagged a ptr w

-- free(arena->buf): the elements of the block are gone.
unfoldable pub forget_slots : ℕ → Heap Word → Ptr → ℕ → Heap Word
forget_slots zero h buf elem_size = h
forget_slots (suc n) h buf elem_size =
    put (forget_slots n h buf elem_size) (slot_at buf elem_size n) none

unfoldable pub done : Arena → Arena
done a =
    if a.buf == null
    then a
    else record a { buf = null; memory = forget_slots a.capacity a.memory a.buf a.elem_size }
