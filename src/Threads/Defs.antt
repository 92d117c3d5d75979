-- ===== src/Threads/Defs.antt =====
-- tecc_threads.h, over POSIX threads: the wrappers that make and destroy objects of the system.
-- What a call of the system returns is an argument, 0 where it did what was asked. An object of the
-- system that is destroyed, or joined, while it does not live is a fault. Locks and waits go to the
-- system as they are; the parts that use them take them up.
use tecc.Base.{ℕ, Bool, ◌==◌, if◌then◌else◌}
use tecc.Base.Heap.{Ptr, Heap, fill, free}
use tecc.Base.Run.{Run, ok, ◌>>=◌}

-- The objects that live: mutexes and condition variables by their addresses, threads by their
-- handles, with the function that they run.
pub record System : Type 0 where
  pub mutexes : Heap (Unit {0})
  pub conds : Heap (Unit {0})
  pub threads : Heap Ptr

-- `m`, `c` and `t` are the addresses of the fields of that name, and the handle of the thread.
pub record Mutex : Type 0 where
  pub result : ℕ
  pub m : Ptr

pub record Cond : Type 0 where
  pub result : ℕ
  pub c : Ptr

pub record Thread : Type 0 where
  pub result : ℕ
  pub t : Ptr

unfoldable pub mutex_ok : Mutex → Bool
mutex_ok self = self.result == 0

unfoldable pub cond_ok : Cond → Bool
cond_ok self = self.result == 0

unfoldable pub thread_ok : Thread → Bool
thread_ok self = self.result == 0

unfoldable pub mutex_init : ℕ → Mutex → System → Run (Mutex × System)
mutex_init r self sys =
    if r == 0
    then (fill sys.mutexes self.m tt >>= λ live.
        ok (record self { result = r }, record sys { mutexes = live }))
    else ok (record self { result = r }, sys)

unfoldable pub mutex_destroy : Mutex → System → Run System
mutex_destroy self sys =
    if mutex_ok self
    then (free sys.mutexes self.m >>= λ live. ok (record sys { mutexes = live }))
    else ok sys

unfoldable pub cond_init : ℕ → Cond → System → Run (Cond × System)
cond_init r self sys =
    if r == 0
    then (fill sys.conds self.c tt >>= λ live.
        ok (record self { result = r }, record sys { conds = live }))
    else ok (record self { result = r }, sys)

-- `r` is what pthread_cond_destroy returns.
unfoldable pub cond_destroy : ℕ → Cond → System → Run (Cond × System)
cond_destroy r self sys =
    if cond_ok self
    then (free sys.conds self.c >>= λ live.
        ok (record self { result = r }, record sys { conds = live }))
    else ok (self, sys)

-- `TecThread_init`: a thread that was not created is not joined.
unfoldable pub thread_init : Thread → Thread
thread_init self = record self { result = 22 }

-- `t` is the handle that pthread_create gives.
unfoldable pub thread_create : ℕ → Ptr → Ptr → Thread → System → Run (Thread × System)
thread_create r t func self sys =
    if r == 0
    then (fill sys.threads t func >>= λ live.
        ok (record { result = r; t = t }, record sys { threads = live }))
    else ok (record self { result = r }, sys)

unfoldable pub thread_join : Thread → System → Run (Thread × System)
thread_join self sys =
    if thread_ok self
    then (free sys.threads self.t >>= λ live.
        ok (record self { result = 22 }, record sys { threads = live }))
    else ok (self, sys)
