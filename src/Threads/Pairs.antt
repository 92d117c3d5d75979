-- ===== src/Threads/Pairs.antt =====
-- An object of the system that was made is destroyed once, and the system is as before.
use tecc.Base.{ℕ, ◌≡◌, inl, inr, refl, sym, ◌∙◌, none, some, ◌==◌, Bool-cases, ==_iff}
use tecc.Base.Heap.{Ptr, Heap, put, Holds, IsFresh, fill_lem, free_lem, put_self, put_ne}
use tecc.Base.Run.{ok, ◌>>=◌, Returns}
use tecc.Threads.Defs.{System, Thread, thread_ok, thread_init, thread_create, thread_join}

module _ {Node : Type 0} {h : Heap Node} {p : Ptr} (fresh : IsFresh h p) (n : Node) where
  -- What was filled in is there to be freed, and the memory is the same at each address then.
  pub filled : Holds (put h p (some n)) p n
  filled = record { not_null = fresh.not_null; holds = put_self h p (some n) }

  pub put-put_fresh : (q : Ptr) → put (put h p (some n)) p none q ≡ h q
  put-put_fresh q = elim (Bool-cases (q == p)) [
    | inl e ↦
        let same : q ≡ p = (==_iff q p).0 e in
        rw same (put_self (put h p (some n)) p none ∙ sym fresh.unused)
    | inr e ↦ put_ne (put h p (some n)) p none q e ∙ put_ne h p (some n) q e
  ]

-- A thread that was created is joined once: TecThread_join ends without a fault, and whatever was
-- made of TecThread_create, the threads that live are those of before and nothing is left to join,
-- so that a second join does nothing.
pub create-join :
    (r : ℕ) (t func : Ptr) (self : Thread) (sys : System)
    → IsFresh sys.threads t
    → Returns (thread_create r t func (thread_init self) sys >>= λ c. thread_join c.0 c.1) λ j.
      ((q : Ptr) → j.1.threads q ≡ sys.threads q)
      × (j.1.mutexes ≡ sys.mutexes)
      × (thread_join j.0 j.1 ≡ ok j)
unfolding thread_init thread_create thread_join thread_ok
create-join r t func self sys fresh = elim (Bool-cases (r == 0)) [
  | inl e ↦ (
    (
      record { result = 22; t = t },
      record sys { threads = put (put sys.threads t (some func)) t none },
    ),
    rw (e, fill_lem sys.threads t func fresh.not_null, e, free_lem (filled fresh func)),
    (put-put_fresh fresh func, refl, refl),
  )
  | inr e ↦ ((record self { result = r }, sys), rw (e, e), ((λ q. refl), refl, rw e))
]
