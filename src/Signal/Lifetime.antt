-- ===== src/Signal/Lifetime.antt =====
-- The objects of a signal live from TecSignal_init to TecSignal_done.
use tecc.Base.{ℕ, ◌≡◌, ◌⊎◌, inl, inr, refl, true, false, ◌&&◌, some, none, ◌==◌, Bool-cases, arith}
use tecc.Base.Heap.{Ptr, put, IsFresh, fill_lem, free_lem, free, free-fault, put_self}
use tecc.Base.Run.{ok, fault, ◌>>=◌, Returns}
use tecc.Threads.Defs.{
  System, mutex_ok, cond_ok, mutex_init, mutex_destroy, cond_init, cond_destroy,
}
use tecc.Threads.Pairs.{filled, put-put_fresh}
use tecc.Signal.Objects.{Objects, init_objects, done_objects}

-- The same objects live.
pub record Same (a b : System) : Type 0 where
  pub mutexes : (q : Ptr) → a.mutexes q ≡ b.mutexes q
  pub conds : (q : Ptr) → a.conds q ≡ b.conds q
  pub threads : a.threads ≡ b.threads

module _ (sig : Objects) (sys : System) (free_mutex : IsFresh sys.mutexes sig.mtx.m)
    (free_cond : IsFresh sys.conds sig.cnd.c) where
  abbrev with_mutex : System
  with_mutex = record sys { mutexes = put sys.mutexes sig.mtx.m (some tt) }

  abbrev with_both : System
  with_both = record with_mutex { conds = put sys.conds sig.cnd.c (some tt) }

  abbrev made : Objects
  made = record sig { mtx = record (sig.mtx) { result = 0 }; cnd = record (sig.cnd) { result = 0 } }

  mutex_made : mutex_init 0 sig.mtx sys ≡ ok (record (sig.mtx) { result = 0 }, with_mutex)
  unfolding mutex_init
  mutex_made = rw (fill_lem sys.mutexes sig.mtx.m tt free_mutex.not_null)

  cond_made : cond_init 0 sig.cnd with_mutex ≡ ok (record (sig.cnd) { result = 0 }, with_both)
  unfolding cond_init
  cond_made = rw (fill_lem sys.conds sig.cnd.c tt free_cond.not_null)

  both_made : init_objects 0 0 sig sys ≡ ok (true, made, with_both)
  unfolding init_objects mutex_ok cond_ok
  both_made = rw (mutex_made, cond_made)

  both_gone : (r : ℕ) → Returns (done_objects r made with_both) λ d. Same d.1 sys
  unfolding done_objects cond_destroy cond_ok mutex_destroy mutex_ok
  both_gone r = (
    (
      record made { cnd = record (sig.cnd) { result = r } },
      record sys {
        conds = put (put sys.conds sig.cnd.c (some tt)) sig.cnd.c none;
        mutexes = put (put sys.mutexes sig.mtx.m (some tt)) sig.mtx.m none;
      },
    ),
    rw (free_lem (filled free_cond tt), free_lem (filled free_mutex tt)),
    record {
      mutexes = put-put_fresh free_mutex tt;
      conds = put-put_fresh free_cond tt;
      threads = refl;
    },
  )

  abbrev without_mutex : System
  without_mutex = record sys { mutexes = put (put sys.mutexes sig.mtx.m (some tt)) sig.mtx.m none }

  abbrev half_made : ℕ → Objects
  half_made c = record sig {
    mtx = record (sig.mtx) { result = 0 };
    cnd = record (sig.cnd) { result = c };
  }

  no_cond :
      (c : ℕ) → (c == 0) ≡ false → init_objects 0 c sig sys ≡ ok (false, half_made c, without_mutex)
  unfolding init_objects mutex_ok cond_ok cond_init mutex_destroy
  no_cond c e = rw (mutex_made, e, e, free_lem (filled free_mutex tt))

  no_mutex :
      (m c : ℕ)
      → (m == 0) ≡ false
      → init_objects m c sig sys
        ≡ ok (false, record sig { mtx = record (sig.mtx) { result = m } }, sys)
  unfolding init_objects mutex_init mutex_ok
  no_mutex m c e = rw (e, e)

-- TecSignal_init of a signal whose objects do not live yet ends without a fault. It returns true
-- exactly where the system makes both the mutex and the condition variable; TecSignal_done
-- destroys both then. Where it returns false, what was made of the two is destroyed already.
pub init_objects-done_objects :
    (m c r : ℕ) (sig : Objects) (sys : System)
    → IsFresh sys.mutexes sig.mtx.m
    → IsFresh sys.conds sig.cnd.c
    → Returns (init_objects m c sig sys) λ i.
      (((m == 0 && c == 0) ≡ true)
        × (i.0 ≡ true)
        × Returns (done_objects r i.1 i.2) (λ d. Same d.1 sys))
      ⊎ (((m == 0 && c == 0) ≡ false) × (i.0 ≡ false) × Same i.2 sys)
init_objects-done_objects m c r sig sys free_mutex free_cond = elim (Bool-cases (m == 0)) [
  | inl e ↦ elim (Bool-cases (c == 0)) [
    | inl e' ↦
        let zero_m : m ≡ 0 = ground arith in
        let zero_c : c ≡ 0 = ground arith in
        (
          (true, made sig sys free_mutex free_cond, with_both sig sys free_mutex free_cond),
          rw (zero_m, zero_c) (both_made sig sys free_mutex free_cond),
          inl (rw (e, e'), refl, both_gone sig sys free_mutex free_cond r),
        )
    | inr e' ↦
        let zero_m : m ≡ 0 = ground arith in
        (
          (
            false,
            half_made sig sys free_mutex free_cond c,
            without_mutex sig sys free_mutex free_cond,
          ),
          rw zero_m (no_cond sig sys free_mutex free_cond c e'),
          inr (
            rw (e, e'),
            refl,
            record { mutexes = put-put_fresh free_mutex tt; conds = λ q. refl; threads = refl },
          ),
        )
  ]
  | inr e ↦ (
    (false, record sig { mtx = record (sig.mtx) { result = m } }, sys),
    no_mutex sig sys free_mutex free_cond m c e,
    inr (rw e, refl, record { mutexes = λ q. refl; conds = λ q. refl; threads = refl }),
  )
]

-- Where the system makes the mutex but not the condition variable, TecSignal_done after the failed
-- TecSignal_init destroys the mutex a second time.
pub done_objects-fault :
    (c r : ℕ) (sig : Objects) (sys : System)
    → IsFresh sys.mutexes sig.mtx.m
    → IsFresh sys.conds sig.cnd.c
    → (c == 0) ≡ false
    → (init_objects 0 c sig sys >>= λ i. done_objects r i.1 i.2) ≡ fault
unfolding done_objects cond_destroy cond_ok mutex_destroy mutex_ok
done_objects-fault c r sig sys free_mutex free_cond e =
    let gone : free (put (put sys.mutexes sig.mtx.m (some tt)) sig.mtx.m none) sig.mtx.m ≡ fault =
      free-fault _ sig.mtx.m (put_self (put sys.mutexes sig.mtx.m (some tt)) sig.mtx.m none) in
    rw (no_cond sig sys free_mutex free_cond c e, e) (rw gone)
