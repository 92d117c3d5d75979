-- ===== src/Arena/Methods.antt =====
-- `TecArena_allocate` on the slots of an arena.
use mathlib.Core.Path.{subst}
use mathlib.Core.Bool.{true≢false}
use tecc.Base.{
  ℕ, suc, ◌+◌, ◌≤◌, ◌<◌, ◌≡◌, inl, inr, refl, sym, ap, ◌∙◌, true, false, none, some, List, [], ◌∷◌,
  arith, ltb, ◌==◌, if◌then◌else◌, Bool-cases, ==_iff, length,
}
use tecc.Base.Heap.{Ptr, null, put, Holds, load_lem, store_lem, put_self}
use tecc.Base.Run.{ok, Returns}
use tecc.Arena.Defs.{Word, flags, link, Arena, next_of, take_slot, from_heap, allocate}
use tecc.Arena.Pool.{elem, Distinct, at, FreeList, stop, step, frame, IsPool}
use tecc.Arena.Slots.{elem-ne, slot_holds, other_slot, still_backed, put-IsPool}

-- What a call of allocate gives: a slot that was not in use, or, where every slot is in use, what
-- calloc gives.
pub data Allocated (a : Arena) (live frees : List ℕ) (p : Ptr) : Ptr × Arena → Type 0 where
  in_block :
      {r : Ptr × Arena} (i : ℕ) (frees' : List ℕ)
      → r.0 ≡ at a i
      → i < a.capacity
      → elem i live ≡ false
      → IsPool r.1 (i ∷ live) frees'
      → Allocated a live frees p r
  outside :
      length live ≡ a.capacity
      → IsPool (from_heap a p).1 live frees
      → Allocated a live frees p (from_heap a p)

abbrev taken : Arena → ℕ → Ptr → Arena
taken a i next = record a {
  memory = put a.memory (at a i) (some (flags 1));
  free_list = next;
  allocated = a.allocated + 1;
}

module _ {a : Arena} {live frees : List ℕ} (t : IsPool a live frees) where
  -- The flag is set in the slot `i`, which leaves the free list, whose rest is `frees'`.
  taken-IsPool :
      (i : ℕ) (next : Ptr) (frees' : List ℕ)
      → elem i live ≡ false
      → elem i frees' ≡ false
      → FreeList (at a) a.memory next frees'
      → Distinct frees'
      → ((j : ℕ) → elem j frees' ≡ true → elem j frees ≡ true)
      → i < suc (length live) + length frees'
      → suc (length live) + length frees' ≤ a.capacity
      → length live + length frees ≤ suc (length live) + length frees'
      → IsPool (taken a i next) (i ∷ live) frees'
  unfolding elem
  taken-IsPool i next frees' out out' listed once part below fits grows = record {
    sized = t.sized;
    based = t.based;
    listed = frame listed (λ j inside. other_slot t (flags 1) i j (elem-ne j i frees' inside out'));
    once_live = (out, t.once_live);
    once_free = once;
    apart = λ j inside. elim (Bool-cases (j == i)) [
      | inl e ↦ ap (λ (k : ℕ). elem k frees') ((==_iff j i).0 e) ∙ out'
      | inr e ↦ elim (Bool-cases (elem j frees')) [
        | inl unused ↦ absurd (true≢false (sym (part j unused) ∙ t.apart j (rw e at inside)))
        | inr o ↦ o
      ]
    ];
    live_below = λ j inside. elim (Bool-cases (j == i)) [
      | inl e ↦ let same : j ≡ i = (==_iff j i).0 e in omega arith
      | inr e ↦ omega (arith, t.live_below j (rw e at inside))
    ];
    free_below = λ j inside. omega (arith, t.free_below j (part j inside));
    fits = fits;
    counted = let count = t.counted in omega arith;
    marked = λ j inside. elim (Bool-cases (j == i)) [
      | inl e ↦
          ap (λ (k : ℕ). put a.memory (at a i) (some (flags 1)) (at a k)) ((==_iff j i).0 e)
          ∙ put_self a.memory (at a i) (some (flags 1))
      | inr e ↦ other_slot t (flags 1) i j e ∙ t.marked j (rw e at inside)
    ];
    backed = still_backed t (flags 1) i;
  }

from_heap-IsPool :
    {a : Arena} {live frees : List ℕ}
    → IsPool a live frees
    → (p : Ptr) → a.memory p ≡ none
    → IsPool (from_heap a p).1 live frees
unfolding from_heap
from_heap-IsPool t p unused = elim (Bool-cases (p == null)) [
  | inl e ↦ rw e t
  | inr e ↦ rw e (put-IsPool p _ t unused)
]

taken_steps :
    (a : Arena) (p ptr next : Ptr) (w : Word)
    → take_slot a ≡ ok (ptr, next)
    → Holds a.memory ptr w
    → allocate a p
      ≡ ok (
        ptr,
        record a {
          memory = put a.memory ptr (some (flags 1));
          free_list = next;
          allocated = a.allocated + 1;
        },
      )
unfolding allocate
taken_steps a p ptr next w run there = rw (run, there.not_null, store_lem there (flags 1))

full_steps :
    (a : Arena) (p : Ptr)
    → a.free_list ≡ null
    → take_slot a ≡ ok (null, null)
    → allocate a p ≡ ok (from_heap a p)
unfolding allocate
full_steps a p e run =
    rw run (ap (λ (l : Ptr). ok (from_heap (record a { free_list = l }) p)) (sym e))

take_new :
    (a : Arena)
    → a.free_list ≡ null
    → take_slot a ≡ ok (if ltb a.allocated a.capacity then at a a.allocated else null, null)
unfolding take_slot
take_new a e = rw e

take_free :
    (a : Arena) (next : Ptr)
    → Holds a.memory a.free_list (link next)
    → take_slot a ≡ ok (a.free_list, next)
unfolding take_slot next_of
take_free a next there = rw (there.not_null, load_lem there)

allocate_lem :
    {a : Arena} {live : List ℕ} (frees : List ℕ) (p : Ptr)
    → IsPool a live frees
    → a.memory p ≡ none
    → FreeList (at a) a.memory a.free_list frees
    → Returns (allocate a p) (Allocated a live frees p)
unfolding elem
allocate_lem {a} {live} [] p t unused (stop e) = elim (Bool-cases (ltb a.allocated a.capacity)) [
  | inl room ↦
      let i = a.allocated in
      let count = t.counted in
      let (w, there) = t.backed i (ground arith) in
      let out : elem i live ≡ false = elim (Bool-cases (elem i live)) [
        | inl inside ↦ absurd (omega (arith, t.live_below i inside))
        | inr o ↦ o
      ] in
      (
        (at a i, taken a i null),
        taken_steps a p (at a i) null w (take_new a e ∙ rw room) (slot_holds t i w there),
        in_block i [] refl (ground arith) out (
            taken-IsPool t i null [] out refl (stop refl) tt (λ j h. h) (omega arith) (ground arith)
              (omega arith)),
      )
  | inr full ↦
      let count = t.counted in
      let fits = t.fits in
      (
        from_heap a p,
        full_steps a p e (take_new a e ∙ rw full),
        outside (ground arith) (from_heap-IsPool t p unused),
      )
]
allocate_lem {a} {live} (i ∷ is) p t unused (step {q} e there rest) =
    let out : elem i live ≡ false = elim (Bool-cases (elem i live)) [
      | inl inside ↦ absurd (true≢false (sym (ground arith) ∙ t.apart i inside))
      | inr o ↦ o
    ] in
    let there' : a.memory (at a i) ≡ some (link q) = sym (ap a.memory e) ∙ there in
    let holds = slot_holds t i (link q) there' in
    let holds' : Holds a.memory a.free_list (link q) =
      subst (λ (x : Ptr). Holds a.memory x (link q)) (sym e) holds in
    let below : i < length live + suc (length is) = t.free_below i (ground arith) in
    let fits = t.fits in
    (
      (at a i, taken a i q),
      taken_steps a p (at a i) q (link q) (take_free a q holds' ∙ ap (λ (x : Ptr). ok (x, q)) e)
          holds,
      in_block i is refl (omega arith) out (
          taken-IsPool t i q is out t.once_free.0 rest t.once_free.1 (λ j h. ground arith)
            (omega arith) (omega arith) (omega arith)),
    )

-- `TecArena_allocate` of a well-formed arena ends and does not fault. It returns a slot of the
-- block that is not in use, or, where every slot is in use, what calloc returns, which is memory
-- not in use or NULL; the arena stays well formed.
pub allocate-Allocated :
    {a : Arena} {live frees : List ℕ} (p : Ptr)
    → IsPool a live frees
    → a.memory p ≡ none
    → Returns (allocate a p) (Allocated a live frees p)
allocate-Allocated {frees} p t unused = allocate_lem frees p t unused t.listed
