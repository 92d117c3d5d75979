-- ===== src/Arena/Creation.antt =====
-- `TecArena_init` makes an arena with no slot in use.
use mathlib.Core.Bool.{true≢false}
use tecc.Base.{
  ℕ, zero, suc, ◌<◌, ◌≡◌, inl, inr, refl, sym, ap, ◌∙◌, true, false, some, [], arith, ◌==◌,
  Bool-cases, ==_iff,
}
use tecc.Base.Heap.{null, Heap, put, put_ne, put_self}
use tecc.Arena.Defs.{Word, flags, Arena, slot_at, zero_slots, init}
use tecc.Arena.Pool.{elem, stop, IsPool, slot_ne}

zero_slots_lem :
    (n : ℕ) (h : Heap Word) (buf size i : ℕ)
    → 0 < size
    → i < n
    → zero_slots n h buf size (slot_at buf size i) ≡ some (flags 0)
unfolding zero_slots
zero_slots_lem zero h buf size i pos below = absurd (omega arith)
zero_slots_lem (suc n) h buf size i pos below = elim (Bool-cases (i == n)) [
  | inl e ↦
      ap
        (λ (k : ℕ).
          put (zero_slots n h buf size) (slot_at buf size n) (some (flags 0)) (slot_at buf size k))
        ((==_iff i n).0 e)
      ∙ put_self _ (slot_at buf size n) (some (flags 0))
  | inr e ↦
      put_ne _ (slot_at buf size n) (some (flags 0)) (slot_at buf size i)
        (slot_ne buf size i n pos e)
      ∙ zero_slots_lem n h buf size i pos (ground arith)
]

-- `TecArena_init` with a mutex and a block for elements of a positive size makes a well-formed
-- arena of the capacity asked for, with no slot in use.
pub init-IsPool :
    (a : Arena) (p nelems elem_size : ℕ)
    → 0 < p
    → 0 < nelems
    → 0 < elem_size
    → ((init a true p nelems elem_size).0 ≡ true)
      × IsPool (init a true p nelems elem_size).1 [] []
      × ((init a true p nelems elem_size).1.capacity ≡ nelems)
unfolding init elem
init-IsPool a p nelems elem_size some_place some_slots sized =
    let e : (nelems == 0) ≡ false = ground arith in
    let e' : (p == null) ≡ false = ground arith in
    rw (e, e')
      (
        refl,
        record {
          sized = sized;
          based = some_place;
          listed = stop refl;
          once_live = tt;
          once_free = tt;
          apart = λ i inside. refl;
          live_below = λ i inside. absurd (true≢false (sym inside));
          free_below = λ i inside. absurd (true≢false (sym inside));
          fits = omega arith;
          counted = refl;
          marked = λ i inside. absurd (true≢false (sym inside));
          backed = λ i h. (flags 0, zero_slots_lem nelems a.memory p elem_size i sized h);
        },
        refl,
      )
