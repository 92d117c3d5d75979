-- ===== src/Arena/Releasing.antt =====
-- `TecArena_release` on the slots of an arena.
use mathlib.Core.Bool.{true≢false}
use tecc.Base.{
  ℕ, ◌-◌, ◌≡◌, inl, inr, refl, sym, ◌∙◌, true, false, some, List, [], ◌∷◌, arith, ◌==◌,
  if◌then◌else◌, Bool-cases, ==_iff, length,
}
use tecc.Base.Heap.{Ptr, null, put, Holds, load_lem, store_lem, put_self}
use tecc.Base.Run.{ok, Returns}
use tecc.Arena.Defs.{flags, link, Arena, release_slot, release_flagged, release}
use tecc.Arena.Pool.{
  elem, without, at, stop, step, frame, IsPool, elem-without_self, elem-without, Distinct-without,
  length-without,
}
use tecc.Arena.Slots.{elem-ne, slot_holds, other_slot, still_backed}

nil_of_length : (js : List ℕ) → length js ≡ 0 → js ≡ []
nil_of_length [] e = refl
nil_of_length (j ∷ js) e = absurd (omega (arith, e))

abbrev released : Arena → Ptr → Ptr → Arena
released a ptr first = record a {
  memory = put a.memory ptr (some (link a.free_list));
  free_list = first;
  allocated = a.allocated - 1;
}

release_steps :
    (a : Arena) (ptr : Ptr)
    → Holds a.memory ptr (flags 1)
    → release a ptr ≡ ok (released a ptr (if a.allocated - 1 == 0 then null else ptr))
unfolding release release_flagged release_slot
release_steps a ptr there = rw (there.not_null, load_lem there, store_lem there (link a.free_list))

module _ {a : Arena} {live frees : List ℕ} (t : IsPool a live frees) (i : ℕ)
    (inside : elem i live ≡ true) where
  not_self : (j : ℕ) → elem j (without i live) ≡ true → (j == i) ≡ false
  not_self j there = elem-ne j i (without i live) there (elem-without_self i live t.once_live)

  -- The last slot in use was released, and the free list is reset.
  reset-IsPool : a.allocated - 1 ≡ 0 → IsPool (released a (at a i) null) (without i live) []
  unfolding elem
  reset-IsPool none_left =
      let count = t.counted in
      let shorter = length-without i live inside in
      let gone : without i live ≡ [] = nil_of_length (without i live) (omega arith) in
      rw gone (record {
        sized = t.sized;
        based = t.based;
        listed = stop refl;
        once_live = tt;
        once_free = tt;
        apart = λ j there. refl;
        live_below = λ j there. absurd (true≢false (sym there));
        free_below = λ j there. absurd (true≢false (sym there));
        fits = omega arith;
        counted = none_left;
        marked = λ j there. absurd (true≢false (sym there));
        backed = still_backed t (link a.free_list) i;
      })

  listed-IsPool : IsPool (released a (at a i) (at a i)) (without i live) (i ∷ frees)
  unfolding elem
  listed-IsPool =
      let count = t.counted in
      let shorter = length-without i live inside in
      record {
        sized = t.sized;
        based = t.based;
        listed = step refl (put_self a.memory (at a i) _) (
            frame t.listed (λ j there.
              other_slot t (link a.free_list) i j (elem-ne j i frees there (t.apart i inside))));
        once_live = Distinct-without i live t.once_live;
        once_free = (t.apart i inside, t.once_free);
        apart = λ j there. rw (not_self j there) (t.apart j (elem-without i j live there));
        live_below = λ j there. omega (arith, t.live_below j (elem-without i j live there));
        free_below = λ j there. elim (Bool-cases (j == i)) [
          | inl e ↦ let same : j ≡ i = (==_iff j i).0 e in omega (arith, t.live_below i inside)
          | inr e ↦ omega (arith, t.free_below j (rw e at there))
        ];
        fits = omega (arith, t.fits);
        counted = omega arith;
        marked = λ j there.
            other_slot t (link a.free_list) i j (not_self j there)
            ∙ t.marked j (elem-without i j live there);
        backed = still_backed t (link a.free_list) i;
      }

-- `TecArena_release` of a slot in use of a well-formed arena ends and does not fault; the slot is
-- in use no more, the others are, and the arena stays well formed, in the same block.
pub release-IsPool :
    {a : Arena} {live frees : List ℕ} (i : ℕ)
    → IsPool a live frees
    → elem i live ≡ true
    → Returns (release a (at a i)) λ a'.
      (frees' : List ℕ) × IsPool a' (without i live) frees'
      × (a'.buf ≡ a.buf)
      × (a'.elem_size ≡ a.elem_size)
unfolding elem
release-IsPool {a} {live} {frees} i t inside =
    let run = release_steps a (at a i) (slot_holds t i (flags 1) (t.marked i inside)) in
    elim (Bool-cases (a.allocated - 1 == 0)) [
      | inl e ↦ (
        released a (at a i) null,
        run ∙ rw e,
        ([], reset-IsPool t i inside ((==_iff (a.allocated - 1) 0).0 e), refl, refl),
      )
      | inr e ↦ (
        released a (at a i) (at a i),
        run ∙ rw e,
        (i ∷ frees, listed-IsPool t i inside, refl, refl),
      )
    ]
