-- ===== src/Examples/Arenas.antt =====
-- tecc_arena.c at concrete arenas.
use tecc.Base.{
  ℕ, zero, suc, ◌<◌, ◌≡◌, refl, true, none, some, List, [], ◌∷◌, arith, ◌==◌, if◌then◌else◌,
}
use tecc.Base.Heap.{null, Heap, put, given, load, store, free}
use tecc.Base.Run.{Run, ok, ◌>>=◌, Returns}
use tecc.Arena.Defs.{
  Word, flags, link, Arena, slot_at, zero_slots, init, next_of, take_slot, from_heap, allocate,
  release_slot, release_flagged, release,
}
use tecc.Arena.Pool.{elem, without, stop, step, IsPool}
use tecc.Arena.Methods.{Allocated, allocate-Allocated}
use tecc.Arena.Releasing.{release-IsPool}

program : Unit {0}
unfolding zero_slots init next_of take_slot from_heap allocate release_slot release_flagged release
    put given load store free elem without
program = tt

abbrev nothing : Arena
nothing = record {
  memory = λ _. none;
  buf = 0;
  elem_size = 0;
  capacity = 0;
  allocated = 0;
  free_list = 0;
}

-- Two elements fill the arena, the third comes from calloc, and a released slot is used again.
abbrev session : Run (List ℕ)
session = do
  r₁ ← allocate (init nothing true 64 2 16).1 500
  r₂ ← allocate r₁.1 500
  r₃ ← allocate r₂.1 500
  a ← release r₃.1 64
  r₄ ← allocate a 600
  b ← release r₄.1 500
  c ← release b 64
  d ← release c 80
  ok (r₁.0 ∷ r₂.0 ∷ r₃.0 ∷ r₄.0 ∷ d.allocated ∷ d.free_list ∷ [])

session_test : session ≡ ok (64 ∷ 80 ∷ 500 ∷ 64 ∷ 0 ∷ 0 ∷ [])
unfolding program
session_test = refl

abbrev pub words : Heap Word
words p = if p == 64 then some (flags 1) else (if p == 80 then some (link null) else none)

-- Slot 0 is in use, and slot 1 was released.
abbrev pub half : Arena
half = record {
  memory = words;
  buf = 64;
  elem_size = 16;
  capacity = 2;
  allocated = 1;
  free_list = 80;
}

pub half-IsPool : IsPool half (0 ∷ []) (1 ∷ [])
unfolding elem
half-IsPool = record {
  sized = omega arith;
  based = omega arith;
  listed = step refl refl (stop refl);
  once_live = (refl, tt);
  once_free = (refl, tt);
  apart = λ i inside. ground arith;
  live_below = λ i inside. ground arith;
  free_below = λ i inside. ground arith;
  fits = omega arith;
  counted = refl;
  marked = λ i inside. ground arith;
  backed = half_backed;
}
  where
    half_backed : (i : ℕ) → i < 2 → (w : Word) × (words (slot_at 64 16 i) ≡ some w)
    half_backed zero h = (flags 1, refl)
    half_backed (suc zero) h = (link null, refl)
    half_backed (suc (suc i)) h = absurd (omega arith)

allocate-Allocated_example : Returns (allocate half 500) (Allocated half (0 ∷ []) (1 ∷ []) 500)
allocate-Allocated_example = allocate-Allocated 500 half-IsPool refl

release-IsPool_example : Returns (release half 64) λ a'.
    (frees' : List ℕ) × IsPool a' (without 0 (0 ∷ [])) frees'
    × (a'.buf ≡ half.buf)
    × (a'.elem_size ≡ half.elem_size)
unfolding elem
release-IsPool_example = release-IsPool 0 half-IsPool refl
