-- ===== src/Arena/Ending.antt =====
-- `TecArena_done`.
use tecc.Base.{
  ℕ, zero, suc, ◌<◌, ◌≡◌, inl, inr, refl, ◌∙◌, false, none, List, arith, ◌==◌, Bool-cases, ==_iff,
}
use tecc.Base.Heap.{Ptr, null, Heap, put_self, put_ne, load, given}
use tecc.Base.Run.{fault}
use tecc.Arena.Defs.{Word, Arena, slot_at, forget_slots, done, release}
use tecc.Arena.Pool.{IsPool, at}

not_itself : (x : ℕ) → (x == x) ≡ false → ⊥
not_itself x e = ground arith

earlier :
    (i n buf elem_size : ℕ)
    → (slot_at buf elem_size i == slot_at buf elem_size n) ≡ false
    → i < suc n
    → i < n
earlier i n buf elem_size e below = elim (Bool-cases (i == n)) [
  | inl same ↦
      let z : i ≡ n = (==_iff i n).0 same in
      absurd (not_itself (slot_at buf elem_size n) (rw z at e))
  | inr other ↦ ground arith
]

release-gone : (a : Arena) (p : Ptr) → (p == null) ≡ false → a.memory p ≡ none → release a p ≡ fault
unfolding release load given
release-gone a p some_place gone = rw (some_place, gone)

forget_slots-gone :
    (n : ℕ) (h : Heap Word) (buf elem_size i : ℕ)
    → i < n
    → forget_slots n h buf elem_size (slot_at buf elem_size i) ≡ none
unfolding forget_slots
forget_slots-gone zero h buf elem_size i below = absurd (omega arith)
forget_slots-gone (suc n) h buf elem_size i below =
    let before = forget_slots n h buf elem_size in
    let here = slot_at buf elem_size n in
    let there = slot_at buf elem_size i in
    elim (Bool-cases (there == here)) [
      | inl e ↦ rw ((==_iff there here).0 e) (put_self before here none)
      | inr e ↦
          put_ne before here none there e
          ∙ forget_slots-gone n h buf elem_size i ((earlier i n buf elem_size e below))
    ]

forget_slots-kept :
    (n : ℕ) (h : Heap Word) (buf elem_size : ℕ) (q : Ptr)
    → ((i : ℕ) → i < n → (q == slot_at buf elem_size i) ≡ false)
    → forget_slots n h buf elem_size q ≡ h q
unfolding forget_slots
forget_slots-kept zero h buf elem_size q outside = refl
forget_slots-kept (suc n) h buf elem_size q outside =
    put_ne (forget_slots n h buf elem_size) (slot_at buf elem_size n) none q
      (outside n (omega arith))
    ∙ forget_slots-kept n h buf elem_size q (λ i below. outside i (omega arith))

-- TecArena_done of a well-formed arena gives back its block, with every slot of it, whether it was
-- in use or not, and nothing else: what was taken from outside the block stays. To release a
-- slot then is undefined, and there is no block to give back a second time.
pub done-gone :
    {a : Arena} {live frees : List ℕ} (i : ℕ) (q : Ptr)
    → IsPool a live frees
    → i < a.capacity
    → ((j : ℕ) → j < a.capacity → (q == at a j) ≡ false)
    → ((done a).memory (at a i) ≡ none)
      × ((done a).memory q ≡ a.memory q)
      × (release (done a) (at a i) ≡ fault)
      × (done (done a) ≡ done a)
unfolding done
done-gone {a} i q t below outside =
    let based : (a.buf == null) ≡ false = ground (arith, t.based) in
    let gone = forget_slots-gone a.capacity a.memory a.buf a.elem_size i below in
    let slot : (at a i == null) ≡ false = ground (arith, t.based) in
    (
      rw based gone,
      rw based (forget_slots-kept a.capacity a.memory a.buf a.elem_size q outside),
      release-gone (done a) (at a i) slot (rw based gone),
      rw based,
    )
