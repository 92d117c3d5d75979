-- ===== src/ThreadPool/Payload.antt =====
-- Pieces of the payload arena.
use native.Mathlib.Nat.{mul-le-mul_right, suc-mul}
use tecc.Base.{
  ℕ, zero, suc, ◌+◌, ◌*◌, ◌≤◌, ◌<◌, ◌≡◌, ◌≢◌, ◌⊎◌, inl, inr, refl, ap, List, [], ◌∷◌, arith, length,
  take, drop,
}
use tecc.Buffer.Bytes.{splice, take-splice_front}

drop-splice :
    (xs : List ℕ) (p : ℕ) (src : List ℕ) → drop p (splice xs p src) ≡ splice (drop p xs) 0 src
unfolding splice
drop-splice [] zero src = refl
drop-splice [] (suc p) src = refl
drop-splice (x ∷ xs) zero src = refl
drop-splice (x ∷ xs) (suc p) src = drop-splice xs p src

length-drop : (xs : List ℕ) (p : ℕ) → p ≤ length xs → length (drop p xs) + p ≡ length xs
length-drop xs zero h = omega arith
length-drop [] (suc p) h = absurd (omega arith)
length-drop (x ∷ xs) (suc p) h = omega (arith, length-drop xs p (omega arith))

-- What was spliced in stands there.
pub take-splice_at :
    (xs : List ℕ) (p n : ℕ) (src : List ℕ)
    → n ≡ length src
    → p + n ≤ length xs
    → take n (drop p (splice xs p src)) ≡ src
take-splice_at xs p n src e h =
    let fits : length src ≤ length (drop p xs) = omega (arith, length-drop xs p (omega arith)) in
    rw (drop-splice xs p src, e) (take-splice_front (drop p xs) src fits)

-- What stands before or behind it is left alone.
before :
    (xs : List ℕ) (p o n : ℕ) (src : List ℕ)
    → o + n ≤ p
    → take n (drop o (splice xs p src)) ≡ take n (drop o xs)
unfolding splice
before [] p o n src h = refl
before (x ∷ xs) zero zero zero src h = refl
before (x ∷ xs) zero zero (suc n) src h = absurd (omega arith)
before (x ∷ xs) zero (suc o) n src h = absurd (omega arith)
before (x ∷ xs) (suc p) zero zero src h = refl
before (x ∷ xs) (suc p) zero (suc n) src h = ap (◌∷◌ x) (before xs p 0 n src (omega arith))
before (x ∷ xs) (suc p) (suc o) n src h = before xs p o n src (omega arith)

behind :
    (xs : List ℕ) (p o : ℕ) (src : List ℕ)
    → p + length src ≤ o
    → drop o (splice xs p src) ≡ drop o xs
unfolding splice
behind [] p o src h = refl
behind (x ∷ xs) zero o [] h = refl
behind (x ∷ xs) zero zero (y ∷ src) h = absurd (omega arith)
behind (x ∷ xs) zero (suc o) (y ∷ src) h = behind xs 0 o src (omega arith)
behind (x ∷ xs) (suc p) zero src h = absurd (omega arith)
behind (x ∷ xs) (suc p) (suc o) src h = behind xs p o src (omega arith)

lt_or_gt : (i j : ℕ) → i ≢ j → (i < j) ⊎ (j < i)
lt_or_gt i j ne = omega arith

-- Pieces lie one behind the other.
pub pieces-le : (i n s : ℕ) → i < n → i * s + s ≤ n * s
pieces-le i n s h = let below = mul-le-mul_right s h in omega (arith, below, suc-mul i s)

-- What is copied to one piece leaves the others alone.
pub other_piece :
    (xs : List ℕ) (i j s : ℕ) (src : List ℕ)
    → length src ≡ s
    → i ≢ j
    → take s (drop (j * s) (splice xs (i * s) src)) ≡ take s (drop (j * s) xs)
other_piece xs i j s src e ne = elim (lt_or_gt i j ne) [
  | inl h ↦ ap (take s) (behind xs (i * s) (j * s) src (omega (arith, pieces-le i j s h)))
  | inr h ↦ before xs (i * s) (j * s) s src (pieces-le j i s h)
]
