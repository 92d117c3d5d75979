-- ===== src/Buffer/Bytes.antt =====
-- Blocks of bytes: what `memcpy` writes and reads, and what a prefix of a block shows of a write.
use Prim.Native.Nat.{max}
use tecc.Base.{
  ℕ, zero, suc, ◌+◌, ◌≤◌, ◌<◌, ◌≡◌, refl, ap, ◌∙◌, List, [], ◌∷◌, ◌++◌, arith, leb, le→leb,
  lt→not_leb, if◌then◌else◌, length, take, drop, take-nil, drop-nil,
}
use tecc.Base.Run.{Run, ok, fault}

-- The bytes `src` in place of those from `p` on.
unfoldable pub splice : List ℕ → ℕ → List ℕ → List ℕ
splice [] p src = []
splice (x ∷ xs) (suc p) src = x ∷ splice xs p src
splice (x ∷ xs) zero [] = x ∷ xs
splice (x ∷ xs) zero (y ∷ src) = y ∷ splice xs zero src

-- `memcpy(dst + p, src, length src)`, a fault outside the block.
unfoldable pub memcpy : List ℕ → ℕ → List ℕ → Run (List ℕ)
memcpy dst p src = if leb (p + length src) (length dst) then ok (splice dst p src) else fault

-- The bytes that `memcpy(_, src + p, n)` reads, a fault outside the block.
unfoldable pub peek : List ℕ → ℕ → ℕ → Run (List ℕ)
peek src p n = if leb (p + n) (length src) then ok (take n (drop p src)) else fault

pub memcpy_lem :
    (dst : List ℕ) (p : ℕ) (src : List ℕ)
    → p + length src ≤ length dst
    → memcpy dst p src ≡ ok (splice dst p src)
unfolding memcpy
memcpy_lem dst p src h = rw (le→leb _ _ h)

pub memcpy-fault :
    (dst : List ℕ) (p : ℕ) (src : List ℕ) → length dst < p + length src → memcpy dst p src ≡ fault
unfolding memcpy
memcpy-fault dst p src h = rw (lt→not_leb _ _ h)

pub peek_lem :
    (src : List ℕ) (p n : ℕ) → p + n ≤ length src → peek src p n ≡ ok (take n (drop p src))
unfolding peek
peek_lem src p n h = rw (le→leb _ _ h)

pub length-splice : (xs : List ℕ) (p : ℕ) (src : List ℕ) → length (splice xs p src) ≡ length xs
unfolding splice
length-splice [] p src = refl
length-splice (x ∷ xs) (suc p) src = ap suc (length-splice xs p src)
length-splice (x ∷ xs) zero [] = refl
length-splice (x ∷ xs) zero (y ∷ src) = ap suc (length-splice xs zero src)

-- The front of a block that is written from its start.
pub take-splice_front :
    (xs src : List ℕ) → length src ≤ length xs → take (length src) (splice xs 0 src) ≡ src
unfolding splice
take-splice_front xs [] h = refl
take-splice_front [] (y ∷ src) h = absurd (omega arith)
take-splice_front (x ∷ xs) (y ∷ src) h = ap (◌∷◌ y) (take-splice_front xs src (omega arith))

-- A prefix of `s` bytes, extended to hold what is written at `p`, is the prefix before `p`, the
-- bytes written, and what stood behind them.
pub take-splice :
    (xs : List ℕ) (p s : ℕ) (src : List ℕ) (e m : ℕ)
    → p ≤ s
    → s ≤ length xs
    → e ≤ length xs
    → e ≡ p + length src
    → m ≡ max s e
    → take m (splice xs p src) ≡ take p (take s xs) ++ (src ++ drop e (take s xs))
unfolding splice
take-splice [] p s [] e m hp hs he pe pm =
    let z : p ≡ 0 = omega arith in
    rw (take-nil {A = ℕ} m, take-nil {A = ℕ} s, drop-nil {A = ℕ} e, z)
take-splice [] p s (y ∷ src) e m hp hs he pe pm = absurd (omega arith)
take-splice (x ∷ xs) (suc p) zero src e m hp hs he pe pm = absurd (omega arith)
take-splice (x ∷ xs) (suc p) (suc s) src zero m hp hs he pe pm = absurd (omega arith)
take-splice (x ∷ xs) (suc p) (suc s) src (suc e) zero hp hs he pe pm = absurd (omega arith)
take-splice (x ∷ xs) (suc p) (suc s) src (suc e) (suc m) hp hs he pe pm = ap (◌∷◌ x) (
    take-splice xs p s src e m (omega arith) (omega arith) (omega arith) (omega arith)
      (omega arith))
take-splice (x ∷ xs) zero s [] zero m hp hs he pe pm = let same : m ≡ s = omega arith in rw same
take-splice (x ∷ xs) zero s [] (suc e) m hp hs he pe pm = absurd (omega arith)
take-splice (x ∷ xs) zero s (y ∷ src) zero m hp hs he pe pm = absurd (omega arith)
take-splice (x ∷ xs) zero s (y ∷ src) (suc e) zero hp hs he pe pm = absurd (omega arith)
take-splice (x ∷ xs) zero zero (y ∷ src) (suc e) (suc m) hp hs he pe pm = ap (◌∷◌ y) (
    take-splice xs 0 0 src e m (omega arith) (omega arith) (omega arith) (omega arith) (omega arith)
    ∙ rw drop-nil)
take-splice (x ∷ xs) zero (suc s) (y ∷ src) (suc e) (suc m) hp hs he pe pm = ap (◌∷◌ y) (
    take-splice xs 0 s src e m (omega arith) (omega arith) (omega arith) (omega arith)
      (omega arith))

-- Two writes one behind the other are one write.
pub splice-splice :
    (xs : List ℕ) (p q : ℕ) (ys zs : List ℕ)
    → q ≡ p + length ys
    → q ≤ length xs
    → splice (splice xs p ys) q zs ≡ splice xs p (ys ++ zs)
unfolding splice
splice-splice [] p q ys zs e h = refl
splice-splice (x ∷ xs) (suc p) zero ys zs e h = absurd (omega arith)
splice-splice (x ∷ xs) (suc p) (suc q) ys zs e h =
    ap (◌∷◌ x) (splice-splice xs p q ys zs (omega arith) (omega arith))
splice-splice (x ∷ xs) zero zero [] zs e h = refl
splice-splice (x ∷ xs) zero (suc q) [] zs e h = absurd (omega arith)
splice-splice (x ∷ xs) zero zero (y ∷ ys) zs e h = absurd (omega arith)
splice-splice (x ∷ xs) zero (suc q) (y ∷ ys) zs e h =
    ap (◌∷◌ y) (splice-splice xs 0 q ys zs (omega arith) (omega arith))

pub splice-nil : (xs : List ℕ) (p : ℕ) → splice xs p [] ≡ xs
unfolding splice
splice-nil [] p = refl
splice-nil (x ∷ xs) zero = refl
splice-nil (x ∷ xs) (suc p) = ap (◌∷◌ x) (splice-nil xs p)
