-- ===== src/Buffer/Lifetime.antt =====
-- `TecBuffer_init_` and `TecBuffer_done`.
use tecc.Base.{ℕ, ◌^◌, ◌<◌, ◌≡◌, inl, inr, refl, arith, ◌==◌, if◌then◌else◌, Bool-cases, replicate}
use tecc.Base.Run.{ok}
use tecc.Buffer.Defs.{Buffer, Env, default_block_size, init, done}
use tecc.Buffer.Growth.{IsValid, Grants}
use tecc.Buffer.Limits.{ensure_capacity-empty}

-- A buffer that holds nothing, in a block of `capacity` bytes.
abbrev pub blank : ℕ → ℕ → Buffer
blank block_size capacity = record {
  contents = replicate capacity 0;
  pos = 0;
  size = 0;
  capacity = capacity;
  block_size = block_size;
}

-- The block size that `TecBuffer_init_` settles on.
abbrev pub block_size_of : ℕ → ℕ
block_size_of n = if n == 0 then default_block_size else n

pub blank-IsValid : (block_size : ℕ) → 0 < block_size → IsValid (blank block_size 0)
blank-IsValid block_size h = record {
  block = refl;
  within = omega arith;
  filled = omega arith;
  has_block_size = h;
  roomy = inl refl;
}

block_size_pos : (n : ℕ) → 0 < block_size_of n
block_size_pos n = ground arith

-- A new buffer holds nothing. Its capacity is 0 if none was asked for, and otherwise one block,
-- whatever the initial size that was asked for.
pub init-blank :
    (env : Env) (initial_size block_size : ℕ)
    → Grants env
    → initial_size < 2 ^ 64
    → init env initial_size block_size
      ≡ ok (
          blank
            (block_size_of block_size)
            (if initial_size == 0 then 0 else block_size_of block_size))
unfolding init
init-blank env initial_size block_size grants small = elim (Bool-cases (initial_size == 0)) [
  | inl e ↦ rw e
  | inr e ↦ rw e (
      ensure_capacity-empty env {b = blank (block_size_of block_size) 0} 0 initial_size grants
        (blank-IsValid (block_size_of block_size) (block_size_pos block_size)) refl (ground arith)
        (omega arith))
]

-- `TecBuffer_done` leaves the buffer as a new one of its block size.
pub done-blank : (b : Buffer) → done b ≡ blank b.block_size 0
unfolding done
done-blank b = refl
