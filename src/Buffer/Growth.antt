-- ===== src/Buffer/Growth.antt =====
-- What `ensure_capacity` promises, and what a well-formed buffer is.
use Prim.Native.Nat.{max}
use tecc.Base.{
  ℕ, zero, suc, ◌+◌, ◌*◌, ◌/◌, ◌%◌, ◌^◌, ◌≤◌, ◌<◌, ◌≡◌, ◌⊎◌, inl, inr, refl, ap, ◌∙◌, Bool, true,
  false, List, [], ◌∷◌, arith, ltb, leb, ◌==◌, if◌then◌else◌, u64, lt→not_leb, le→not_ltb,
  Bool-cases, length, take, replicate, length-replicate, length-take,
}
use tecc.Base.Run.{ok, Returns}
use tecc.Buffer.Bytes.{splice, memcpy_lem, peek_lem, length-splice, take-splice_front}
use tecc.Buffer.Defs.{
  int_size, Buffer, Env, on_error, move_contents, realloc_buffer, first_capacity, raise_capacity,
  ensure_capacity,
}

-- A block of the capacity, the position within the contents, and a capacity that is none or at
-- least a block.
pub record IsValid (b : Buffer) : Type 0 where
  pub block : length b.contents ≡ b.capacity
  pub within : b.pos ≤ b.size
  pub filled : b.size ≤ b.capacity
  pub has_block_size : 0 < b.block_size
  pub roomy : (b.capacity ≡ 0) ⊎ (b.block_size ≤ b.capacity)

-- The bytes that the buffer holds, whatever its capacity.
abbrev pub view : Buffer → List ℕ
view b = take b.size b.contents

-- Requests are granted.
abbrev pub Grants : Env → Type 0
Grants env = (n : ℕ) → env.can_alloc n ≡ true

-- The sizes stay away from the end of size_t and of long.
abbrev pub IsSmall : Buffer → ℕ → Type 0
IsSmall b len = b.capacity + b.block_size + b.pos + len < 2 ^ 63

-- The first request of an empty buffer fits one block.
abbrev pub HasRoom : Buffer → ℕ → Type 0
HasRoom b len = (0 < b.capacity) ⊎ (len ≤ b.block_size)

-- `t` is `b` with a capacity of at least `n` bytes.
pub record Grown (b : Buffer) (n : ℕ) (t : Buffer) : Type 0 where
  pub valid : IsValid t
  pub room : n ≤ t.capacity
  pub same_view : view t ≡ view b
  pub same_pos : t.pos ≡ b.pos
  pub same_size : t.size ≡ b.size
  pub same_block_size : t.block_size ≡ b.block_size
  pub bounded : t.capacity ≤ b.capacity + b.block_size + n
  pub lean : 0 < b.capacity → t.capacity ≤ max b.capacity (2 * n)

pub length-view : {b : Buffer} → IsValid b → length (view b) ≡ b.size
length-view {b} v = omega (arith, length-take b.size b.contents, v.block, v.filled)

move_contents_lem :
    (old : List ℕ) (size new : ℕ)
    → size ≤ length old
    → length old ≤ new
    → Returns
        (move_contents old size new)
        λ moved. (length moved ≡ new) × (take size moved ≡ take size old)
unfolding move_contents
move_contents_lem [] zero new le fits = (_, refl, (length-replicate new 0, refl))
move_contents_lem [] (suc size) new le fits = absurd (omega arith)
move_contents_lem (x ∷ old) size new le fits =
    let kept = take size (x ∷ old) in
    let n : length kept ≡ size = omega (arith, length-take size (x ∷ old)) in
    let zeros : List ℕ = replicate new 0 in
    let room : length zeros ≡ new = length-replicate new 0 in
    let front = take-splice_front zeros kept (omega arith) in
    (
      splice zeros 0 kept,
      rw (peek_lem (x ∷ old) 0 size (omega arith)) (memcpy_lem zeros 0 kept (omega arith)),
      (length-splice zeros 0 kept ∙ room, rw n at front),
    )

raise_capacity_lem :
    (fuel : ℕ) (b : Buffer) (new : ℕ) → b.capacity ≤ new → raise_capacity (suc fuel) b new ≡ ok new
unfolding raise_capacity
raise_capacity_lem fuel b new le = rw (le→not_ltb new b.capacity le)

whole_blocks : (n d : ℕ) → 0 < d → (n < n / d * d + d) × (n / d * d ≤ n)
whole_blocks n d h = omega (arith)

gt_zero : {n : ℕ} → 0 < n → (n == 0) ≡ false
gt_zero h = ground arith

-- The new capacity: one block, or the whole blocks below the end on top of what there is.
pub first_capacity_lem :
    {b : Buffer} (n : ℕ)
    → IsValid b
    → b.capacity < n
    → b.capacity + b.block_size + n < 2 ^ 63
    → (0 < b.capacity) ⊎ (n ≤ b.block_size)
    → Returns (first_capacity b n) λ new.
      (n ≤ new)
      × (b.block_size ≤ new)
      × (new ≤ b.capacity + b.block_size + n)
      × (0 < b.capacity → new ≤ 2 * n)
unfolding first_capacity
first_capacity_lem {b} n v more small room = elim (Bool-cases (b.capacity == 0)) [
  | inl e ↦
      let none_yet : b.capacity ≡ 0 = ground arith in
      (b.block_size, rw e, (ground arith, ground arith, ground arith, λ h. absurd (omega arith)))
  | inr e ↦
      let (above, below) = whole_blocks n b.block_size v.has_block_size in
      let nonzero : 0 < b.capacity = ground arith in
      (
        b.capacity + n / b.block_size * b.block_size,
        rw (e, gt_zero v.has_block_size) (ap ok (omega arith)),
        (omega arith, omega arith, omega arith, λ h. omega arith),
      )
]

-- A request that is granted gives a block of the new capacity with the same bytes in front.
realloc_buffer-Grown :
    (env : Env) {b : Buffer} (n new : ℕ)
    → Grants env
    → IsValid b
    → n ≤ new
    → b.capacity < new
    → b.block_size ≤ new
    → new ≤ b.capacity + b.block_size + n
    → (0 < b.capacity → new ≤ 2 * n)
    → (t : Buffer) × (realloc_buffer env b new ≡ ok (true, t)) × Grown b n t
unfolding realloc_buffer
realloc_buffer-Grown env {b} n new grants v le more roomy bounded lean =
    let (moved, run, (len, same)) =
      move_contents_lem b.contents b.size new (omega arith) (omega arith) in
    (
      record b { contents = moved; capacity = new },
      rw (lt→not_leb new b.capacity more, grants new, run),
      record {
        valid = record {
          block = len;
          within = v.within;
          filled = omega arith;
          has_block_size = v.has_block_size;
          roomy = inr roomy;
        };
        room = le;
        same_view = same;
        same_pos = refl;
        same_size = refl;
        same_block_size = refl;
        bounded = bounded;
        lean = λ h. omega (arith, lean h);
      },
    )

pub ensure_capacity_grows :
    (env : Env) (b t : Buffer) (grown : Bool) (n new start len : ℕ)
    → u64 (start + len) ≡ n
    → leb n b.capacity ≡ false
    → first_capacity b n ≡ ok new
    → b.capacity ≤ new
    → realloc_buffer env b new ≡ ok (grown, t)
    → ensure_capacity env b start len ≡ ok (if grown then t else on_error env t)
unfolding ensure_capacity
ensure_capacity_grows env b t grown n new start len whole more first le run =
    rw (whole, more, first, raise_capacity_lem b.capacity b new le, run)

-- After `ensure_capacity` the bytes up to `start + len` lie inside the block, and the contents, the
-- position and the sizes are what they were.
pub ensure_capacity-Grown :
    (env : Env) {b : Buffer} (start len : ℕ)
    → Grants env
    → IsValid b
    → (0 < b.capacity) ⊎ (start + len ≤ b.block_size)
    → b.capacity + b.block_size + (start + len) < 2 ^ 63
    → Returns (ensure_capacity env b start len) (Grown b (start + len))
unfolding ensure_capacity
ensure_capacity-Grown env {b} start len grants v room small =
    let whole : u64 (start + len) ≡ start + len = omega arith in
    elim (Bool-cases (leb (start + len) b.capacity)) [
      | inl fits ↦ (
        b,
        rw (whole, fits),
        record {
          valid = v;
          room = ground arith;
          same_view = refl;
          same_pos = refl;
          same_size = refl;
          same_block_size = refl;
          bounded = omega arith;
          lean = λ h. omega arith;
        },
      )
      | inr e ↦
          let more : b.capacity < start + len = ground arith in
          let (new, first, (enough, roomy, bounded, lean)) =
            first_capacity_lem (start + len) v more (omega arith) room in
          let (t, run, grown) =
            realloc_buffer-Grown env (start + len) new grants v enough (omega arith) roomy bounded
              lean in
          (
            t,
            ensure_capacity_grows env b t true _ new start len whole e first (omega arith) run,
            grown,
          )
    ]

-- A number that an int holds is none other as an int.
pub int_size_small : (n : ℕ) → n < 2 ^ 31 → int_size n ≡ n
unfolding int_size
int_size_small n small =
    let low : ltb (n % 2 ^ 32) (2 ^ 31) ≡ true = ground arith in rw low (omega arith)
