-- ===== src/Buffer/Limits.antt =====
-- `ensure_capacity` of an empty buffer, and where memory is refused.
use tecc.Base.{
  ℕ, ◌+◌, ◌^◌, ◌≤◌, ◌<◌, ◌≡◌, ◌⊎◌, refl, true, false, List, [], ◌∷◌, arith, lt→not_leb, ==_iff,
  length, replicate,
}
use tecc.Base.Run.{ok}
use tecc.Buffer.Defs.{
  Buffer, Env, on_error, move_contents, realloc_buffer, first_capacity, ensure_capacity,
}
use tecc.Buffer.Growth.{IsValid, Grants, ensure_capacity_grows, first_capacity_lem}

empty-nil : (xs : List ℕ) → length xs ≡ 0 → xs ≡ []
empty-nil [] h = refl
empty-nil (x ∷ xs) h = absurd (omega arith)

realloc_empty :
    (env : Env) (b : Buffer)
    → Grants env
    → b.contents ≡ []
    → b.capacity ≡ 0
    → 0 < b.block_size
    → realloc_buffer env b b.block_size
      ≡ ok (true, record b { contents = replicate b.block_size 0; capacity = b.block_size })
unfolding realloc_buffer move_contents
realloc_empty env b grants null empty h =
    rw (lt→not_leb b.block_size b.capacity (omega arith), grants b.block_size, null)

-- An empty buffer grows to one block, whatever is asked for.
pub ensure_capacity-empty :
    (env : Env) {b : Buffer} (start len : ℕ)
    → Grants env
    → IsValid b
    → b.capacity ≡ 0
    → 0 < start + len
    → start + len < 2 ^ 64
    → ensure_capacity env b start len
      ≡ ok (record b { contents = replicate b.block_size 0; capacity = b.block_size })
unfolding first_capacity
ensure_capacity-empty env {b} start len grants v empty some small =
    ensure_capacity_grows env b _ true (start + len) b.block_size start len (omega arith)
      (lt→not_leb _ _ (omega arith)) (rw ((==_iff b.capacity 0).1 empty)) (omega arith)
      (realloc_empty env b grants (empty-nil b.contents (omega arith)) empty v.has_block_size)

realloc_refused :
    (env : Env) (b : Buffer) (new : ℕ)
    → env.can_alloc new ≡ false
    → b.capacity < new
    → realloc_buffer env b new ≡ ok (false, b)
unfolding realloc_buffer
realloc_refused env b new refused more = rw (lt→not_leb new b.capacity more, refused)

-- Where the request is refused, the buffer is left to the handler.
pub ensure_capacity-refused :
    (env : Env) {b : Buffer} (start len : ℕ)
    → ((n : ℕ) → env.can_alloc n ≡ false)
    → IsValid b
    → b.capacity < start + len
    → (0 < b.capacity) ⊎ (start + len ≤ b.block_size)
    → b.capacity + b.block_size + (start + len) < 2 ^ 63
    → ensure_capacity env b start len ≡ ok (on_error env b)
ensure_capacity-refused env {b} start len refuses v more room small =
    let (new, first, (enough, roomy, bounded, lean)) =
      first_capacity_lem (start + len) v more (omega arith) room in
    ensure_capacity_grows env b b false (start + len) new start len (omega arith)
      (lt→not_leb _ _ more) first (omega arith)
      (realloc_refused env b new (refuses new) (omega arith))
