-- ===== src/Buffer/Overrun.antt =====
-- Writes of tecc_buffer.c that run over the end of the block.
use tecc.Base.{ℕ, ◌+◌, ◌^◌, ◌<◌, ◌≡◌, ◌∙◌, none, false, List, arith, ◌==◌, length, length-replicate}
use tecc.Base.Run.{ok, fault}
use tecc.Buffer.Bytes.{memcpy-fault}
use tecc.Buffer.Defs.{Buffer, Env, on_error, ensure_capacity, write}
use tecc.Buffer.Growth.{IsValid, Grants, IsSmall, HasRoom}
use tecc.Buffer.Limits.{ensure_capacity-empty, ensure_capacity-refused}

overrun :
    (env : Env) (b t : Buffer) (src : List ℕ)
    → (length src == 0) ≡ false
    → ensure_capacity env b b.pos (length src) ≡ ok t
    → length t.contents < b.pos + length src
    → write env b src ≡ fault
unfolding write
overrun env b t src some run h = rw (some, run, memcpy-fault t.contents b.pos src h)

-- The first request of an empty buffer gets one block, however much it asks for: a longer write
-- runs over the end of the block.
pub write-fault :
    (env : Env) {b : Buffer} (src : List ℕ)
    → Grants env
    → IsValid b
    → b.capacity ≡ 0
    → b.block_size < length src
    → length src < 2 ^ 64
    → write env b src ≡ fault
write-fault env {b} src grants v empty long small =
    overrun env b _ src (ground arith)
      (ensure_capacity-empty env b.pos (length src) grants v empty (omega arith) (omega arith))
      (omega (arith, length-replicate {A = ℕ} b.block_size 0))

-- Where memory is refused and no handler is registered, `TecBuffer_write` does not stop: it writes
-- past the end of the block that the buffer has.
pub write-refused :
    (env : Env) {b : Buffer} (src : List ℕ)
    → ((n : ℕ) → env.can_alloc n ≡ false)
    → env.on_buffer_error ≡ none
    → IsValid b
    → IsSmall b (length src)
    → HasRoom b (length src)
    → b.capacity < b.pos + length src
    → 0 < length src
    → write env b src ≡ fault
unfolding on_error
write-refused env {b} src refuses unhandled v small room more some =
    overrun env b b src (ground arith)
      (ensure_capacity-refused env b.pos (length src) refuses v more (omega arith) (omega arith)
        ∙ rw unhandled)
      (omega arith)
