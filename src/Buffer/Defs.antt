-- ===== src/Buffer/Defs.antt =====
-- tecc_buffer.c and tecc_buffer.h: the buffer, its growth and its operations.
-- `contents` is the block that `data` points to, and [] where `data` is NULL. Positions are
-- natural numbers: `TecBuffer_seek` refuses a negative one and nothing else makes one.
use tecc.Base.{
  ℕ, zero, suc, ◌+◌, ◌-◌, ◌*◌, ◌/◌, ◌^◌, Bool, true, false, Option, none, some, List, [], ◌∷◌, ◌++◌,
  ◌%◌, ltb, leb, ◌==◌, if◌then◌else◌, u64, length, replicate,
}
use tecc.Base.Int.{ℤ, pos, negsuc, ◌+ℤ◌}
use tecc.Base.Run.{Run, ok, fault, out_of_fuel, ◌>>=◌}
use tecc.Buffer.Bytes.{memcpy, peek}

pub record Buffer : Type 0 where
  pub contents : List ℕ
  pub pos : ℕ
  pub size : ℕ
  pub capacity : ℕ
  pub block_size : ℕ

-- What the buffer has from outside: whether `calloc(1, n)` returns a block, and the handler that
-- the application registered for a failure, if it did.
pub record Env : Type 0 where
  pub can_alloc : ℕ → Bool
  pub on_buffer_error : Option (Buffer → Buffer)

unfoldable pub set_error_handler : Option (Buffer → Buffer) → Env → Env
set_error_handler handler env = record env { on_buffer_error = handler }

abbrev pub default_block_size : ℕ
default_block_size = 80

-- `ON_ERROR`
unfoldable pub on_error : Env → Buffer → Buffer
on_error env b = elim (env.on_buffer_error) [ none ↦ b | some handler ↦ handler b ]

-- The copy of the old block, if there is one, into the new block of zeros.
unfoldable pub move_contents : List ℕ → ℕ → ℕ → Run (List ℕ)
move_contents [] size new = ok (replicate new 0)
move_contents (x ∷ old) size new = do kept ← peek (x ∷ old) 0 size; memcpy (replicate new 0) 0 kept

unfoldable pub realloc_buffer : Env → Buffer → ℕ → Run (Bool × Buffer)
realloc_buffer env b new =
    if leb new b.capacity
    then ok (true, b)
    else if env.can_alloc new
    then (do
      moved ← move_contents b.contents b.size new
      ok (true, record b { contents = moved; capacity = new }))
    else ok (false, b)

-- The capacity that `ensure_capacity` starts from; a division by 0 faults.
unfoldable pub first_capacity : Buffer → ℕ → Run ℕ
first_capacity b end =
    if b.capacity == 0
    then ok b.block_size
    else if b.block_size == 0
    then fault
    else ok (u64 (b.capacity + u64 (end / b.block_size * b.block_size)))

-- while (new_capacity < buf->capacity) new_capacity += buf->block_size;
unfoldable pub raise_capacity : ℕ → Buffer → ℕ → Run ℕ
raise_capacity zero b new = out_of_fuel
raise_capacity (suc fuel) b new =
    let rest = raise_capacity fuel b (u64 (new + b.block_size)) in
    if ltb new b.capacity then rest else ok new

unfoldable pub ensure_capacity : Env → Buffer → ℕ → ℕ → Run Buffer
ensure_capacity env b start len = if leb (u64 (start + len)) b.capacity then ok b else do
  first ← first_capacity b (u64 (start + len))
  new ← raise_capacity (suc b.capacity) b first
  (grown, b') ← realloc_buffer env b new
  ok (if grown then b' else on_error env b')

unfoldable pub init : Env → ℕ → ℕ → Run Buffer
init env initial_size block_size =
    let b : Buffer = record {
      contents = [];
      pos = 0;
      size = 0;
      capacity = 0;
      block_size = if block_size == 0 then default_block_size else block_size;
    } in
    if initial_size == 0 then ok b else ensure_capacity env b b.pos initial_size

unfoldable pub done : Buffer → Buffer
done b = record b { contents = []; pos = 0; size = 0; capacity = 0 }

-- `src` is the `len` bytes to write. The result is the number of bytes written.
unfoldable pub write : Env → Buffer → List ℕ → Run (ℕ × Buffer)
write env b src = if length src == 0 then ok (0, b) else do
  b' ← ensure_capacity env b b.pos (length src)
  written ← memcpy b'.contents b.pos src
  let end = b.pos + length src
  ok (
    length src,
    record b' { contents = written; size = if ltb b'.size end then end else b'.size; pos = end },
  )

-- The number of bytes read, the bytes, and the buffer.
unfoldable pub read : Buffer → ℕ → Run (ℕ × List ℕ × Buffer)
read b len = if len == 0 then ok (0, [], b) else (do
  let n = if ltb b.size (u64 (b.pos + len)) then u64 (b.size + 2 ^ 64 - b.pos) else len
  got ← peek b.contents b.pos n
  ok (n, got, record b { pos = b.pos + n }))

pub data Origin : Type 0 where
  seek_cur seek_set seek_end : Origin

unfoldable pub new_position : Buffer → ℤ → Origin → ℤ
new_position b offset seek_set = offset
new_position b offset seek_cur = pos b.pos +ℤ offset
new_position b offset seek_end = pos b.size +ℤ offset

-- TECC_EOB
abbrev pub end_of_buffer : ℤ
end_of_buffer = negsuc 0

-- The test that ends `TecBuffer_seek`.
unfoldable pub move_to : Buffer → ℤ → ℤ × Buffer
move_to b (negsuc n) = (end_of_buffer, b)
move_to b (pos p) = if ltb b.size p then (end_of_buffer, b) else (pos 0, record b { pos = p })

unfoldable pub seek : Buffer → ℤ → Origin → ℤ × Buffer
seek b offset origin = move_to b (new_position b offset origin)

unfoldable pub is_null : List ℕ → Bool
is_null [] = false
is_null (c ∷ _) = c == 0

-- The step of `TecBuffer_puts` back over a null byte that stands before the position `p`; `b` is
-- the buffer after it was grown.
unfoldable pub step_back : Buffer → ℕ → Run Buffer
step_back b p =
    if ltb 0 p
    then (do
      last ← peek b.contents (p - 1) 1
      ok (
          if is_null last
          then record b { pos = p - 1; size = b.size - 1 }
          else record b { pos = p }))
    else ok (record b { pos = p })

-- A number as an int of 32 bits, and that as a size again: a negative int is large.
unfoldable pub int_size : ℕ → ℕ
int_size n = let low = n % 2 ^ 32 in if ltb low (2 ^ 31) then low else low + (2 ^ 64 - 2 ^ 32)

-- `str` is a string without its null byte, and `none` where the pointer is NULL.
unfoldable pub puts : Env → Buffer → Option (List ℕ) → Run (ℕ × Buffer)
puts env b none = ok (0, b)
puts env b (some str) =
    let len = int_size (length str) in
    if len == 0
    then ok (0, b)
    else (if len == 2 ^ 31 - 1 then fault else do
      grown ← ensure_capacity env b b.pos (u64 (len + 1))
      stepped ← step_back grown b.pos
      bytes ← peek (str ++ 0 ∷ []) 0 (u64 (len + 1))
      write env stepped bytes)
