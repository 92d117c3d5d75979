-- ===== src/Buffer/Hex.antt =====
-- `TecBuffer_as_hex`: a buffer that shows the bytes of another, two characters each.
use tecc.Base.{
  ℕ, zero, suc, ◌+◌, ◌-◌, ◌*◌, ◌/◌, ◌%◌, Bool, true, false, ◌&&◌, List, [], ◌∷◌, ltb, ◌==◌,
  if◌then◌else◌, u64,
}
use tecc.Base.Int.{ℤ, pos, negsuc, sub_ℕ}
use tecc.Base.Run.{Run, ok, fault, ◌>>=◌}
use tecc.Buffer.Bytes.{memcpy, peek}
use tecc.Buffer.Defs.{Buffer, Env, ensure_capacity, init}

-- "0123456789ABCDEF", with its null byte.
abbrev pub table : List ℕ
table = 48 ∷ 49 ∷ 50 ∷ 51 ∷ 52 ∷ 53 ∷ 54 ∷ 55 ∷ 56 ∷ 57 ∷ 65 ∷ 66 ∷ 67 ∷ 68 ∷ 69 ∷ 70 ∷ 0 ∷ []

unfoldable pub byte_at : List ℕ → ℕ → Run ℕ
byte_at [] i = fault
byte_at (x ∷ xs) zero = ok x
byte_at (x ∷ xs) (suc i) = byte_at xs i

-- The value of a byte as a `char`, which is signed on some platforms.
unfoldable pub char_value : Bool → ℕ → ℤ
char_value true c = if ltb c 128 then pos c else sub_ℕ c 256
char_value false c = pos c

-- A negative `ch` is shifted to a negative index of the table.
unfoldable pub to_hex_chars : ℤ → Run (ℕ × ℕ)
to_hex_chars (negsuc n) = fault
to_hex_chars (pos ch) =
    if ltb 0x20 ch && ltb ch 0x7f
    then ok (b' ', ch)
    else do high ← byte_at table (ch / 16); low ← byte_at table (ch % 16); ok (high, low)

-- The loop over the source's bytes, with the block written and the position in it.
unfoldable pub hex_loop : Bool → List ℕ → List ℕ → ℕ → Run (List ℕ × ℕ)
hex_loop signed [] block p = ok (block, p)
hex_loop signed (c ∷ cs) block p = do
  (high, low) ← to_hex_chars (char_value signed c)
  block' ← memcpy block p (high ∷ [])
  block'' ← memcpy block' (p + 1) (low ∷ [])
  hex_loop signed cs block'' (p + 2)

abbrev pub hex_buffer_block_size : ℕ
hex_buffer_block_size = 256

-- The text of the `len` bytes of `src` from `start` on, in `dst`.
unfoldable pub hex_fill : Env → Bool → Buffer → ℕ → ℕ → Buffer → Run Buffer
hex_fill env signed src start len dst = do
  let size = u64 (u64 (len * 2) + 1)
  let sized : Buffer = record dst {
    block_size = u64 (size / hex_buffer_block_size * hex_buffer_block_size + hex_buffer_block_size);
  }
  grown ← ensure_capacity env sized 0 size
  from ← peek src.contents start len
  (block, p) ← hex_loop signed from grown.contents 0
  ended ← memcpy block p (0 ∷ [])
  ok (record grown { contents = ended; size = p; pos = p })

-- Negative starts count as 0.
abbrev pub start_of : ℤ → ℕ
start_of (pos n) = n
start_of (negsuc n) = 0

-- `len` bytes, or all if it is 0, but not past the end of the source.
unfoldable pub hex_length : Buffer → ℕ → ℕ → ℕ
hex_length src start len =
    let wanted = if len == 0 then src.size else len in
    if ltb src.size (u64 (start + wanted)) then src.size - start else wanted

unfoldable pub as_hex : Env → Bool → Buffer → ℤ → ℕ → Run Buffer
as_hex env signed src start len = do
  dst ← init env 0 hex_buffer_block_size
  if src.size == 0
      then ok dst
      else if ltb src.size (start_of start)
      then ok dst
      else hex_fill env signed src (start_of start) (hex_length src (start_of start) len) dst
