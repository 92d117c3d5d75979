-- ===== src/Buffer/Table.antt =====
-- `TecBuffer_as_table`: the text of `TecBuffer_as_hex` as a table of 32 bytes a row. `sprintf` is
-- outside the library: `lu` is what its conversion `%08lu` prints of a number.
use tecc.Base.{
  ℕ, zero, suc, ◌+◌, ◌*◌, ◌/◌, ◌%◌, Bool, true, false, ◌||◌, some, List, [], ◌∷◌, ◌++◌, ltb, leb,
  ◌==◌, if◌then◌else◌, u64, length,
}
use tecc.Base.Int.{ℤ}
use tecc.Base.Run.{Run, ok, fault, out_of_fuel, ◌>>=◌}
use tecc.Base.Codes.{codes}
use tecc.Buffer.Bytes.{peek}
use tecc.Buffer.Defs.{Buffer, Env, init, puts}
use tecc.Buffer.Hex.{start_of, as_hex}

abbrev pub bytes_per_line : ℕ
bytes_per_line = 32

abbrev pub hex_table_block_size : ℕ
hex_table_block_size = 256

unfoldable pub hex_table_header : List ℕ
hex_table_header =
    codes " offset |00  02  04  06  08  10  12  14  16  18  20  22  24  26  28  30  |"
    ++ (10 ∷ codes "========|++--++--++--++--++--++--++--++--++--++--++--++--++--++--++--++--")

-- A row begins behind a bar, with a new line, its offset and a bar.
abbrev pub row_prefix : (ℕ → List ℕ) → ℕ → List ℕ
row_prefix lu offset = b'|' ∷ 10 ∷ (lu offset ++ b'|' ∷ [])

-- The beginning of a row goes through an array of 80 bytes.
unfoldable pub print_prefix : Env → (ℕ → List ℕ) → ℕ → Buffer → Run Buffer
print_prefix env lu offset dst =
    let row = row_prefix lu offset in
    if leb 80 (length row) then fault else (puts env dst (some row) >>= λ r. ok r.1)

-- The bytes of a string before its null byte.
unfoldable pub c_string : List ℕ → List ℕ
c_string [] = []
c_string (c ∷ cs) = if c == 0 then [] else c ∷ c_string cs

-- At the first byte of a row its beginning; the result is the offset of the next row.
unfoldable pub begin_row : Env → (ℕ → List ℕ) → ℕ → ℕ → Buffer → Run (ℕ × Buffer)
begin_row env lu nbyte offset dst =
    if nbyte % bytes_per_line == 0
    then (print_prefix env lu offset dst >>= λ b. ok (u64 (offset + bytes_per_line), b))
    else ok (offset, dst)

-- Two blanks before the start, and then the next two characters of the text `s`.
unfoldable pub table_cell : List ℕ → ℕ → ℕ → ℕ → Run (List ℕ × ℕ)
table_cell s start nbyte n =
    if ltb nbyte start
    then ok (b' ' ∷ b' ' ∷ [], n)
    else (peek s n 2 >>= λ d. ok (c_string d, n + 2))

-- for (size_t n = 0, nbyte = 0; n < size; ++nbyte)
unfoldable pub table_rows :
    ℕ → Env → (ℕ → List ℕ) → List ℕ → ℕ → ℕ → ℕ → ℕ → ℕ → Buffer → Run Buffer
table_rows zero env lu s start size n nbyte offset dst = out_of_fuel
table_rows (suc fuel) env lu s start size n nbyte offset dst =
    if ltb n size
    then (do
      row ← begin_row env lu nbyte offset dst
      d ← table_cell s start nbyte n
      r ← puts env row.1 (some d.0)
      table_rows fuel env lu s start size d.1 (nbyte + 1) row.0 r.1)
    else ok dst

unfoldable pub has_no_data : List ℕ → Bool
has_no_data [] = true
has_no_data (x ∷ xs) = false

unfoldable pub as_table : Env → (ℕ → List ℕ) → Bool → Buffer → ℤ → ℕ → Run Buffer
as_table env lu signed src start len = do
  tmp ← as_hex env signed src start len
  let block_size =
      u64 (u64 (tmp.size / hex_table_block_size * hex_table_block_size) + hex_table_block_size + 2)
  dst ← init env block_size block_size
  headed ← puts env dst (some hex_table_header)
  let start_offset = start_of start / bytes_per_line * bytes_per_line
  if tmp.size == 0 || has_no_data tmp.contents
      then print_prefix env lu start_offset headed.1
      else table_rows (suc (start_of start + tmp.size)) env lu tmp.contents (start_of start)
          tmp.size 0 0 start_offset headed.1
