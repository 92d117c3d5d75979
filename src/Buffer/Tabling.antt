-- ===== src/Buffer/Tabling.antt =====
-- What `TecBuffer_as_table` returns.
use tecc.Base.{
  ℕ, zero, suc, ◌+◌, ◌*◌, ◌/◌, ◌^◌, ◌<◌, ◌≡◌, refl, sym, ap, ◌∙◌, Bool, true, false, some, List, [],
  ◌∷◌, ◌++◌, arith, ◌==◌, u64, length, take,
}
use tecc.Base.Int.{ℤ}
use tecc.Base.Run.{ok, Returns}
use tecc.Buffer.Defs.{Buffer, Env, init, puts}
use tecc.Buffer.Growth.{IsValid, view, Grants, length-view}
use tecc.Buffer.Lifetime.{blank}
use tecc.Buffer.Hex.{start_of, as_hex}
use tecc.Buffer.HexText.{AllPlain, hex_text, length-hex_text}
use tecc.Buffer.Printing.{Dumped}
use tecc.Buffer.Dump.{selected, AllPlain-selected, length-selected, as_hex-Dumped}
use tecc.Buffer.Cells.{table_cells, Supplies-table_cells}
use tecc.Buffer.Rows.{
  rows_text, Ended, Prints, next_offset, puts-Ended, blank-Holding, init_block, print_prefix-Ended,
  table_rows_lem,
}
use tecc.Buffer.Table.{
  hex_table_header, row_prefix, print_prefix, table_rows, has_no_data, as_table,
}

-- The offset of the first row.
abbrev pub first_offset : ℤ → ℕ
first_offset start = start_of start / 32 * 32

-- The header, and a row for each 32 bytes from the first offset on; the beginning of a row alone
-- where no bytes were selected.
abbrev pub table_text : (ℕ → List ℕ) → ℤ → List ℕ → List ℕ
table_text lu start [] = hex_table_header ++ row_prefix lu (first_offset start)
table_text lu start (c ∷ cs) =
    hex_table_header ++ rows_text lu (first_offset start) 0 (table_cells (start_of start) (c ∷ cs))

length-header : length hex_table_header ≡ 148
unfolding hex_table_header
length-header = refl

abbrev block_size_for : ℕ → ℕ
block_size_for size = size / 256 * 256 + 258

module _ (env : Env) (lu : ℕ → List ℕ) (signed : Bool) (src : Buffer) (start : ℤ) (len : ℕ)
    (tmp dst : Buffer) (headed : ℕ × Buffer) (bs : ℕ) where
  table_steps :
      (r : Buffer) (o : ℕ)
      → as_hex env signed src start len ≡ ok tmp
      → u64 (u64 (tmp.size / 256 * 256) + 256 + 2) ≡ bs
      → init env bs bs ≡ ok dst
      → puts env dst (some hex_table_header) ≡ ok headed
      → (tmp.size == 0) ≡ false
      → has_no_data tmp.contents ≡ false
      → first_offset start ≡ o
      → table_rows
          (suc (start_of start + tmp.size))
          env
          lu
          tmp.contents
          (start_of start)
          tmp.size
          0
          0
          o
          headed.1
        ≡ ok r
      → as_table env lu signed src start len ≡ ok r
  unfolding as_table
  table_steps r o shown sized made begun nonempty there offset run =
      rw (shown, sized, made, begun, nonempty, there, offset, run)

  empty_steps :
      (r : Buffer)
      → as_hex env signed src start len ≡ ok tmp
      → u64 (u64 (tmp.size / 256 * 256) + 256 + 2) ≡ bs
      → init env bs bs ≡ ok dst
      → puts env dst (some hex_table_header) ≡ ok headed
      → (tmp.size == 0) ≡ true
      → print_prefix env lu (first_offset start) headed.1 ≡ ok r
      → as_table env lu signed src start len ≡ ok r
  unfolding as_table
  empty_steps r shown sized made begun none run = rw (shown, sized, made, begun, none, run)

some_data : (xs : List ℕ) → 0 < length xs → has_no_data xs ≡ false
unfolding has_no_data
some_data [] h = absurd (omega arith)
some_data (x ∷ xs) h = refl

length-table_cells :
    (start : ℕ) (bytes : List ℕ) → length (table_cells start bytes) ≡ start + length bytes
length-table_cells zero [] = omega arith
length-table_cells zero (c ∷ cs) = omega (arith, length-table_cells 0 cs)
length-table_cells (suc start) bytes = omega (arith, length-table_cells start bytes)

begin_table :
    (env : Env) (bs : ℕ)
    → Grants env
    → 0 < bs
    → bs < 2 ^ 53
    → Returns
        (puts env (blank bs bs) (some hex_table_header))
        λ headed. Ended bs hex_table_header headed.1
begin_table env bs grants h small =
    let n = length-header in
    puts-Ended env grants bs [] (blank bs bs) hex_table_header (blank-Holding bs h) (omega arith)
      (omega arith) (omega arith)

-- The table of the bytes that `TecBuffer_as_hex` showed.
as_table-Dumped :
    (env : Env) (lu : ℕ → List ℕ) (signed : Bool) (src : Buffer) (start : ℤ) (len : ℕ)
    (bytes : List ℕ) {tmp : Buffer}
    → Grants env
    → Prints lu
    → as_hex env signed src start len ≡ ok tmp
    → Dumped bytes tmp
    → AllPlain signed bytes
    → start_of start + length bytes < 2 ^ 50
    → Returns
        (as_table env lu signed src start len)
        λ t. view t ≡ table_text lu start bytes ++ 0 ∷ []
unfolding hex_text
as_table-Dumped env lu signed src start len [] {tmp} grants prints shown d plain small =
    let n : tmp.size ≡ 0 = sym (length-view d.valid) ∙ ap length d.text in
    let header = length-header in
    let (headed, begun, ended) = begin_table env 258 grants (omega arith) (omega arith) in
    let (r, run, text) =
      print_prefix-Ended env grants 258 hex_table_header headed.1 lu (first_offset start) prints
        ended.0 (omega arith) in
    (
      r,
      empty_steps env lu signed src start len tmp (blank 258 258) headed 258 r shown (omega arith)
          (init_block env 258 grants (omega arith) (omega arith)) begun (ground arith) run,
      text.1,
    )
as_table-Dumped env lu signed src start len (c ∷ cs) {tmp} grants prints shown d plain small =
    let bytes = c ∷ cs in
    let n : tmp.size ≡ 2 * length bytes =
      sym (length-view d.valid) ∙ ap length d.text ∙ length-hex_text bytes in
    let bs = block_size_for tmp.size in
    let header = length-header in
    let (headed, begun, ended) = begin_table env bs grants (omega arith) (omega arith) in
    let cells = table_cells (start_of start) bytes in
    let count = length-table_cells (start_of start) bytes in
    let room = d.valid.block in
    let text : take (2 * length bytes) tmp.contents ≡ hex_text bytes = rw n at d.text in
    let supply =
      Supplies-table_cells signed tmp.contents bytes (start_of start) tmp.size (start_of start) 0
        plain (omega arith) (omega (arith, d.valid.filled)) (sym n) (omega arith) text in
    let (r, run, done) =
      table_rows_lem env grants bs lu prints tmp.contents (start_of start) tmp.size
        (suc (start_of start + tmp.size)) cells (first_offset start) 0 0 hex_table_header headed.1
        (omega arith) supply ended (omega arith) (omega arith) in
    (
      r,
      table_steps env lu signed src start len tmp (blank bs bs) headed bs r
          (next_offset (first_offset start) 0) shown (omega arith)
          (init_block env bs grants (omega arith) (omega arith)) begun (ground arith)
          (some_data tmp.contents (omega (arith, d.valid.filled))) (omega arith) run,
      done.1,
    )

-- Where every request of memory is granted and a number prints as at most 20 characters:
-- TecBuffer_as_table of a well-formed buffer, none of whose bytes `char` shows as negative, for a
-- start and a length that are with the size of the buffer below 2 ^ 50 in sum, ends without a
-- fault. The table holds the header, and for the bytes selected one row after the other, each
-- behind the beginning with its offset; as many blank cells as the start come before the first
-- byte. It holds the beginning of one row where no byte was selected, and a null byte ends it.
pub as_table-table_text :
    (env : Env) (lu : ℕ → List ℕ) (signed : Bool) {src : Buffer} (start : ℤ) (len : ℕ)
    → Grants env
    → Prints lu
    → IsValid src
    → AllPlain signed (view src)
    → start_of start + len + src.size < 2 ^ 50
    → Returns
        (as_table env lu signed src start len)
        λ t. view t ≡ table_text lu start (selected src start len) ++ 0 ∷ []
as_table-table_text env lu signed {src} start len grants prints v plain small =
    let (tmp, shown, d) =
      as_hex-Dumped env signed start len grants v plain (omega arith) (omega arith) in
    let n = length-selected src start len in
    as_table-Dumped env lu signed src start len (selected src start len) grants prints shown d
      (AllPlain-selected signed src start len plain) (omega (arith, length-view v))
