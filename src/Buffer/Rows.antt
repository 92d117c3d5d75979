-- ===== src/Buffer/Rows.antt =====
-- The rows that the loop of `TecBuffer_as_table` appends.
use Prim.Native.Nat.{max}
use tecc.Base.{
  ℕ, zero, suc, ◌+◌, ◌*◌, ◌/◌, ◌%◌, ◌^◌, ◌≤◌, ◌<◌, ◌≡◌, inl, inr, refl, sym, ap, ◌∙◌, true, false,
  some, List, [], ◌∷◌, ◌++◌, append_assoc, append-nil, arith, ltb, leb, ◌==◌, if◌then◌else◌, u64,
  lt→ltb, le→not_ltb, Bool-cases, length, length-append, length-replicate,
}
use tecc.Base.Run.{ok, Returns}
use tecc.Buffer.Defs.{Buffer, Env, init, puts}
use tecc.Buffer.Growth.{IsValid, view, Grants, length-view}
use tecc.Buffer.Text.{chop, puts-Appended}
use tecc.Buffer.Lifetime.{blank, init-blank}
use tecc.Buffer.Cells.{Supplies}
use tecc.Buffer.Table.{bytes_per_line, row_prefix, print_prefix, begin_row, table_cell, table_rows}

-- The cells from number `k` on, with the beginning of a row before each 32nd; the first row
-- has the offset `first`.
abbrev pub rows_text : (ℕ → List ℕ) → ℕ → ℕ → List (List ℕ) → List ℕ
rows_text lu first k [] = []
rows_text lu first k (c ∷ cs) =
    (if k % 32 == 0 then row_prefix lu (first + k) else []) ++ (c ++ rows_text lu first (k + 1) cs)

chop-null : (xs : List ℕ) → chop (xs ++ 0 ∷ []) ≡ xs
unfolding chop
chop-null [] = refl
chop-null (x ∷ []) = refl
chop-null (x ∷ y ∷ xs) = ap (◌∷◌ x) (chop-null (y ∷ xs))

-- A buffer at whose end `text` stands before the null byte, if there is one.
pub record Holding (bs : ℕ) (text : List ℕ) (dst : Buffer) : Type 0 where
  pub valid : IsValid dst
  pub at_end : dst.pos ≡ dst.size
  pub text_lem : chop (view dst) ≡ text
  pub block_size : dst.block_size ≡ bs
  pub has_room : 0 < dst.capacity
  pub lean : dst.capacity ≤ max bs (2 * dst.size + 2)
  pub size : dst.size ≤ length text + 1

-- The same, with its null byte.
abbrev pub Ended : ℕ → List ℕ → Buffer → Type 0
Ended bs text dst = Holding bs text dst × (view dst ≡ text ++ 0 ∷ [])

-- What `%08lu` prints has at most 20 characters, as a number of 64 bits has.
abbrev pub Prints : (ℕ → List ℕ) → Type 0
Prints lu = (n : ℕ) → length (lu n) ≤ 20

-- A new buffer of one block.
pub blank-Holding : (bs : ℕ) → 0 < bs → Holding bs [] (blank bs bs)
unfolding chop
blank-Holding bs h = record {
  valid = record {
    block = length-replicate bs 0;
    within = omega arith;
    filled = omega arith;
    has_block_size = h;
    roomy = inr (omega arith);
  };
  at_end = refl;
  text_lem = refl;
  block_size = refl;
  has_room = h;
  lean = omega arith;
  size = omega arith;
}

pub init_block :
    (env : Env) (bs : ℕ) → Grants env → 0 < bs → bs < 2 ^ 64 → init env bs bs ≡ ok (blank bs bs)
init_block env bs grants h small =
    let nonzero : (bs == 0) ≡ false = ground arith in init-blank env bs bs grants small ∙ rw nonzero

-- The offset of the row that comes at byte `k` or behind it.
abbrev pub next_offset : ℕ → ℕ → ℕ
next_offset first k = first + (k + 31) / 32 * 32

begin_row_here :
    (env : Env) (lu : ℕ → List ℕ) (k offset o : ℕ) (dst b : Buffer)
    → (k % 32 == 0) ≡ true
    → offset ≡ o
    → print_prefix env lu o dst ≡ ok b
    → begin_row env lu k offset dst ≡ ok (u64 (offset + bytes_per_line), b)
unfolding begin_row
begin_row_here env lu k offset o dst b e same run = rw (e, same, run)

module _ (env : Env) (grants : Grants env) (bs : ℕ) where
  pub puts-Ended :
      (text : List ℕ) (dst : Buffer) (str : List ℕ)
      → Holding bs text dst
      → 0 < length str
      → length str + 1 < 2 ^ 31
      → 20 * (bs + length text + length str + 8) < 2 ^ 63
      → Returns (puts env dst (some str)) λ r. Ended bs (text ++ str) r.1
  puts-Ended text dst str h more short small =
      let n = length-append text str in
      let len = length-append (text ++ str) (0 ∷ []) in
      let (r, run, a) =
        puts-Appended env str grants h.valid h.at_end more short (omega (arith, h.lean, h.size))
          (inl h.has_room) in
      let contents : view r.1 ≡ (text ++ str) ++ 0 ∷ [] =
        a.contents ∙ rw h.text_lem (sym (append_assoc text str (0 ∷ []))) in
      let size : r.1.size ≡ length (text ++ str) + 1 =
        omega (arith, length-view a.valid, ap length contents) in
      let roomy = a.lean h.has_room in
      (
        r,
        run,
        (
          record {
            valid = a.valid;
            at_end = a.at_end;
            text_lem = ap chop contents ∙ chop-null (text ++ str);
            block_size = a.block_size ∙ h.block_size;
            has_room = omega (arith, a.valid.filled);
            lean = omega (arith, h.lean, h.size, h.at_end);
            size = omega arith;
          },
          contents,
        ),
      )

  pub print_prefix-Ended :
      (text : List ℕ) (dst : Buffer) (lu : ℕ → List ℕ) (offset : ℕ)
      → Prints lu
      → Holding bs text dst
      → 20 * (bs + length text + 40) < 2 ^ 63
      → Returns (print_prefix env lu offset dst) (Ended bs (text ++ row_prefix lu offset))
  unfolding print_prefix
  print_prefix-Ended text dst lu offset prints h small =
      let row = row_prefix lu offset in
      let digits = prints offset in
      let n = length-append (lu offset) (b'|' ∷ []) in
      let fits : leb 80 (length row) ≡ false = ground arith in
      let (r, run, e) = puts-Ended text dst row h (omega arith) (omega arith) (omega arith) in
      (r.1, rw (fits, run), e)

  begin_row_lem :
      (text : List ℕ) (dst : Buffer) (lu : ℕ → List ℕ) (first k : ℕ)
      → Prints lu
      → Ended bs text dst
      → 20 * (bs + length text + 40) < 2 ^ 63
      → first + k + 64 < 2 ^ 63
      → Returns (begin_row env lu k (next_offset first k) dst) λ r.
        (r.0 ≡ next_offset first (k + 1))
        × Ended bs (text ++ (if k % 32 == 0 then row_prefix lu (first + k) else [])) r.1
  unfolding begin_row
  begin_row_lem text dst lu first k prints h small low = elim (Bool-cases (k % 32 == 0)) [
    | inl e ↦
        let whole : k % 32 ≡ 0 = ground arith in
        let (b, run, ended) = print_prefix-Ended text dst lu (first + k) prints h.0 small in
        (
          (u64 (next_offset first k + bytes_per_line), b),
          begin_row_here env lu k (next_offset first k) (first + k) dst b e (omega arith) run,
          (omega arith, rw e ended),
        )
    | inr e ↦
        let part : (k % 32 ≡ 0) → ⊥ = λ z. ground arith in
        ((next_offset first k, dst), rw e, (ground arith, rw (e, append-nil text) h))
  ]

table_rows_steps :
    (env : Env) (lu : ℕ → List ℕ) (fuel : ℕ) (s : List ℕ) (start size n k offset : ℕ) (dst : Buffer)
    (row : ℕ × Buffer) (d : List ℕ × ℕ) (r : ℕ × Buffer) (o : ℕ)
    → ltb n size ≡ true
    → begin_row env lu k offset dst ≡ ok row
    → row.0 ≡ o
    → table_cell s start k n ≡ ok d
    → puts env row.1 (some d.0) ≡ ok r
    → table_rows (suc fuel) env lu s start size n k offset dst
      ≡ table_rows fuel env lu s start size d.1 (k + 1) o r.1
unfolding table_rows
table_rows_steps env lu fuel s start size n k offset dst row d r o more begun next cell put =
    rw (more, begun, cell, put, next)

table_rows_end :
    (env : Env) (lu : ℕ → List ℕ) (fuel : ℕ) (s : List ℕ) (start size n k offset : ℕ) (dst : Buffer)
    → ltb n size ≡ false
    → table_rows (suc fuel) env lu s start size n k offset dst ≡ ok dst
unfolding table_rows
table_rows_end env lu fuel s start size n k offset dst e = rw e

append_row : (text p c rest : List ℕ) → ((text ++ p) ++ c) ++ rest ≡ text ++ (p ++ (c ++ rest))
append_row text p c rest = simp append_assoc

length-prefix :
    (lu : ℕ → List ℕ) (first k : ℕ)
    → Prints lu
    → length (if k % 32 == 0 then row_prefix lu (first + k) else []) ≤ 23
length-prefix lu first k prints = elim (Bool-cases (k % 32 == 0)) [
  | inl e ↦ rw e (omega (arith, prints (first + k), length-append (lu (first + k)) (b'|' ∷ [])))
  | inr e ↦ rw e (omega arith)
]

module _ (env : Env) (grants : Grants env) (bs : ℕ) (lu : ℕ → List ℕ) (prints : Prints lu)
    (s : List ℕ) (start size : ℕ) where
  -- With as many rounds as there are cells, and one, the loop ends behind the rows.
  pub table_rows_lem :
      (fuel : ℕ) (cs : List (List ℕ)) (first k n : ℕ) (text : List ℕ) (dst : Buffer)
      → length cs < fuel
      → Supplies s start size k n cs
      → Ended bs text dst
      → 20 * (bs + length text + 25 * length cs + 80) < 2 ^ 63
      → first + k + length cs + 64 < 2 ^ 63
      → Returns
          (table_rows fuel env lu s start size n k (next_offset first k) dst)
          (Ended bs (text ++ rows_text lu first k cs))
  table_rows_lem zero cs first k n text dst enough sup h small low = absurd (omega arith)
  table_rows_lem (suc fuel) [] first k n text dst enough sup h small low = (
    dst,
    table_rows_end env lu fuel s start size n k _ dst (le→not_ltb n size sup),
    rw (append-nil text) h,
  )
  table_rows_lem (suc fuel) (c ∷ cs) first k n text dst enough (more, two, (n', cell, sup)) h small
        low =
      let p = if k % 32 == 0 then row_prefix lu (first + k) else [] in
      let short = length-prefix lu first k prints in
      let m = length-append text p in
      let m' = length-append (text ++ p) c in
      let (row, begun, (offset, e)) =
        begin_row_lem env grants bs text dst lu first k prints h (omega arith) (omega arith) in
      let (r, put, e') =
        puts-Ended env grants bs (text ++ p) row.1 c e.0 (omega arith) (omega arith)
          (omega arith) in
      let (r', run, done) =
        table_rows_lem fuel cs first (k + 1) n' ((text ++ p) ++ c) r.1 (omega arith) sup e'
          (omega arith) (omega arith) in
      (
        r',
        table_rows_steps env lu fuel s start size n k _ dst row (c, n') r
              (next_offset first (k + 1)) (lt→ltb n size more) begun offset cell put
            ∙ run,
        rw (← append_row text p c (rows_text lu first (k + 1) cs)) done,
      )
