-- ===== src/Buffer/Cells.antt =====
-- The cells of a table of bytes, and that the loop of `TecBuffer_as_table` takes them one by one.
use tecc.Base.{
  ℕ, zero, suc, ◌+◌, ◌*◌, ◌≤◌, ◌<◌, ◌≡◌, refl, ap, ◌∙◌, Bool, true, false, List, [], ◌∷◌, arith,
  ltb, lt→ltb, le→not_ltb, length, take, drop,
}
use tecc.Base.Run.{ok}
use tecc.Buffer.Bytes.{peek, peek_lem}
use tecc.Buffer.HexText.{AllPlain, plain-lt, hex_text, hex_high, hex_low}
use tecc.Buffer.Table.{c_string, table_cell}

-- The cells of a table: blanks before the start, then two characters for each byte.
abbrev cells_of : List ℕ → List (List ℕ)
cells_of [] = []
cells_of (c ∷ cs) = (hex_high c ∷ hex_low c ∷ []) ∷ cells_of cs

abbrev pub table_cells : ℕ → List ℕ → List (List ℕ)
table_cells zero bytes = cells_of bytes
table_cells (suc start) bytes = (b' ' ∷ b' ' ∷ []) ∷ table_cells start bytes

-- The cells that the loop takes from the text `s` from place `n` on, at byte `k` and the next ones.
abbrev pub Supplies : List ℕ → ℕ → ℕ → ℕ → ℕ → List (List ℕ) → Type 0
Supplies s start size k n [] = size ≤ n
Supplies s start size k n (c ∷ cs) =
    (n < size)
    × (length c ≡ 2)
    × ((n' : ℕ) × (table_cell s start k n ≡ ok (c, n')) × Supplies s start size (k + 1) n' cs)

-- The loop takes the blanks before the start, and then the text of the bytes.
c_string-cell :
    (c : ℕ) → c < 256 → c_string (hex_high c ∷ hex_low c ∷ []) ≡ hex_high c ∷ hex_low c ∷ []
unfolding c_string
c_string-cell c h = ground arith

two_of :
    (n : ℕ) (xs : List ℕ) (a b : ℕ) (rest : List ℕ)
    → take (suc (suc n)) xs ≡ a ∷ b ∷ rest
    → (take 2 xs ≡ a ∷ b ∷ []) × (take n (drop 2 xs) ≡ rest)
two_of n [] a b rest h = cc
two_of n (x ∷ []) a b rest h = cc
two_of n (x ∷ y ∷ xs) a b rest h = (cc, cc)

drop_two : (n : ℕ) (xs : List ℕ) → drop (suc (suc n)) xs ≡ drop 2 (drop n xs)
drop_two zero xs = refl
drop_two (suc n) [] = refl
drop_two (suc n) (x ∷ xs) = drop_two n xs

take-hex_text :
    (c : ℕ) (cs xs : List ℕ)
    → take (2 * length (c ∷ cs)) xs ≡ hex_text (c ∷ cs)
    → (take 2 xs ≡ hex_high c ∷ hex_low c ∷ []) × (take (2 * length cs) (drop 2 xs) ≡ hex_text cs)
unfolding hex_text
take-hex_text c cs xs h =
    let e : 2 * length (c ∷ cs) ≡ suc (suc (2 * length cs)) = omega arith in
    two_of (2 * length cs) xs (hex_high c) (hex_low c) (hex_text cs) (rw e at h)

cell_lem :
    (s : List ℕ) (start k n : ℕ) (d : List ℕ)
    → ltb k start ≡ false
    → peek s n 2 ≡ ok d
    → c_string d ≡ d
    → table_cell s start k n ≡ ok (d, n + 2)
unfolding table_cell
cell_lem s start k n d behind got clean = rw (behind, got, clean)

Supplies-cells_of :
    (signed : Bool) (s bytes : List ℕ) (start size k n : ℕ)
    → AllPlain signed bytes
    → start ≤ k
    → size ≤ length s
    → n + 2 * length bytes ≡ size
    → take (2 * length bytes) (drop n s) ≡ hex_text bytes
    → Supplies s start size k n (cells_of bytes)
Supplies-cells_of signed s [] start size k n plain behind room e h = omega arith
Supplies-cells_of signed s (c ∷ cs) start size k n plain behind room e h =
    let (here, there) = take-hex_text c cs (drop n s) h in
    let got : peek s n 2 ≡ ok (hex_high c ∷ hex_low c ∷ []) =
      peek_lem s n 2 (omega arith) ∙ ap ok here in
    let two : n + 2 ≡ suc (suc n) = omega arith in
    let after : drop (n + 2) s ≡ drop 2 (drop n s) = rw two (drop_two n s) in
    (
      omega arith,
      refl,
      (
        n + 2,
        cell_lem s start k n _ (le→not_ltb k start behind) got
            (c_string-cell c (plain-lt signed c plain.0)),
        Supplies-cells_of signed s cs start size (k + 1) (n + 2) plain.1 (omega arith) room
            (omega arith) (rw after there),
      ),
    )

blank_lem :
    (s : List ℕ) (start k n : ℕ)
    → ltb k start ≡ true
    → table_cell s start k n ≡ ok (b' ' ∷ b' ' ∷ [], n)
unfolding table_cell
blank_lem s start k n e = rw e

pub Supplies-table_cells :
    (signed : Bool) (s bytes : List ℕ) (start size blanks k : ℕ)
    → AllPlain signed bytes
    → k + blanks ≡ start
    → size ≤ length s
    → 2 * length bytes ≡ size
    → 0 < size
    → take (2 * length bytes) s ≡ hex_text bytes
    → Supplies s start size k 0 (table_cells blanks bytes)
Supplies-table_cells signed s bytes start size zero k plain e room whole nonempty h =
    Supplies-cells_of signed s bytes start size k 0 plain (omega arith) room (omega arith) h
Supplies-table_cells signed s bytes start size (suc blanks) k plain e room whole nonempty h = (
  omega arith,
  refl,
  (
    0,
    blank_lem s start k 0 (lt→ltb k start (omega arith)),
    Supplies-table_cells signed s bytes start size blanks (k + 1) plain (omega arith) room whole
        nonempty h,
  ),
)
