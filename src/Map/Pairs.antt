-- ===== src/Map/Pairs.antt =====
-- The pairs of a table, bucket after bucket.
use tecc.Base.{
  ℕ, zero, suc, ◌+◌, ◌≡◌, inl, inr, refl, ◌∙◌, true, false, Option, none, some, List, [], ◌∷◌, ◌++◌,
  map, arith, leb, ◌==◌, if◌then◌else◌, Bool-cases, ==_iff, length, length-append,
}
use tecc.Map.Defs.{Key, Map}
use tecc.Map.Cells.{Cells, find}
use tecc.Map.Table.{Buckets, home, view, total, IsTable}
use tecc.Map.Methods.{home-lt}

-- The cells of the `n` buckets from `i` on.
unfoldable pub cells_from : Buckets → ℕ → ℕ → Cells
cells_from cells i zero = []
cells_from cells i (suc n) = cells i ++ cells_from cells (suc i) n

abbrev pub pairs : Cells → List (Key × ℕ)
pairs cs = map (λ c. (c.1, c.2)) cs

pub length-cells_from :
    (cells : Buckets) (i n j : ℕ)
    → i + n ≡ j
    → total i cells + length (cells_from cells i n) ≡ total j cells
unfolding cells_from total
length-cells_from cells i zero j e = let same : i ≡ j = omega arith in rw same (omega arith)
length-cells_from cells i (suc n) j e = omega (
  arith,
  length-append (cells i) (cells_from cells (suc i) n),
  length-cells_from cells (suc i) n j (omega arith),
)

find-append_front :
    (k : Key) (v : ℕ) (cs ds : Cells) → find k cs ≡ some v → find k (cs ++ ds) ≡ some v
unfolding find
find-append_front k v [] ds h = cc
find-append_front k v ((p, j, w) ∷ cs) ds h = ground (arith, find-append_front k v cs ds)

find-append_behind : (k : Key) (cs ds : Cells) → find k cs ≡ none → find k (cs ++ ds) ≡ find k ds
unfolding find
find-append_behind k [] ds h = refl
find-append_behind k ((p, j, w) ∷ cs) ds h = ground (arith, find-append_behind k cs ds)

-- A key is found from bucket `i` on if its bucket stands there.
pub find-cells_from :
    {m : Map} {cells : Buckets} (k : Key) (n i : ℕ)
    → IsTable m cells
    → i + n ≡ m.capacity
    → find k (cells_from cells i n) ≡ (if leb i (home m k) then view m cells k else none)
unfolding cells_from find view
find-cells_from {m} {cells} k zero i t at =
    let out : leb i (home m k) ≡ false = ground (arith, home-lt k t) in rw out
find-cells_from {m} {cells} k (suc n) i t at =
    by_found (find k (cells i)) refl (find-cells_from k n (suc i) t (omega arith))
  where
    by_found :
        (o : Option ℕ)
        → find k (cells i) ≡ o
        → find k (cells_from cells (suc i) n)
          ≡ (if leb (suc i) (home m k) then view m cells k else none)
        → find k (cells i ++ cells_from cells (suc i) n)
          ≡ (if leb i (home m k) then view m cells k else none)
    by_found (some v) e rest =
        let here : home m k ≡ i = t.placed i k v (omega arith) e in
        let inside : leb i (home m k) ≡ true = ground arith in
        find-append_front k v (cells i) _ e ∙ rw (inside, here, e)
    by_found none e rest =
        find-append_behind k (cells i) _ e ∙ rest ∙ elim (Bool-cases (home m k == i)) [
          | inl same ↦
              let here : home m k ≡ i = (==_iff (home m k) i).0 same in
              let behind : leb (suc i) (home m k) ≡ false = ground arith in
              let inside : leb i (home m k) ≡ true = ground arith in rw (behind, inside, here, e)
          | inr differ ↦
              let same : leb (suc i) (home m k) ≡ leb i (home m k) = ground arith in rw same
        ]
