-- ===== src/Examples/Maps.antt =====
-- tecc_map.c at concrete tables.
use tecc.Base.{
  ℕ, zero, suc, ◌<◌, ◌≡◌, refl, true, false, none, some, List, [], ◌∷◌, arith, ◌==◌, if◌then◌else◌,
  get_or, length,
}
use tecc.Base.Heap.{Ptr, null, Heap, put, given, load, fill, store, free}
use tecc.Base.Run.{Run, ok, ◌>>=◌, Returns}
use tecc.Map.Defs.{
  Key, Node, Map, fnv_1a_loop, fnv_1a_64, same_key, slot, root_at, find_in_bucket, find_node,
  set_prev, new_node, init, change_value, add_root, put_value, get, drop_root, unlink, remove_node,
  remove, delete_bucket, clear_bucket, clear_loop, clear, done,
}
use tecc.Map.Cells.{Cells, has, find, Once}
use tecc.Map.Chain.{node, Chain, nil, cons}
use tecc.Map.Table.{Buckets, total, home, IsTable, view}
use tecc.Map.Methods.{or_null, Writes, get-view}
use tecc.Map.Writing.{put_value-Writes}
use tecc.Map.Removal.{remove-Writes}
use tecc.Map.Iter.{scan, stand, begin, next, rewind, visit, visit_all}
use tecc.Map.Pairs.{cells_from, pairs}
use tecc.Map.Visit.{visit_all-pairs}
use tecc.Map.Clearing.{clear-IsTable}

program : Unit {0}
unfolding fnv_1a_loop fnv_1a_64 same_key slot root_at find_in_bucket find_node set_prev new_node
    init change_value add_root put_value get drop_root unlink remove_node remove delete_bucket
    clear_bucket clear_loop clear done scan stand begin next rewind visit visit_all put given load
    fill store free
program = tt

abbrev key_a : Key
key_a = 97 ∷ []

abbrev key_b : Key
key_b = 98 ∷ []

abbrev nothing : Map
nothing = record { heap = λ _. none; nodes = []; size = 0; capacity = 0 }

-- The test vector of FNV-1a for "a".
fnv_1a_64_test : fnv_1a_64 key_a ≡ 12638187200555641996
unfolding program
fnv_1a_64_test = refl

-- Two keys are set, one again, the other is removed: what the calls return, and the size.
abbrev session : Run (List ℕ)
session = do
  r₁ ← put_value (init nothing true 3).1 8 key_a 10
  r₂ ← put_value r₁.1 16 key_b 20
  r₃ ← put_value r₂.1 24 key_a 11
  r₄ ← remove r₃.1 key_b
  a ← get r₄.1 key_a
  b ← get r₄.1 key_b
  ok (r₁.0 ∷ r₂.0 ∷ r₃.0 ∷ r₄.0 ∷ a ∷ b ∷ r₄.1.size ∷ [])

session_test : session ≡ ok (0 ∷ 0 ∷ 10 ∷ 20 ∷ 11 ∷ 0 ∷ 1 ∷ [])
unfolding program
session_test = refl

-- A table of one bucket: "b" at address 16, and behind it "a" at address 8.
abbrev pair_heap : Heap Node
pair_heap p =
    if p == 16
    then some (node key_b 20 null 8)
    else (if p == 8 then some (node key_a 10 16 null) else none)

abbrev pub pair : Map
pair = record { heap = pair_heap; nodes = 16 ∷ []; size = 2; capacity = 1 }

abbrev pair_cells : Cells
pair_cells = (16, key_b, 20) ∷ (8, key_a, 10) ∷ []

abbrev pair_buckets : Buckets
pair_buckets zero = pair_cells
pair_buckets (suc i) = []

pair-Chain : (i : ℕ) → i < 1 → Chain pair_heap null (get_or pair.nodes i null) (pair_buckets i)
unfolding has
pair-Chain zero h =
    cons (record { not_null = refl; holds = refl }) refl
      (cons (record { not_null = refl; holds = refl }) refl (nil refl))
pair-Chain (suc i) h = nil refl

pair-owned : (a : Ptr) → ((i : ℕ) → i < 1 → has a (pair_buckets i) ≡ false) → pair_heap a ≡ none
unfolding has
pair-owned a out = let no = out 0 (omega arith) in ground arith

pair-placed : (i : ℕ) (k : Key) (v : ℕ) → i < 1 → find k (pair_buckets i) ≡ some v → home pair k ≡ i
pair-placed i k v h found = omega arith

pair-Once : (i : ℕ) → i < 1 → Once (pair_buckets i)
unfolding find same_key
pair-Once zero h = (refl, (refl, tt))
pair-Once (suc i) h = tt

pub pair-IsTable : IsTable pair pair_buckets
unfolding total
pair-IsTable = record {
  width = refl;
  some_buckets = omega arith;
  chain = pair-Chain;
  apart = λ i j a hi hj there there'. omega arith;
  once = pair-Once;
  placed = pair-placed;
  counted = refl;
  owned = pair-owned;
}

get-view_example : get pair key_a ≡ ok (or_null (view pair pair_buckets key_a))
get-view_example = get-view pair-IsTable key_a

put_value-Writes_example :
    Returns (put_value pair 24 (99 ∷ []) 30) (Writes pair pair_buckets (99 ∷ []) (some 30))
put_value-Writes_example =
    put_value-Writes (99 ∷ []) 30 pair-IsTable (record { not_null = refl; unused = refl })

remove-Writes_example : Returns (remove pair key_a) (Writes pair pair_buckets key_a none)
remove-Writes_example = remove-Writes key_a pair-IsTable

clear-IsTable_example :
    Returns (clear pair) λ m'.
      IsTable m' (λ _. []) × ((a : Ptr) → m'.heap a ≡ none) × (m'.size ≡ 0) × (m'.capacity ≡ 1)
clear-IsTable_example = clear-IsTable pair-IsTable

visit_test : visit_all pair ≡ ok ((key_b, 20) ∷ (key_a, 10) ∷ [])
unfolding program
visit_test = refl

-- An iterator is started again, and one without a table is not.
rewind_test :
    (rewind (some pair) (record { pos = 0; cur = 8 }) ≡ ok (16, record { pos = 0; cur = 16 }))
    × (rewind none (record { pos = 0; cur = 8 }) ≡ ok (0, record { pos = 0; cur = 8 }))
unfolding program
rewind_test = (refl, refl)

visit_all-pairs_example :
    (visit_all pair ≡ ok (pairs (cells_from pair_buckets 0 1)))
    × (length (cells_from pair_buckets 0 1) ≡ 2)
    × ((k : Key) → find k (cells_from pair_buckets 0 1) ≡ view pair pair_buckets k)
visit_all-pairs_example = visit_all-pairs pair-IsTable
