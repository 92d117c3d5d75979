-- ===== src/Map/Defs.antt =====
-- tecc_map.c and tecc_map.h: the table, its nodes and its operations. The nodes stand in a heap
-- that is part of the table. A key is the bytes of its string, a value is a pointer.
use Prim.Native.Nat.{bit_xor}
use tecc.Base.{
  ℕ, zero, suc, ◌+◌, ◌-◌, ◌*◌, ◌%◌, ◌&&◌, Bool, true, false, List, [], ◌∷◌, ◌==◌, if◌then◌else◌,
  u64, set, replicate,
}
use tecc.Base.Heap.{Ptr, null, Heap, load, fill, store, free}
use tecc.Base.Run.{Run, ok, fault, out_of_fuel, ◌>>=◌}

abbrev pub Key : Type 0
Key = List ℕ

pub record Node : Type 0 where
  pub key : Key
  pub value : ℕ
  pub prev : Ptr
  pub next : Ptr

pub record Map : Type 0 where
  pub heap : Heap Node
  pub nodes : List Ptr
  pub size : ℕ
  pub capacity : ℕ

abbrev pub default_size : ℕ
default_size = 117

-- h ^= c; h *= 1099511628211;
unfoldable pub fnv_1a_loop : ℕ → Key → ℕ
fnv_1a_loop h [] = h
fnv_1a_loop h (c ∷ s) = fnv_1a_loop (u64 (bit_xor h c * 1099511628211)) s

unfoldable pub fnv_1a_64 : Key → ℕ
unfolding fnv_1a_loop
fnv_1a_64 s = fnv_1a_loop 14695981039346656037 s

-- strcmp(s, t) == 0
unfoldable pub same_key : Key → Key → Bool
same_key [] [] = true
same_key [] (d ∷ t) = false
same_key (c ∷ s) [] = false
same_key (c ∷ s) (d ∷ t) = (c == d) && same_key s t

-- `hash_str(key) % map->capacity`; a division by 0 faults.
unfoldable pub slot : Map → Key → Run ℕ
slot m key = if m.capacity == 0 then fault else ok (fnv_1a_64 key % m.capacity)

-- `map->nodes[ndx]`
unfoldable pub root_at : List Ptr → ℕ → Run Ptr
root_at [] i = fault
root_at (p ∷ ps) zero = ok p
root_at (p ∷ ps) (suc i) = root_at ps i

-- The loop of `find_node` over a bucket.
unfoldable pub find_in_bucket : ℕ → Heap Node → Ptr → Key → Run Ptr
find_in_bucket zero h b key = out_of_fuel
find_in_bucket (suc fuel) h b key = if b == null then ok null else (do
  n ← load h b
  let rest = find_in_bucket fuel h n.next key
  if same_key n.key key then ok b else rest)

-- NULL if there is no node for the key. The bucket holds no more nodes than the table.
unfoldable pub find_node : Map → Key → ℕ → Run Ptr
find_node m key ndx = do
  node ← root_at m.nodes ndx
  if node == null then ok null else (do
    n ← load m.heap node
    if same_key n.key key then ok node else find_in_bucket (suc m.size) m.heap n.next key)

-- if (p) p->prev = prev;
unfoldable pub set_prev : Heap Node → Ptr → Ptr → Run (Heap Node)
set_prev h p prev =
    if p == null then ok h else load h p >>= λ n. store h p (record n { prev = prev })

-- `p` is what `malloc` returns.
unfoldable pub new_node : Heap Node → Ptr → Key → ℕ → Ptr → Ptr → Run (Heap Node)
new_node h p key value prev next =
    fill h p (record { key = key; value = value; prev = prev; next = next })

-- Whether the table was made, and the table; `granted` says whether `calloc` returned a block.
unfoldable pub init : Map → Bool → ℕ → Bool × Map
init m granted size =
    let n = if size == 0 then default_size else size in
    if granted
    then (true, record m { nodes = replicate n null; size = 0; capacity = n })
    else (false, record m { nodes = [] })

-- The branch of `TecMap_set` for a key that is there: the value at its node is changed.
unfoldable pub change_value : Map → Ptr → ℕ → Run (ℕ × Map)
change_value m found value = do
  n ← load m.heap found
  h ← store m.heap found (record n { value = value })
  ok (n.value, record m { heap = h })

-- The branch for a new key: a new root of the bucket, at the address `p` from `malloc`.
unfoldable pub add_root : Map → Ptr → ℕ → Key → ℕ → Run (ℕ × Map)
add_root m p ndx key value = do
  root ← root_at m.nodes ndx
  h ← new_node m.heap p key value null root
  h' ← set_prev h root p
  ok (null, record m { heap = h'; nodes = set m.nodes ndx p; size = m.size + 1 })

-- Sets the value of a key. Returns the old value, or NULL.
unfoldable pub put_value : Map → Ptr → Key → ℕ → Run (ℕ × Map)
put_value m p key value = do
  ndx ← slot m key
  found ← find_node m key ndx
  if found == null then add_root m p ndx key value else change_value m found value

unfoldable pub get : Map → Key → Run ℕ
get m key = do
  ndx ← slot m key
  node ← find_node m key ndx
  if node == null then ok null else load m.heap node >>= λ n. ok n.value

-- The removal of the node `n` at `p` where it is the root of bucket `ndx`.
unfoldable pub drop_root : Map → Ptr → Node → ℕ → Run Map
drop_root m p n ndx = do
  h ← set_prev m.heap n.next null
  h' ← free h p
  ok (record m { heap = h'; nodes = set m.nodes ndx n.next; size = m.size - 1 })

-- The removal of the node `n` at `p` where another node stands before it.
unfoldable pub unlink : Heap Node → Ptr → Node → Run (Heap Node)
unlink h p n = do
  before ← load h n.prev
  h₁ ← store h n.prev (record before { next = n.next })
  h₂ ← set_prev h₁ n.next n.prev
  free h₂ p

-- The removal of the node `n` at `p`, and its value.
unfoldable pub remove_node : Map → Ptr → Node → ℕ → Run (ℕ × Map)
remove_node m p n ndx =
    if n.prev == null
    then (drop_root m p n ndx >>= λ m'. ok (n.value, m'))
    else (unlink m.heap p n >>= λ h. ok (n.value, record m { heap = h; size = m.size - 1 }))

-- Removes a key. Returns the old value, or NULL.
unfoldable pub remove : Map → Key → Run (ℕ × Map)
remove m key = do
  ndx ← slot m key
  p ← find_node m key ndx
  if p == null then ok (null, m) else load m.heap p >>= λ n. remove_node m p n ndx

-- Frees every node from `p` on.
unfoldable pub delete_bucket : ℕ → Heap Node → Ptr → Run (Heap Node)
delete_bucket zero h p = out_of_fuel
delete_bucket (suc fuel) h p =
    if p == null then ok h else load h p >>= λ n. free h p >>= λ h'. delete_bucket fuel h' n.next

-- The body of the loop of `TecMap_clear`, for bucket `i`.
unfoldable pub clear_bucket : ℕ → ℕ → Heap Node → List Ptr → Run (Heap Node × List Ptr)
clear_bucket fuel i h nodes = do
  node ← root_at nodes i
  if node == null
      then ok (h, nodes)
      else (delete_bucket fuel h node >>= λ h'. ok (h', set nodes i null))

-- The loop of `TecMap_clear` over the `n` buckets from `i` on.
unfoldable pub clear_loop : ℕ → ℕ → ℕ → Heap Node → List Ptr → Run (Heap Node × List Ptr)
clear_loop fuel zero i h nodes = ok (h, nodes)
clear_loop fuel (suc n) i h nodes = do
  r ← clear_bucket fuel i h nodes
  clear_loop fuel n (suc i) r.0 r.1

-- A bucket holds no more nodes than the table.
unfoldable pub clear : Map → Run Map
clear m = do
  r ← clear_loop (suc m.size) m.capacity 0 m.heap m.nodes
  ok (record m { heap = r.0; nodes = r.1; size = 0 })

unfoldable pub done : Map → Run Map
done m = do m' ← clear m; ok (record m' { nodes = []; capacity = 0 })
