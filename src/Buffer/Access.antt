-- ===== src/Buffer/Access.antt =====
-- `TecBuffer_read` and `TecBuffer_seek` as operations on the bytes held.
use Prim.Native.Nat.{min}
use tecc.Base.{
  ℕ, zero, suc, ◌+◌, ◌-◌, ◌^◌, ◌≤◌, ◌<◌, ◌≡◌, ◌≢◌, ◌⊎◌, inl, inr, refl, sym, ◌∙◌, false, List, [],
  arith, ltb, ◌==◌, if◌then◌else◌, u64, le→not_ltb, Bool-cases, length, take, drop, take-drop-take,
  take-drop-append,
}
use tecc.Base.Int.{ℤ, pos, negsuc}
use tecc.Base.Run.{ok, ◌>>=◌, Returns}
use tecc.Buffer.Bytes.{peek_lem}
use tecc.Buffer.Defs.{
  Buffer, Env, write, read, move_to, seek, Origin, seek_set, new_position, end_of_buffer,
}
use tecc.Buffer.Growth.{IsValid, view, Grants, IsSmall, HasRoom, length-view}
use tecc.Buffer.Writing.{write-Written}

-- What a read of at most `len` bytes gives: those at the position, as many as there are.
pub record Got (b : Buffer) (len : ℕ) (r : ℕ × List ℕ × Buffer) : Type 0 where
  pub count : r.0 ≡ min len (b.size - b.pos)
  pub bytes : r.1 ≡ take r.0 (drop b.pos (view b))
  pub rest : r.2 ≡ record b { pos = b.pos + r.0 }
  pub valid : IsValid r.2

read_some :
    (b : Buffer) (len n : ℕ)
    → (len == 0) ≡ false
    → (if ltb b.size (u64 (b.pos + len)) then u64 (b.size + 2 ^ 64 - b.pos) else len) ≡ n
    → b.pos + n ≤ length b.contents
    → read b len ≡ ok (n, take n (drop b.pos b.contents), record b { pos = b.pos + n })
unfolding read
read_some b len n some e room = rw (some, e, peek_lem b.contents b.pos n room)

-- A read of `len` bytes from a well-formed buffer, where the position and `len` together and the
-- size are each below 2 ^ 63, never leaves the contents: it returns the bytes from the position on,
-- `len` of them or all that are left, moves the position behind them, and changes nothing else.
pub read-Got :
    {b : Buffer} (len : ℕ)
    → IsValid b
    → b.pos + len < 2 ^ 63
    → b.size < 2 ^ 63
    → Returns (read b len) (Got b len)
unfolding read
read-Got {b} zero v small sized = (
  (0, [], b),
  refl,
  record {
    count = omega arith;
    bytes = refl;
    rest = let e : b.pos + 0 ≡ b.pos = omega arith in rw e;
    valid = v;
  },
)
read-Got {b} (suc k) v small sized =
    let n = min (suc k) (b.size - b.pos) in
    (
      (n, take n (drop b.pos b.contents), record b { pos = b.pos + n }),
      read_some b (suc k) n (ground arith) (ground arith) (omega arith),
      record {
        count = refl;
        bytes = sym (take-drop-take b.contents b.pos n b.size (omega arith));
        rest = refl;
        valid = record {
          block = v.block;
          within = omega arith;
          filled = v.filled;
          has_block_size = v.has_block_size;
          roomy = v.roomy;
        };
      },
    )

-- The outcome of a seek to `target`: the position is there, inside the contents; or `target` lies
-- outside, and nothing has changed.
abbrev pub Sought : Buffer → ℤ → ℤ × Buffer → Type 0
Sought b target (code, t) =
    (code ≡ pos 0) × (target ≡ pos t.pos) × (t.pos ≤ b.size) × (t ≡ record b { pos = t.pos })
    ⊎ (code ≡ end_of_buffer) × ((p : ℕ) → p ≤ b.size → target ≢ pos p) × (t ≡ b)

move_to-Sought : (b : Buffer) (target : ℤ) → Sought b target (move_to b target)
unfolding move_to
move_to-Sought b (negsuc n) = inr (refl, (λ p h e. cc), refl)
move_to-Sought b (pos p) = elim (Bool-cases (ltb b.size p)) [
  | inl e ↦ rw e (inr (refl, (λ q h eq. ground arith), refl))
  | inr e ↦ rw e (inl (refl, refl, ground arith, refl))
]

move_to-IsValid : {b : Buffer} (target : ℤ) → IsValid b → IsValid (move_to b target).1
unfolding move_to
move_to-IsValid (negsuc n) v = v
move_to-IsValid {b} (pos p) v = elim (Bool-cases (ltb b.size p)) [
  | inl e ↦ rw e v
  | inr e ↦ rw e (record {
    block = v.block;
    within = ground arith;
    filled = v.filled;
    has_block_size = v.has_block_size;
    roomy = v.roomy;
  })
]

-- `TecBuffer_seek` moves the position to the place meant, the origin's plus the offset, if that
-- lies between 0 and the end of the contents, and else refuses and leaves the buffer as it is; the
-- buffer stays well formed.
pub seek-Sought :
    {b : Buffer} (offset : ℤ) (origin : Origin)
    → IsValid b
    → IsValid (seek b offset origin).1
      × Sought b (new_position b offset origin) (seek b offset origin)
unfolding seek
seek-Sought {b} offset origin v =
    let target = new_position b offset origin in (move_to-IsValid target v, move_to-Sought b target)

seek_back : (t : Buffer) (p : ℕ) → p ≤ t.size → (seek t (pos p) seek_set).1 ≡ record t { pos = p }
unfolding seek new_position move_to
seek_back t p h = rw (le→not_ltb t.size p h)

read_after :
    (env : Env) (b t : Buffer) (src : List ℕ) (n : ℕ) (r : ℕ × List ℕ × Buffer)
    → write env b src ≡ ok (n, t)
    → b.pos ≤ t.size
    → read (record t { pos = b.pos }) (length src) ≡ ok r
    → (do (_, t) ← write env b src; read (seek t (pos b.pos) seek_set).1 (length src)) ≡ ok r
read_after env b t src n r run h got = rw (run, seek_back t b.pos h) got

-- Where every request of memory is granted: after a write of bytes into a well-formed buffer of
-- which the sum of capacity, block size, position and number of bytes is below 2 ^ 63, and which
-- has a block already or a block size of at least the bytes, a seek back to where the write began
-- and a read of its length give the bytes written.
pub read-seek-write :
    (env : Env) {b : Buffer} (src : List ℕ)
    → Grants env
    → IsValid b
    → IsSmall b (length src)
    → HasRoom b (length src)
    → Returns
        (do (_, t) ← write env b src; read (seek t (pos b.pos) seek_set).1 (length src))
        λ r. (r.0 ≡ length src) × (r.1 ≡ src)
read-seek-write env {b} src grants v small room =
    let (r, run, w) = write-Written env src grants v small room in
    let back : IsValid (record r.1 { pos = b.pos }) = omega (arith, w.valid, w.size) in
    let (got, reads, g) =
      read-Got {b = record r.1 { pos = b.pos }} (length src) back (omega arith) (omega arith) in
    let count : got.0 ≡ length src = omega arith in
    let held = length-view v in
    (
      got,
      read_after env b r.1 src r.0 got run (omega arith) reads,
      (
        count,
        g.bytes
            ∙ rw (count, w.contents)
                (take-drop-append (view b) src (drop (b.pos + length src) (view b)) b.pos
                  (omega arith)),
      ),
    )
