-- ===== src/Buffer/Writing.antt =====
-- `TecBuffer_write` as an operation on the bytes held.
use Prim.Native.Nat.{max}
use tecc.Base.{
  ℕ, ◌+◌, ◌*◌, ◌<◌, ◌≤◌, ◌≡◌, refl, sym, ap, ◌∙◌, false, List, [], ◌∷◌, ◌++◌, arith, ltb, ◌==◌,
  if◌then◌else◌, length, take, drop, take-append-drop,
}
use tecc.Base.Run.{ok, Returns}
use tecc.Buffer.Bytes.{splice, memcpy_lem, length-splice, take-splice}
use tecc.Buffer.Defs.{Buffer, Env, ensure_capacity, write}
use tecc.Buffer.Growth.{IsValid, view, Grants, IsSmall, HasRoom, Grown, ensure_capacity-Grown}

-- The bytes `xs` with `src` written at `p`.
abbrev pub overwrite : List ℕ → ℕ → List ℕ → List ℕ
overwrite xs p src = take p xs ++ (src ++ drop (p + length src) xs)

-- What a write of `src` to `b` leaves: `src` over the bytes at the position, the position behind
-- it, and a well-formed buffer.
pub record Written (b : Buffer) (src : List ℕ) (r : ℕ × Buffer) : Type 0 where
  pub returned : r.0 ≡ length src
  pub valid : IsValid r.1
  pub contents : view r.1 ≡ overwrite (view b) b.pos src
  pub end : r.1.pos ≡ b.pos + length src
  pub size : r.1.size ≡ max b.size (b.pos + length src)
  pub block_size : r.1.block_size ≡ b.block_size
  pub lean : 0 < b.capacity → r.1.capacity ≤ max b.capacity (2 * (b.pos + length src))

-- The write into a buffer that has the room.
abbrev pub put : Buffer → Buffer → List ℕ → Buffer
put b t src = record t {
  contents = splice t.contents b.pos src;
  size = if ltb t.size (b.pos + length src) then b.pos + length src else t.size;
  pos = b.pos + length src;
}

pub write_grown :
    (env : Env) (b t : Buffer) (src : List ℕ)
    → (length src == 0) ≡ false
    → ensure_capacity env b b.pos (length src) ≡ ok t
    → b.pos + length src ≤ length t.contents
    → write env b src ≡ ok (length src, put b t src)
unfolding write
write_grown env b t src some run room = rw (some, run, memcpy_lem t.contents b.pos src room)

later_end : (s e : ℕ) → (if ltb s e then e else s) ≡ max s e
later_end s e = ground arith

pub put-Written :
    {b t : Buffer} (src : List ℕ)
    → IsValid b
    → Grown b (b.pos + length src) t
    → Written b src (length src, put b t src)
put-Written {b} {t} src v g = record {
  returned = refl;
  valid = record {
    block = length-splice t.contents b.pos src ∙ g.valid.block;
    within = ground arith;
    filled = ground arith;
    has_block_size = g.valid.has_block_size;
    roomy = g.valid.roomy;
  };
  contents =
      take-splice t.contents b.pos t.size src (b.pos + length src) _ (omega arith) (omega arith)
        (omega arith) refl (later_end t.size (b.pos + length src))
      ∙ ap (λ xs. overwrite xs b.pos src) g.same_view;
  end = refl;
  size = rw (later_end t.size (b.pos + length src), g.same_size);
  block_size = g.same_block_size;
  lean = g.lean;
}

overwrite-nil : (xs : List ℕ) (p : ℕ) → overwrite xs p [] ≡ xs
overwrite-nil xs p = let e : p + 0 ≡ p = omega arith in rw e (take-append-drop p xs)

-- Where every request of memory is granted: a write of bytes into a well-formed buffer of which the
-- sum of capacity, block size, position and number of bytes is below 2 ^ 63, and which has a block
-- already or a block size of at least the bytes, succeeds. It overwrites the bytes at the position,
-- extends the contents where it passes their end, and moves the position behind what it wrote.
pub write-Written :
    (env : Env) {b : Buffer} (src : List ℕ)
    → Grants env
    → IsValid b
    → IsSmall b (length src)
    → HasRoom b (length src)
    → Returns (write env b src) (Written b src)
unfolding write
write-Written env {b} [] grants v small room = (
  (0, b),
  refl,
  record {
    returned = refl;
    valid = v;
    contents = sym (overwrite-nil (view b) b.pos);
    end = omega arith;
    size = omega arith;
    block_size = refl;
    lean = λ h. omega arith;
  },
)
write-Written env {b} (x ∷ src) grants v small room =
    let len = length (x ∷ src) in
    let (t, run, g) = ensure_capacity-Grown env b.pos len grants v (omega arith) (omega arith) in
    (
      (len, put b t (x ∷ src)),
      write_grown env b t (x ∷ src) (ground arith) run (omega arith),
      put-Written (x ∷ src) v g,
    )
