-- ===== src/Buffer/Text.antt =====
-- `TecBuffer_puts`: strings appended to a buffer that stays null-terminated.
use Prim.Native.Nat.{max}
use tecc.Base.{
  ℕ, ◌+◌, ◌-◌, ◌*◌, ◌^◌, ◌≤◌, ◌<◌, ◌≡◌, inl, inr, refl, sym, ap, ◌∙◌, Bool, true, false, some, List,
  [], ◌∷◌, ◌++◌, append-nil, arith, ltb, u64, ◌==◌, if◌then◌else◌, Bool-cases, length, take, drop,
  length-append, take-length, drop-nil, drop-length, take-drop-take,
}
use tecc.Base.Run.{ok, Returns}
use tecc.Buffer.Bytes.{peek_lem}
use tecc.Buffer.Defs.{Buffer, Env, ensure_capacity, write, is_null, step_back, puts}
use tecc.Buffer.Growth.{
  IsValid, view, Grants, HasRoom, Grown, length-view, int_size_small, ensure_capacity-Grown,
}
use tecc.Buffer.Writing.{overwrite, write-Written}

-- The bytes without a null byte at their end.
unfoldable pub chop : List ℕ → List ℕ
chop [] = []
chop (x ∷ []) = if x == 0 then [] else x ∷ []
chop (x ∷ y ∷ xs) = x ∷ chop (y ∷ xs)

chop_lem :
    (x : ℕ) (xs : List ℕ)
    → chop (x ∷ xs)
      ≡ (if is_null (take 1 (drop (length xs) (x ∷ xs))) then take (length xs) (x ∷ xs) else x ∷ xs)
unfolding chop is_null
chop_lem x [] = refl
chop_lem x (y ∷ xs) = ground (arith, chop_lem y xs)

-- The buffer that `write` is given: one byte shorter if a null byte stands before the position.
abbrev stepped : Bool → Buffer → ℕ → Buffer
stepped true t p = record t { pos = p - 1; size = t.size - 1 }
stepped false t p = record t { pos = p }

ends_null : Buffer → Bool
ends_null b = is_null (take 1 (drop (b.size - 1) (view b)))

chop-view :
    {b : Buffer}
    → IsValid b
    → chop (view b) ≡ (if ends_null b then take (b.size - 1) (view b) else view b)
unfolding ends_null chop is_null
chop-view {b} v = by_list (view b) refl
  where
    by_list :
        (xs : List ℕ)
        → view b ≡ xs
        → chop (view b) ≡ (
            if is_null (take 1 (drop (b.size - 1) (view b)))
            then take (b.size - 1) (view b)
            else view b)
    by_list [] e = rw (e, drop-nil {A = ℕ} (b.size - 1))
    by_list (x ∷ xs) e =
        let n : b.size - 1 ≡ length xs = omega (arith, length-view v, ap length e) in
        rw (e, n) (chop_lem x xs)

stepped_if :
    (c : Bool) (t : Buffer) (p : ℕ)
    → (if c then record t { pos = p - 1; size = t.size - 1 } else record t { pos = p })
      ≡ stepped c t p
stepped_if true t p = refl
stepped_if false t p = refl

none_before : (b : Buffer) → b.size ≡ 0 → ends_null b ≡ false
unfolding ends_null is_null
none_before b e = rw e

module _ (env : Env) {b : Buffer} (v : IsValid b) (at_end : b.pos ≡ b.size) where
  step_back_lem :
      {n : ℕ} {t : Buffer} → Grown b n t → step_back t b.pos ≡ ok (stepped (ends_null b) t b.pos)
  unfolding step_back ends_null
  step_back_lem {n} {t} g = elim (Bool-cases (ltb 0 b.pos)) [
    | inl e ↦
        let more : 0 < b.pos = ground arith in
        let before : take 1 (drop (b.pos - 1) t.contents) ≡ take 1 (drop (b.size - 1) (view b)) =
          sym (take-drop-take t.contents (b.pos - 1) 1 t.size (omega arith))
          ∙ rw (g.same_view, at_end) in
        rw (e, peek_lem t.contents (b.pos - 1) 1 (omega arith), before)
          (ap ok (stepped_if (ends_null b) t b.pos))
    | inr e ↦
        let first : b.pos ≡ 0 = ground arith in
        rw (e, none_before b (omega arith)) (ap ok (stepped_if false t b.pos))
  ]

  puts_after :
      (t s : Buffer) (str : List ℕ) (r : ℕ × Buffer)
      → 0 < length str
      → length str + 1 < 2 ^ 31
      → ensure_capacity env b b.pos (length str + 1) ≡ ok t
      → step_back t b.pos ≡ ok s
      → write env s (str ++ 0 ∷ []) ≡ ok r
      → puts env b (some str) ≡ ok r
  unfolding puts
  puts_after t s str r more short grown back run =
      let n = length-append str (0 ∷ []) in
      let some_bytes : (length str == 0) ≡ false = ground arith in
      let fits : (length str == 2 ^ 31 - 1) ≡ false = ground arith in
      let size : u64 (length str + 1) ≡ length str + 1 = omega arith in
      let whole : take (length str + 1) (str ++ 0 ∷ []) ≡ str ++ 0 ∷ [] =
        take-length (str ++ 0 ∷ []) (length str + 1) (omega arith) in
      rw
        (
          int_size_small (length str) (omega arith),
          some_bytes,
          fits,
          size,
          grown,
          back,
          peek_lem (str ++ 0 ∷ []) 0 (length str + 1) (omega arith),
          whole,
        )
        run

  stepped-IsValid :
      {n : ℕ} {t : Buffer} (c : Bool) → Grown b n t → 0 < n → IsValid (stepped c t b.pos)
  stepped-IsValid true g h = record {
    block = g.valid.block;
    within = omega arith;
    filled = omega arith;
    has_block_size = g.valid.has_block_size;
    roomy = g.valid.roomy;
  }
  stepped-IsValid false g h = record {
    block = g.valid.block;
    within = omega arith;
    filled = omega arith;
    has_block_size = g.valid.has_block_size;
    roomy = g.valid.roomy;
  }

  stepped_sizes :
      {n : ℕ} {t : Buffer} (c : Bool)
      → Grown b n t
      → ((stepped c t b.pos).pos ≡ (stepped c t b.pos).size)
        × ((stepped c t b.pos).capacity ≡ t.capacity)
        × ((stepped c t b.pos).block_size ≡ t.block_size)
        × ((stepped c t b.pos).pos ≤ b.pos)
  stepped_sizes true g = omega arith
  stepped_sizes false g = omega arith

  -- What stands before the string in the end: the bytes held, without the null byte at their end.
  stepped-view :
      {n : ℕ} {t : Buffer} → Grown b n t → view (stepped (ends_null b) t b.pos) ≡ chop (view b)
  stepped-view {n} {t} g =
      let keep : take (b.size - 1) (view b) ≡ take (b.size - 1) t.contents =
        rw (← g.same_view) (take-drop-take t.contents 0 (b.size - 1) t.size (omega arith)) in
      elim (Bool-cases (ends_null b)) [
        | inl e ↦ rw (chop-view v, e, keep, g.same_size)
        | inr e ↦ rw (chop-view v, e, g.same_view)
      ]

overwrite_end : (xs src : List ℕ) (p : ℕ) → length xs ≡ p → overwrite xs p src ≡ xs ++ src
overwrite_end xs src p h =
    rw (take-length xs p (omega arith), drop-length xs (p + length src) (omega arith))
      (ap (◌++◌ xs) (append-nil src))

-- What `puts` leaves at the end of a buffer: the string and one null byte behind the bytes held,
-- of which a null byte at their end is gone.
pub record Appended (b : Buffer) (str : List ℕ) (r : ℕ × Buffer) : Type 0 where
  pub returned : r.0 ≡ length str + 1
  pub valid : IsValid r.1
  pub contents : view r.1 ≡ chop (view b) ++ (str ++ 0 ∷ [])
  pub at_end : r.1.pos ≡ r.1.size
  pub block_size : r.1.block_size ≡ b.block_size
  pub lean : 0 < b.capacity → r.1.capacity ≤ max b.capacity (2 * (b.pos + length str + 1))

-- Where every request of memory is granted: at the end of a well-formed buffer, TecBuffer_puts of a
-- string that is not empty and shorter than 2 ^ 31 - 1 appends it, where twice the sum of capacity,
-- block size, position and length with the null byte is below 2 ^ 63 and the buffer has a block
-- already or a block size of at least the string with its null byte. One null byte ends the
-- contents, a null byte that ended them before is gone, and the position is behind the end.
pub puts-Appended :
    (env : Env) {b : Buffer} (str : List ℕ)
    → Grants env
    → IsValid b
    → b.pos ≡ b.size
    → 0 < length str
    → length str + 1 < 2 ^ 31
    → 2 * (b.capacity + b.block_size + b.pos + length str + 1) < 2 ^ 63
    → HasRoom b (length str + 1)
    → Returns (puts env b (some str)) (Appended b str)
puts-Appended env {b} str grants v at_end more short small room =
    let len = length str + 1 in
    let n = length-append str (0 ∷ []) in
    let (t, grown, g) = ensure_capacity-Grown env b.pos len grants v (omega arith) (omega arith) in
    let s = stepped (ends_null b) t b.pos in
    let sv = stepped-IsValid env v at_end (ends_null b) g (omega arith) in
    let (ends, capacity, block, before) = stepped_sizes env v at_end (ends_null b) g in
    let (r, run, w) =
      write-Written env {b = s} (str ++ 0 ∷ []) grants sv (omega arith) (inl (omega arith)) in
    (
      r,
      puts_after env v at_end t s str r more short grown (step_back_lem env v at_end g) run,
      record {
        returned = omega (arith, w.returned);
        valid = w.valid;
        contents =
            w.contents
            ∙ overwrite_end (view s) (str ++ 0 ∷ []) s.pos (omega (arith, length-view sv))
            ∙ ap (λ xs. xs ++ (str ++ 0 ∷ [])) (stepped-view env v at_end g);
        at_end = omega (arith, w.end, w.size);
        block_size = omega (arith, w.block_size);
        lean = λ h. omega (arith, g.lean h, w.lean (omega arith));
      },
    )
