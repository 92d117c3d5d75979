-- ===== src/Buffer/Printing.antt =====
-- The loop of `TecBuffer_as_hex` in a new buffer.
use Prim.Native.Nat.{min}
use tecc.Base.{
  ℕ, ◌+◌, ◌*◌, ◌/◌, ◌^◌, ◌≤◌, ◌<◌, ◌≡◌, inl, inr, refl, sym, ap, ◌∙◌, Bool, List, [], ◌∷◌, ◌++◌,
  arith, ltb, u64, Bool-cases, length, take, drop, length-append, length-take, length-drop,
  take-length, take-drop-take, take-append_front, replicate, length-replicate,
}
use tecc.Base.Run.{ok, Returns}
use tecc.Buffer.Bytes.{
  splice, memcpy, peek, memcpy_lem, peek_lem, take-splice_front, length-splice, splice-splice,
}
use tecc.Buffer.Defs.{Buffer, Env, ensure_capacity}
use tecc.Buffer.Growth.{IsValid, view, Grants, length-view}
use tecc.Buffer.Limits.{ensure_capacity-empty}
use tecc.Buffer.Lifetime.{blank, blank-IsValid}
use tecc.Buffer.Hex.{hex_loop, hex_fill, hex_buffer_block_size}
use tecc.Buffer.HexText.{AllPlain, hex_text, length-hex_text, hex_loop_lem}

-- A buffer that holds the text of `bytes`, followed by a null byte if there are any.
pub record Dumped (bytes : List ℕ) (dst : Buffer) : Type 0 where
  pub valid : IsValid dst
  pub text : view dst ≡ hex_text bytes
  pub at_end : dst.pos ≡ dst.size
  pub ended : 0 < length bytes → take (dst.size + 1) dst.contents ≡ hex_text bytes ++ 0 ∷ []

-- A block of `b` bytes with the text of the `n` bytes at its front.
abbrev printed : List ℕ → ℕ → ℕ → Buffer
printed bytes n b = record {
  contents = splice (replicate b 0) 0 (hex_text bytes ++ 0 ∷ []);
  pos = 2 * n;
  size = 2 * n;
  capacity = b;
  block_size = b;
}

printed-Dumped :
    (bytes : List ℕ) (n b : ℕ) → length bytes ≡ n → 2 * n + 1 ≤ b → Dumped bytes (printed bytes n b)
printed-Dumped bytes n b count room =
    let text = hex_text bytes ++ 0 ∷ [] in
    let block : List ℕ = replicate b 0 in
    let size : length text ≡ 2 * n + 1 =
      length-append (hex_text bytes) (0 ∷ []) ∙ omega (arith, length-hex_text bytes) in
    let zeros : length block ≡ b = length-replicate b 0 in
    let front : take (length text) (splice block 0 text) ≡ text =
      take-splice_front block text (omega arith) in
    record {
      valid = record {
        block = length-splice block 0 text ∙ zeros;
        within = omega arith;
        filled = omega arith;
        has_block_size = omega arith;
        roomy = inr (omega arith);
      };
      text =
          sym (take-drop-take (splice block 0 text) 0 (2 * n) (length text) (omega arith))
          ∙ rw front (
              take-append_front (hex_text bytes) (0 ∷ []) (2 * n)
                (omega (arith, length-hex_text bytes)));
      at_end = refl;
      ended = λ h. rw (← size) front;
    }

hex_steps :
    (env : Env) (signed : Bool) (src : Buffer) (start n size bs p : ℕ) (bytes block ended : List ℕ)
    → u64 (u64 (n * 2) + 1) ≡ size
    → u64 (size / hex_buffer_block_size * hex_buffer_block_size + hex_buffer_block_size) ≡ bs
    → ensure_capacity env (blank bs 0) 0 size ≡ ok (blank bs bs)
    → peek src.contents start n ≡ ok bytes
    → hex_loop signed bytes (replicate bs 0) 0 ≡ ok (block, p)
    → memcpy block p (0 ∷ []) ≡ ok ended
    → hex_fill env signed src start n (blank hex_buffer_block_size 0)
      ≡ ok (record (blank bs bs) { contents = ended; size = p; pos = p })
unfolding hex_fill
hex_steps env signed src start n size bs p bytes block ended sized rounded grown got looped done =
    rw (sized, rounded, grown, got, looped, done)

-- What `hex_fill` has before its loop: the bytes to print, and a block with room for their text.
pub record Prepared (env : Env) (src : Buffer) (start n : ℕ) (bytes : List ℕ) (bs : ℕ)
    : Type 0 where
  pub sized : u64 (u64 (n * 2) + 1) ≡ 2 * n + 1
  pub rounded :
      u64 ((2 * n + 1) / hex_buffer_block_size * hex_buffer_block_size + hex_buffer_block_size) ≡ bs
  pub grown : ensure_capacity env (blank bs 0) 0 (2 * n + 1) ≡ ok (blank bs bs)
  pub got : peek src.contents start n ≡ ok bytes
  pub count : length bytes ≡ n
  pub room : 2 * n + 1 ≤ bs

pub prepare :
    (env : Env) {src : Buffer} (start n : ℕ)
    → Grants env
    → IsValid src
    → start + n ≤ src.size
    → src.size < 2 ^ 61
    → (bs : ℕ) × Prepared env src start n (take n (drop start (view src))) bs
prepare env {src} start n grants v room small =
    let bs = (2 * n + 1) / 256 * 256 + 256 in
    let bytes = take n (drop start (view src)) in
    (
      bs,
      record {
        sized = omega arith;
        rounded = omega arith;
        grown =
            ensure_capacity-empty env {b = blank bs 0} 0 (2 * n + 1) grants
              (blank-IsValid bs (omega arith)) refl (omega arith) (omega arith);
        got =
            peek_lem src.contents start n (omega arith)
            ∙ ap ok (sym (take-drop-take src.contents start n src.size room));
        count = omega (
          arith,
          length-take n (drop start (view src)),
          length-drop start (view src),
          length-view v,
        );
        room = omega arith;
      },
    )

pub hex_fill_lem :
    (env : Env) (signed : Bool) (src : Buffer) (start n : ℕ) (bytes : List ℕ) (bs : ℕ)
    → Prepared env src start n bytes bs
    → AllPlain signed bytes
    → Returns (hex_fill env signed src start n (blank hex_buffer_block_size 0)) (Dumped bytes)
hex_fill_lem env signed src start n bytes bs ready plain =
    let block : List ℕ = replicate bs 0 in
    let text = splice block 0 (hex_text bytes) in
    let shown = length-hex_text bytes in
    let zeros : length block ≡ bs = length-replicate bs 0 in
    let whole : length text ≡ bs = length-splice block 0 (hex_text bytes) ∙ zeros in
    let ended : splice text (2 * n) (0 ∷ []) ≡ splice block 0 (hex_text bytes ++ 0 ∷ []) =
      splice-splice block 0 (2 * n) (hex_text bytes) (0 ∷ []) (omega arith) (omega arith) in
    let looped : hex_loop signed bytes block 0 ≡ ok (text, 2 * n) =
      hex_loop_lem signed bytes block 0 plain (omega arith)
      ∙ ap (λ (k : ℕ). ok (text, k)) (omega arith) in
    (
      record (blank bs bs) { contents = splice text (2 * n) (0 ∷ []); size = 2 * n; pos = 2 * n },
      hex_steps env signed src start n _ bs (2 * n) bytes text _ ready.sized ready.rounded
          ready.grown ready.got looped (memcpy_lem text (2 * n) (0 ∷ []) (omega arith)),
      rw ended (printed-Dumped bytes n bs ready.count ready.room),
    )

pub take-eq_take {ℓ} :
    {A : Type ℓ} (xs : List A) (n m : ℕ) → n ≡ min m (length xs) → take n xs ≡ take m xs
take-eq_take xs n m e = elim (Bool-cases (ltb m (length xs))) [
  | inl shorter ↦ let same : n ≡ m = ground arith in rw same
  | inr longer ↦ take-length xs n (ground arith) ∙ sym (take-length xs m (ground arith))
]
