-- ===== src/Buffer/Dump.antt =====
-- What `TecBuffer_as_hex` returns.
use Prim.Native.Nat.{min}
use mathlib.Core.Path.{subst}
use tecc.Base.{
  ℕ, zero, suc, ◌+◌, ◌-◌, ◌*◌, ◌/◌, ◌^◌, ◌≤◌, ◌<◌, ◌≡◌, inl, inr, refl, ap, ◌∙◌, Bool, true, false,
  List, [], ◌∷◌, ◌++◌, arith, ltb, ◌==◌, if◌then◌else◌, u64, le→not_ltb, Bool-cases, length, take,
  drop, length-append, length-take, length-drop, take-length, take-nil, drop-length, replicate,
  length-replicate,
}
use tecc.Base.Int.{ℤ}
use tecc.Base.Run.{ok, fault, Returns}
use tecc.Buffer.Bytes.{peek}
use tecc.Buffer.Defs.{Buffer, Env, ensure_capacity}
use tecc.Buffer.Growth.{IsValid, view, Grants, length-view}
use tecc.Buffer.Lifetime.{blank, blank-IsValid, init-blank}
use tecc.Buffer.Hex.{hex_loop, hex_fill, start_of, hex_length, as_hex, hex_buffer_block_size}
use tecc.Buffer.HexText.{AllPlain, hex_text, hex_loop-fault}
use tecc.Buffer.Printing.{take-eq_take, Dumped, Prepared, prepare, hex_fill_lem}

AllPlain-drop :
    (signed : Bool) (n : ℕ) (xs : List ℕ) → AllPlain signed xs → AllPlain signed (drop n xs)
AllPlain-drop signed zero xs h = h
AllPlain-drop signed (suc n) [] h = h
AllPlain-drop signed (suc n) (x ∷ xs) h = AllPlain-drop signed n xs h.1

AllPlain-take :
    (signed : Bool) (n : ℕ) (xs : List ℕ) → AllPlain signed xs → AllPlain signed (take n xs)
AllPlain-take signed zero xs h = tt
AllPlain-take signed (suc n) [] h = tt
AllPlain-take signed (suc n) (x ∷ xs) h = (h.0, AllPlain-take signed n xs h.1)

-- The bytes that a start and a length select: `len` from the start on, or all that are left if it
-- is 0.
abbrev pub selected : Buffer → ℤ → ℕ → List ℕ
selected src start len =
    let rest = drop (start_of start) (view src) in if len == 0 then rest else take len rest

pub AllPlain-selected :
    (signed : Bool) (src : Buffer) (start : ℤ) (len : ℕ)
    → AllPlain signed (view src)
    → AllPlain signed (selected src start len)
AllPlain-selected signed src start len plain =
    let rest = AllPlain-drop signed (start_of start) (view src) plain in
    elim (Bool-cases (len == 0)) [
      | inl e ↦ rw e rest
      | inr e ↦ rw e (AllPlain-take signed len _ rest)
    ]

pub length-selected :
    (src : Buffer) (start : ℤ) (len : ℕ) → length (selected src start len) ≤ length (view src)
length-selected src start len =
    let rest = length-drop (start_of start) (view src) in
    elim (Bool-cases (len == 0)) [
      | inl e ↦ rw e (omega arith)
      | inr e ↦ rw e (omega (arith, length-take len (drop (start_of start) (view src))))
    ]

hex_length_lem :
    (src : Buffer) (start len : ℕ)
    → start ≤ src.size
    → start + len < 2 ^ 63
    → src.size < 2 ^ 61
    → hex_length src start len ≡ (if len == 0 then src.size - start else min len (src.size - start))
unfolding hex_length
hex_length_lem src start len inside small sized = ground arith

take-hex_length :
    {src : Buffer} (start len : ℕ)
    → IsValid src
    → start ≤ src.size
    → start + len < 2 ^ 63
    → src.size < 2 ^ 61
    → (start + hex_length src start len ≤ src.size)
      × (take (hex_length src start len) (drop start (view src))
          ≡ (if len == 0 then drop start (view src) else take len (drop start (view src))))
take-hex_length {src} start len v inside small sized =
    let rest = drop start (view src) in
    let left : length rest ≡ src.size - start =
      length-drop start (view src) ∙ ap (λ (n : ℕ). n - start) (length-view v) in
    elim (Bool-cases (len == 0)) [
      | inl e ↦
          let n : hex_length src start len ≡ src.size - start =
            hex_length_lem src start len inside small sized ∙ rw e in
          (omega arith, rw e (take-length rest _ (omega arith)))
      | inr e ↦
          let n : hex_length src start len ≡ min len (src.size - start) =
            hex_length_lem src start len inside small sized ∙ rw e in
          (omega arith, rw e (take-eq_take rest _ len (omega arith)))
    ]

selected-nil :
    {src : Buffer} (start : ℤ) (len : ℕ)
    → IsValid src
    → src.size ≤ start_of start
    → selected src start len ≡ []
selected-nil {src} start len v past =
    rw
      (drop-length (view src) (start_of start) (omega (arith, length-view v)), take-nil {A = ℕ} len)
      (ground arith)

blank-Dumped : Dumped [] (blank hex_buffer_block_size 0)
unfolding hex_text
blank-Dumped = record {
  valid = blank-IsValid hex_buffer_block_size (omega arith);
  text = refl;
  at_end = refl;
  ended = λ h. absurd (omega arith);
}

-- Where every request of memory is granted: TecBuffer_as_hex of a well-formed buffer of less than 2
-- ^ 61 bytes, none of which `char` shows as negative, for a start and a length whose sum is below 2
-- ^ 63, ends without a fault. It prints the bytes selected, a blank and the character or two digits
-- for each, and a null byte follows the text if a byte was selected.
pub as_hex-Dumped :
    (env : Env) (signed : Bool) {src : Buffer} (start : ℤ) (len : ℕ)
    → Grants env
    → IsValid src
    → AllPlain signed (view src)
    → start_of start + len < 2 ^ 63
    → src.size < 2 ^ 61
    → Returns (as_hex env signed src start len) (Dumped (selected src start len))
unfolding as_hex
as_hex-Dumped env signed {src} start len grants v plain small sized =
    let made = init-blank env 0 hex_buffer_block_size grants (omega arith) in
    let s = start_of start in
    elim (Bool-cases (src.size == 0)) [
      | inl e ↦ (
        blank hex_buffer_block_size 0,
        rw (made, e),
        rw (selected-nil start len v (ground arith)) blank-Dumped,
      )
      | inr e ↦ elim (Bool-cases (ltb src.size s)) [
        | inl e' ↦ (
          blank hex_buffer_block_size 0,
          rw (made, e, e'),
          rw (selected-nil start len v (ground arith)) blank-Dumped,
        )
        | inr e' ↦
            let (inside, same) = take-hex_length s len v (ground arith) small sized in
            let n = hex_length src s len in
            let (bs, ready) = prepare env s n grants v inside sized in
            let (r, run, d) =
              hex_fill_lem env signed src s n _ bs ready
                (AllPlain-take signed n _ (AllPlain-drop signed s (view src) plain)) in
            (r, rw (made, e, e') run, rw same at d)
      ]
    ]

hex_steps-fault :
    (env : Env) (signed : Bool) (src : Buffer) (start n size bs : ℕ) (bytes : List ℕ)
    → u64 (u64 (n * 2) + 1) ≡ size
    → u64 (size / hex_buffer_block_size * hex_buffer_block_size + hex_buffer_block_size) ≡ bs
    → ensure_capacity env (blank bs 0) 0 size ≡ ok (blank bs bs)
    → peek src.contents start n ≡ ok bytes
    → hex_loop signed bytes (replicate bs 0) 0 ≡ fault
    → hex_fill env signed src start n (blank hex_buffer_block_size 0) ≡ fault
unfolding hex_fill
hex_steps-fault env signed src start n size bs bytes sized rounded grown got looped =
    rw (sized, rounded, grown, got, looped)

hex_fill-fault :
    (env : Env) (src : Buffer) (start n : ℕ) (cs ds : List ℕ) (c bs : ℕ)
    → Prepared env src start n (cs ++ c ∷ ds) bs
    → AllPlain true cs
    → 128 ≤ c
    → c < 256
    → hex_fill env true src start n (blank hex_buffer_block_size 0) ≡ fault
hex_fill-fault env src start n cs ds c bs ready plain high byte =
    let count = length-append cs (c ∷ ds) in
    hex_steps-fault env true src start n _ bs (cs ++ c ∷ ds) ready.sized ready.rounded ready.grown
      ready.got
      (hex_loop-fault cs ds (replicate bs 0) c 0 plain high byte
        (omega (arith, ready.count, ready.room, length-replicate {A = ℕ} bs 0)))

-- Where `char` is signed, `TecBuffer_as_hex` of a well-formed buffer reads outside its table at the
-- first byte selected that is 128 or more.
pub as_hex-fault :
    (env : Env) {src : Buffer} (start : ℤ) (len : ℕ) (cs ds : List ℕ) (c : ℕ)
    → Grants env
    → IsValid src
    → start_of start ≤ src.size
    → start_of start + len < 2 ^ 63
    → src.size < 2 ^ 61
    → selected src start len ≡ cs ++ c ∷ ds
    → AllPlain true cs
    → 128 ≤ c
    → c < 256
    → 0 < src.size
    → as_hex env true src start len ≡ fault
unfolding as_hex
as_hex-fault env {src} start len cs ds c grants v within small sized chosen plain high byte some =
    let made = init-blank env 0 hex_buffer_block_size grants (omega arith) in
    let s = start_of start in
    let (inside, same) = take-hex_length s len v within small sized in
    let (bs, ready) = prepare env s (hex_length src s len) grants v inside sized in
    let nonempty : (src.size == 0) ≡ false = ground arith in
    rw (made, nonempty, le→not_ltb src.size s within)
      (hex_fill-fault env src s _ cs ds c bs
        (subst (λ bytes. Prepared env src s (hex_length src s len) bytes bs) (same ∙ chosen) ready)
        plain high byte)
