-- ===== src/Buffer/HexText.antt =====
-- The text that `TecBuffer_as_hex` prints for bytes, its loop, and that the text can be read back.
use mathlib.Core.Path.{ap₂}
use tecc.Base.{
  ℕ, ◌+◌, ◌-◌, ◌*◌, ◌/◌, ◌%◌, ◌≤◌, ◌<◌, ◌≡◌, inl, inr, refl, Bool, true, false, ◌&&◌, List, [], ◌∷◌,
  ◌++◌, arith, ltb, ◌==◌, if◌then◌else◌, lt→ltb, Bool-cases, length,
}
use tecc.Base.Int.{pos}
use tecc.Base.Run.{ok, fault}
use tecc.Buffer.Bytes.{splice, memcpy_lem, length-splice, splice-nil, splice-splice}
use tecc.Buffer.Hex.{table, byte_at, char_value, to_hex_chars, hex_loop}

-- The upper-case digit of a number below 16.
abbrev pub digit : ℕ → ℕ
digit d = if ltb d 10 then b'0' + d else b'A' + (d - 10)

abbrev pub printable : ℕ → Bool
printable c = ltb 0x20 c && ltb c 0x7f

-- The two characters for a byte: a blank and the byte itself if it prints, and else its digits.
abbrev pub hex_high : ℕ → ℕ
hex_high c = if printable c then b' ' else digit (c / 16)

abbrev pub hex_low : ℕ → ℕ
hex_low c = if printable c then c else digit (c % 16)

unfoldable pub hex_text : List ℕ → List ℕ
hex_text [] = []
hex_text (c ∷ cs) = hex_high c ∷ hex_low c ∷ hex_text cs

table-digit : (d : ℕ) → d < 16 → byte_at table d ≡ ok (digit d)
unfolding byte_at
table-digit d h = ground arith

-- Bytes that a `char` of the platform does not show as negative.
abbrev pub AllPlain : Bool → List ℕ → Type 0
AllPlain signed [] = Unit
AllPlain signed (c ∷ cs) = (c < (if signed then 128 else 256)) × AllPlain signed cs

char_value-plain :
    (signed : Bool) (c : ℕ) → c < (if signed then 128 else 256) → char_value signed c ≡ pos c
unfolding char_value
char_value-plain true c h = rw (lt→ltb c 128 h)
char_value-plain false c h = refl

to_hex_chars_lem : (c : ℕ) → c < 256 → to_hex_chars (pos c) ≡ ok (hex_high c, hex_low c)
unfolding to_hex_chars
to_hex_chars_lem c h =
    ground (arith, table-digit (c / 16) (omega arith), table-digit (c % 16) (omega arith))

pub plain-lt : (signed : Bool) (c : ℕ) → c < (if signed then 128 else 256) → c < 256
plain-lt true c h = omega arith
plain-lt false c h = h

pub length-hex_text : (cs : List ℕ) → length (hex_text cs) ≡ 2 * length cs
unfolding hex_text
length-hex_text [] = refl
length-hex_text (c ∷ cs) = omega (arith, length-hex_text cs)

-- The loop writes the text of the bytes at its position.
pub hex_loop_lem :
    (signed : Bool) (cs block : List ℕ) (p : ℕ)
    → AllPlain signed cs
    → p + 2 * length cs ≤ length block
    → hex_loop signed cs block p ≡ ok (splice block p (hex_text cs), p + 2 * length cs)
unfolding hex_loop hex_text
hex_loop_lem signed [] block p plain room =
    let e : p + 2 * 0 ≡ p = omega arith in rw (splice-nil block p, e)
hex_loop_lem signed (c ∷ cs) block p plain room =
    let one = splice block p (hex_high c ∷ []) in
    let two = splice one (p + 1) (hex_low c ∷ []) in
    let n₁ = length-splice block p (hex_high c ∷ []) in
    let n₂ = length-splice one (p + 1) (hex_low c ∷ []) in
    let both : two ≡ splice block p (hex_high c ∷ hex_low c ∷ []) =
      splice-splice block p (p + 1) (hex_high c ∷ []) (hex_low c ∷ []) refl (omega arith) in
    let all =
      splice-splice block p (p + 2) (hex_high c ∷ hex_low c ∷ []) (hex_text cs) refl
        (omega arith) in
    let end : p + 2 + 2 * length cs ≡ p + 2 * length (c ∷ cs) = omega arith in
    rw (
      char_value-plain signed c plain.0,
      to_hex_chars_lem c (plain-lt signed c plain.0),
      memcpy_lem block p (hex_high c ∷ []) (omega arith),
      memcpy_lem one (p + 1) (hex_low c ∷ []) (omega arith),
      hex_loop_lem signed cs two (p + 2) plain.1 (omega arith),
      both,
      all,
      end,
    )

-- The loop faults at the first byte that `char` shows as negative.
pub hex_loop-fault :
    (cs ds block : List ℕ) (c p : ℕ)
    → AllPlain true cs
    → 128 ≤ c
    → c < 256
    → p + 2 * length cs ≤ length block
    → hex_loop true (cs ++ c ∷ ds) block p ≡ fault
unfolding hex_loop to_hex_chars char_value
hex_loop-fault [] ds block c p plain high byte room = ground arith
hex_loop-fault (b ∷ cs) ds block c p plain high byte room =
    let one = splice block p (hex_high b ∷ []) in
    let two = splice one (p + 1) (hex_low b ∷ []) in
    let n₁ = length-splice block p (hex_high b ∷ []) in
    let n₂ = length-splice one (p + 1) (hex_low b ∷ []) in
    rw
      (
        char_value-plain true b plain.0,
        to_hex_chars_lem b (plain-lt true b plain.0),
        memcpy_lem block p (hex_high b ∷ []) (omega arith),
        memcpy_lem one (p + 1) (hex_low b ∷ []) (omega arith),
      )
      (hex_loop-fault cs ds two c (p + 2) plain.1 high byte (omega arith))

-- The value of a digit.
abbrev pub digit_value : ℕ → ℕ
digit_value d = if ltb d b'A' then d - b'0' else d - b'A' + 10

-- Reading the text back, two characters at a time.
unfoldable pub read_hex : List ℕ → List ℕ
read_hex [] = []
read_hex (high ∷ []) = []
read_hex (high ∷ low ∷ rest) =
    (if high == b' ' then low else 16 * digit_value high + digit_value low) ∷ read_hex rest

abbrev pub AllBytes : List ℕ → Type 0
AllBytes [] = Unit
AllBytes (c ∷ cs) = (c < 256) × AllBytes cs

digit_value-digit : (d : ℕ) → d < 16 → digit_value (digit d) ≡ d
digit_value-digit d h = ground arith

digit-ne-blank : (d : ℕ) → d < 16 → (digit d == b' ') ≡ false
digit-ne-blank d h = ground arith

read_chars :
    (c : ℕ)
    → c < 256
    → (if hex_high c == b' '
        then hex_low c
        else 16 * digit_value (hex_high c) + digit_value (hex_low c))
      ≡ c
read_chars c h = elim (Bool-cases (printable c)) [
  | inl e ↦ rw e
  | inr e ↦
      rw
        (
          e,
          digit-ne-blank (c / 16) (omega arith),
          digit_value-digit (c / 16) (omega arith),
          digit_value-digit (c % 16) (omega arith),
        )
        (omega arith)
]

-- The text of bytes determines them.
pub read_hex-hex_text : (cs : List ℕ) → AllBytes cs → read_hex (hex_text cs) ≡ cs
unfolding read_hex hex_text
read_hex-hex_text [] h = refl
read_hex-hex_text (c ∷ cs) h = ap₂ ◌∷◌ (read_chars c h.0) (read_hex-hex_text cs h.1)
