-- ===== src/Validation/Forms/Roundtrip.antt =====
-- Decoding a form undoes its encoding.
use mathlib.Core.Path.{ap₂}
use chasm.Prelude.{
  ==_iff, sym, ap, ℕ, Bool, true, false, ◌<◌, ◌≡◌, ◌&&◌, ◌||◌, ◌+◌, ◌/◌, ◌%◌, ltb, leb, ◌==◌,
  if◌then◌else◌, some, none, [], ◌∷◌, All, refl, arith, inl, inr, Bool-cases,
}
use chasm.Text.{Text, is_utf8}
use chasm.Validation.Forms.{
  hex_digit, plus_to_space, escaped_byte, decode_bytes, decode_form_urlencoded_bytes,
}

-- The bytes that a form writes as they are.
abbrev pub is_unreserved : ℕ → Bool
is_unreserved b =
    (leb b'0' b && leb b b'9')
    || (leb b'A' b && leb b b'Z')
    || (leb b'a' b && leb b b'z')
    || b == b'*'
    || b == b'-'
    || b == b'.'
    || b == b'_'

abbrev pub hex_char : ℕ → ℕ
hex_char n = if ltb n 10 then b'0' + n else 55 + n

-- The encoding of a form: a space is `+`, any other byte that is reserved is an escape.
unfoldable pub encode_bytes : Text → Text
encode_bytes [] = []
encode_bytes (b ∷ s) =
    let rest = encode_bytes s in
    if is_unreserved b
    then b ∷ rest
    else if b == b' '
    then b'+' ∷ rest
    else b'%' ∷ hex_char (b / 16) ∷ hex_char (b % 16) ∷ rest

hex_digit-hex_char : (n : ℕ) → n < 16 → hex_digit (hex_char n) ≡ some n
unfolding hex_digit
hex_digit-hex_char n h = ground arith

escaped_byte-other : (c d e : ℕ) → (c == b'%') ≡ false → escaped_byte c d e ≡ none
unfolding escaped_byte
escaped_byte-other c d e n = rw n refl

decode_bytes-plain :
    (c : ℕ) (s : Text)
    → (c == b'%') ≡ false
    → decode_bytes (c ∷ s) ≡ plus_to_space c ∷ decode_bytes s
unfolding decode_bytes
decode_bytes-plain c [] n = refl
decode_bytes-plain c (d ∷ []) n = refl
decode_bytes-plain c (d ∷ e ∷ s) n = rw (decode_bytes, escaped_byte-other c d e n) refl

escaped_byte-hex :
    (b : ℕ) → b < 256 → escaped_byte b'%' (hex_char (b / 16)) (hex_char (b % 16)) ≡ some b
unfolding escaped_byte
escaped_byte-hex b h =
    rw
      (
        escaped_byte,
        hex_digit-hex_char (b / 16) (omega arith),
        hex_digit-hex_char (b % 16) (omega arith),
      )
      (ap some (omega arith))

unreserved-not_percent : (b : ℕ) → is_unreserved b ≡ true → (b == b'%') ≡ false
unreserved-not_percent b u = ground arith

unreserved-kept : (b : ℕ) → is_unreserved b ≡ true → plus_to_space b ≡ b
unreserved-kept b u = ground arith

decode_bytes-escape :
    (b : ℕ) (s : Text)
    → b < 256
    → decode_bytes (b'%' ∷ hex_char (b / 16) ∷ hex_char (b % 16) ∷ s) ≡ b ∷ decode_bytes s
unfolding decode_bytes
decode_bytes-escape b s h = rw (decode_bytes, escaped_byte-hex b h) refl

decode_bytes-encode_bytes : (s : Text) → All (λ b. b < 256) s → decode_bytes (encode_bytes s) ≡ s
unfolding encode_bytes
decode_bytes-encode_bytes [] h = unfold decode_bytes in refl
decode_bytes-encode_bytes (b ∷ s) (h, hs) = elim (Bool-cases (is_unreserved b)) [
  | inl u ↦
      rw
        (u, decode_bytes-plain b (encode_bytes s) (unreserved-not_percent b u), unreserved-kept b u)
        (ap (λ t. b ∷ t) (decode_bytes-encode_bytes s hs))
  | inr r ↦ elim (Bool-cases (b == b' ')) [
    | inl y ↦
        rw (r, y, decode_bytes-plain b'+' (encode_bytes s) refl)
          (ap₂ (λ c t. c ∷ t) (sym ((==_iff b b' ').0 y)) (decode_bytes-encode_bytes s hs))
    | inr n ↦
        rw (r, n, decode_bytes-escape b (encode_bytes s) h)
          (ap (λ t. b ∷ t) (decode_bytes-encode_bytes s hs))
  ]
]

-- A form component that is decoded after it was encoded, a space as `+` and each other reserved
-- byte as `%` with two hexadecimal digits, is the text that was encoded, for every text of UTF-8.
pub decode-encode :
    (s : Text)
    → All (λ b. b < 256) s
    → is_utf8 s ≡ true
    → decode_form_urlencoded_bytes (encode_bytes s) ≡ some s
unfolding decode_form_urlencoded_bytes
decode-encode s h u = rw (decode_bytes-encode_bytes s h, u) refl
