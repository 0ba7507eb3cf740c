-- ===== src/Text/Number.antt =====
-- `str::parse` at an unsigned type, and its inverse, the decimal rendering of a number.
pub mod Laws
use chasm.Prelude.{
  ℕ, zero, suc, ◌+◌, ◌-◌, ◌*◌, ◌/◌, ◌%◌, Option, some, none, [], ◌∷◌, ◌&&◌, ltb, leb, ◌==◌,
  if◌then◌else◌,
}
use chasm.Text.Ascii.{Text}

-- The loop with checked arithmetic: an overflow is an error, as is a byte that is no digit.
unfoldable pub parse_digits : ℕ → ℕ → Text → Option ℕ
parse_digits limit n [] = some n
parse_digits limit n (c ∷ s) =
    let n' = n * 10 + (c - b'0') in
    let rest = parse_digits limit n' s in
    if leb b'0' c && leb c b'9' then (if leb n' limit then rest else none) else none

-- A leading `+` is accepted before a digit; the empty text is an error.
unfoldable pub parse_uint : ℕ → Text → Option ℕ
unfolding parse_digits
parse_uint limit [] = none
parse_uint limit (c ∷ []) = parse_digits limit 0 (c ∷ [])
parse_uint limit (c ∷ d ∷ s) =
    if c == b'+' then parse_digits limit 0 (d ∷ s) else parse_digits limit 0 (c ∷ d ∷ s)

-- The digits of a number in front of a text, on fuel.
digits_onto : ℕ → ℕ → Text → Text
digits_onto zero n s = s
digits_onto (suc fuel) n s =
    let s' = (b'0' + n % 10) ∷ s in
    let rest = digits_onto fuel (n / 10) s' in if ltb n 10 then s' else rest

-- The decimal rendering; a number has at most as many digits as it has ones.
unfoldable pub decimal : ℕ → Text
unfolding digits_onto
decimal n = digits_onto (suc n) n []
