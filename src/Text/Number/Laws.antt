-- ===== src/Text/Number/Laws.antt =====
-- Parsing what was printed, and the bound on what is parsed.
use chasm.Prelude.{
  ℕ, zero, suc, ◌+◌, ◌-◌, ◌*◌, ◌/◌, ◌%◌, ◌≤◌, ◌<◌, ◌≡◌, ◌≢◌, refl, ◌∙◌, some, [], ◌∷◌, arith, All,
  ltb, Bool-cases, inl, inr,
}
use chasm.Text.Ascii.{Text}
use chasm.Text.Number.{parse_digits, parse_uint, digits_onto, decimal}

pub parse_digits-le :
    (limit n : ℕ) (s : Text) (m : ℕ) → n ≤ limit → parse_digits limit n s ≡ some m → m ≤ limit
unfolding parse_digits
parse_digits-le limit n [] m h e = ground arith
parse_digits-le limit n (c ∷ s) m h e =
    ground (arith, parse_digits-le limit (n * 10 + (c - b'0')) s m)

-- An accepted number does not pass the type's largest value.
pub parse_uint-le : (limit : ℕ) (s : Text) (m : ℕ) → parse_uint limit s ≡ some m → m ≤ limit
unfolding parse_uint
parse_uint-le limit [] m e = cc
parse_uint-le limit (c ∷ []) m e = parse_digits-le limit 0 (c ∷ []) m (omega arith) e
parse_uint-le limit (c ∷ d ∷ s) m e = ground (
  arith,
  parse_digits-le limit 0 (d ∷ s) m (omega arith),
  parse_digits-le limit 0 (c ∷ d ∷ s) m (omega arith),
)

abbrev pub IsDigit : ℕ → Type 0
IsDigit c = (b'0' ≤ c) × (c ≤ b'9')

digits_onto-IsDigit : (f n : ℕ) (s : Text) → All IsDigit s → All IsDigit (digits_onto f n s)
unfolding digits_onto
digits_onto-IsDigit zero n s h = h
digits_onto-IsDigit (suc f) n s h = elim (Bool-cases (ltb n 10)) [
  | inl e ↦ rw e ((omega arith, omega arith), h)
  | inr e ↦
      rw e (digits_onto-IsDigit f (n / 10) ((b'0' + n % 10) ∷ s) ((omega arith, omega arith), h))
]

pub decimal-IsDigit : (n : ℕ) → All IsDigit (decimal n)
unfolding decimal
decimal-IsDigit n = digits_onto-IsDigit (suc n) n [] tt

digits_onto-ne-nil : (f n c : ℕ) (s : Text) → digits_onto f n (c ∷ s) ≢ []
unfolding digits_onto
digits_onto-ne-nil zero n c s = cc
digits_onto-ne-nil (suc f) n c s =
    ground (arith, digits_onto-ne-nil f (n / 10) (b'0' + n % 10) (c ∷ s))

decimal-ne-nil : (n : ℕ) → decimal n ≢ []
unfolding decimal digits_onto
decimal-ne-nil n = ground (arith, digits_onto-ne-nil n (n / 10) (b'0' + n % 10) [])

-- Reading the digits of a number, then `s`, is reading `s` after that number.
parse_digits-digits_onto :
    (limit f n : ℕ) (s : Text)
    → n ≤ limit
    → n < f
    → parse_digits limit 0 (digits_onto f n s) ≡ parse_digits limit n s
unfolding parse_digits digits_onto
parse_digits-digits_onto limit zero n s h k = absurd (omega arith)
parse_digits-digits_onto limit (suc f) n s h k =
    let e : n / 10 * 10 + (b'0' + n % 10 - b'0') ≡ n = omega arith in
    ground (arith, e, parse_digits-digits_onto limit f (n / 10) ((b'0' + n % 10) ∷ s) (omega arith))

parse_uint-digit :
    (limit : ℕ) (s : Text) → All IsDigit s → s ≢ [] → parse_uint limit s ≡ parse_digits limit 0 s
unfolding parse_uint
parse_uint-digit limit [] h k = absurd (k refl)
parse_uint-digit limit (c ∷ []) h k = refl
parse_uint-digit limit (c ∷ d ∷ s) h k = ground arith

-- A number that fits its type is read back from its decimal rendering.
pub parse_uint-decimal : (limit n : ℕ) → n ≤ limit → parse_uint limit (decimal n) ≡ some n
unfolding decimal parse_digits
parse_uint-decimal limit n h =
    parse_uint-digit limit (decimal n) (decimal-IsDigit n) (decimal-ne-nil n)
    ∙ parse_digits-digits_onto limit (suc n) n [] h (omega arith)
