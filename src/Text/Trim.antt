-- ===== src/Text/Trim.antt =====
-- `str::trim`: the characters of Unicode's White_Space, by their bytes of UTF-8.
pub mod Laws
use mathlib.Core.List.{reverse}
use chasm.Prelude.{ℕ, zero, suc, Bool, ◌&&◌, ◌||◌, [], ◌∷◌, leb, ◌==◌, if◌then◌else◌}
use chasm.Text.Ascii.{Text}

-- U+0009 to U+000D and the space.
is_white_1 : ℕ → Bool
is_white_1 a = (leb 9 a && leb a 13) || a == 32

-- U+0085 and U+00A0.
is_white_2 : ℕ → ℕ → Bool
is_white_2 a b = a == 0xC2 && (b == 0x85 || b == 0xA0)

-- U+1680, U+2000 to U+200A, U+2028, U+2029, U+202F, U+205F and U+3000.
is_white_3 : ℕ → ℕ → ℕ → Bool
is_white_3 a b c =
    (a == 0xE1 && b == 0x9A && c == 0x80)
    || ((a == 0xE2 && b == 0x80)
        && ((leb 0x80 c && leb c 0x8A) || c == 0xA8 || c == 0xA9 || c == 0xAF))
    || (a == 0xE2 && b == 0x81 && c == 0x9F)
    || (a == 0xE3 && b == 0x80 && c == 0x80)

-- The length of the white character at the front, or 0.
white_front : Text → ℕ
unfolding is_white_1 is_white_2 is_white_3
white_front [] = 0
white_front (a ∷ []) = if is_white_1 a then 1 else 0
white_front (a ∷ b ∷ []) = if is_white_1 a then 1 else if is_white_2 a b then 2 else 0
white_front (a ∷ b ∷ c ∷ s) =
    if is_white_1 a then 1 else if is_white_2 a b then 2 else if is_white_3 a b c then 3 else 0

-- The same at the back, for a reversed text.
white_back : Text → ℕ
unfolding is_white_1 is_white_2 is_white_3
white_back [] = 0
white_back (a ∷ []) = if is_white_1 a then 1 else 0
white_back (b ∷ a ∷ []) = if is_white_1 b then 1 else if is_white_2 a b then 2 else 0
white_back (c ∷ b ∷ a ∷ s) =
    if is_white_1 c then 1 else if is_white_2 b c then 2 else if is_white_3 a b c then 3 else 0

-- Drops `pending` bytes, then white characters.
trim_by : (Text → ℕ) → ℕ → Text → Text
trim_by white pending [] = []
trim_by white (suc pending) (c ∷ s) = trim_by white pending s
trim_by white zero (c ∷ s) = elim (white (c ∷ s)) [ zero ↦ c ∷ s | suc k ↦ trim_by white k s ]

unfoldable pub trim : Text → Text
unfolding trim_by white_front white_back
trim s = reverse (trim_by white_back 0 (reverse (trim_by white_front 0 s)))

-- `str::trim_start`.
unfoldable pub trim_start : Text → Text
unfolding trim_by white_front
trim_start s = trim_by white_front 0 s
