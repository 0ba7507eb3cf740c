-- ===== src/Text/Utf8.antt =====
-- Whether bytes are UTF-8, as `std::str::from_utf8` decides.
use chasm.Prelude.{
  ℕ, Option, none, some, zero, suc, Bool, true, false, ◌&&◌, [], ◌∷◌, ltb, leb, ◌==◌, if◌then◌else◌,
}
use chasm.Text.Ascii.{Text}

-- What follows a first byte: how many bytes, and between which two the next of them is.
abbrev pub lead : ℕ → Option (ℕ × ℕ × ℕ)
lead b =
    if ltb b 128
    then some (0, 128, 191)
    else if ltb b 194
    then none
    else if ltb b 224
    then some (1, 128, 191)
    else if b == 224
    then some (2, 160, 191)
    else if b == 237
    then some (2, 128, 159)
    else if ltb b 240
    then some (2, 128, 191)
    else if b == 240
    then some (3, 144, 191)
    else if ltb b 244
    then some (3, 128, 191)
    else if b == 244
    then some (3, 128, 143)
    else none

-- `pending` more bytes of the character, the next of them between `lo` and `hi`.
abbrev pub utf8_from : ℕ → ℕ → ℕ → Text → Bool
utf8_from zero lo hi [] = true
utf8_from (suc n) lo hi [] = false
utf8_from (suc n) lo hi (b ∷ s) = leb lo b && leb b hi && utf8_from n 128 191 s
utf8_from zero lo hi (b ∷ s) = elim (lead b) [ none ↦ false | some t ↦ utf8_from t.0 t.1 t.2 s ]

unfoldable pub is_utf8 : Text → Bool
is_utf8 s = utf8_from 0 128 191 s
