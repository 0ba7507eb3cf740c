-- ===== src/Text/Replace.antt =====
-- `str::replace`, and the escapes of JSON pointers.
use chasm.Prelude.{ℕ, [], ◌∷◌, ◌++◌, ◌&&◌, ◌==◌, if◌then◌else◌}
use chasm.Text.Ascii.{Text}

-- `s.replace(c, t)` for an ASCII character.
unfoldable pub replace_char : ℕ → Text → Text → Text
replace_char c t [] = []
replace_char c t (d ∷ s) = let rest = replace_char c t s in if d == c then t ++ rest else d ∷ rest

-- `s.replace(cd, r)` for a pattern of two ASCII characters.
unfoldable pub replace_pair : ℕ → ℕ → ℕ → Text → Text
replace_pair c d r [] = []
replace_pair c d r (a ∷ []) = a ∷ []
replace_pair c d r (a ∷ b ∷ s) =
    let behind = replace_pair c d r s in
    let next = replace_pair c d r (b ∷ s) in if a == c && b == d then r ∷ behind else a ∷ next

-- `s.replace("~1", "/").replace("~0", "~")`.
unfoldable pub unescape : Text → Text
unfolding replace_pair
unescape s = replace_pair b'~' b'0' b'~' (replace_pair b'~' b'1' b'/' s)
