-- ===== src/Text/Ascii.antt =====
-- Bytes, literals, equality, and the ASCII case mappings of `str`.
use Prim.Native.Char.{code}
use chasm.Prelude.{
  ℕ, ◌+◌, ◌-◌, ◌<◌, String, Bool, true, false, ◌&&◌, List, [], ◌∷◌, ltb, leb, ◌==◌, All, length,
  get_elem?, some, none, if◌then◌else◌,
}

abbrev pub Text : Type 0
Text = List ℕ

-- A literal, which is ASCII wherever the crates write one that matters here.
abbrev pub ascii : String → Text
ascii String.[] = []
ascii (String.◌∷◌ c s) = code c ∷ ascii s

abbrev pub IsAscii : Text → Type 0
IsAscii = All (λ c. c < 128)

unfoldable pub text_eq : Text → Text → Bool
text_eq [] [] = true
text_eq (a ∷ s) (b ∷ t) = a == b && text_eq s t
text_eq _ _ = false

-- `u8::to_ascii_lowercase` and `to_ascii_uppercase`.
unfoldable pub lower : ℕ → ℕ
lower c = if leb b'A' c && leb c b'Z' then c + 32 else c

unfoldable pub upper : ℕ → ℕ
upper c = if leb b'a' c && leb c b'z' then c - 32 else c

unfoldable pub to_ascii_lowercase : Text → Text
unfolding lower
to_ascii_lowercase [] = []
to_ascii_lowercase (c ∷ s) = lower c ∷ to_ascii_lowercase s

unfoldable pub to_ascii_uppercase : Text → Text
unfolding upper
to_ascii_uppercase [] = []
to_ascii_uppercase (c ∷ s) = upper c ∷ to_ascii_uppercase s

unfoldable pub eq_ignore_ascii_case : Text → Text → Bool
unfolding text_eq to_ascii_lowercase
eq_ignore_ascii_case s t = text_eq (to_ascii_lowercase s) (to_ascii_lowercase t)

-- `str::is_char_boundary`: no slice starts or ends inside a character.
unfoldable pub is_char_boundary : Text → ℕ → Bool
is_char_boundary s n =
    if n == 0
    then true
    else if n == length s
    then true
    else elim (get_elem? s n) [ none ↦ false | some c ↦ if ltb c 128 then true else leb 192 c ]
