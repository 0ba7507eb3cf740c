-- ===== src/Text/Search.antt =====
-- Searching and splitting.
pub mod Laws
use chasm.Prelude.{
  ℕ, suc, Bool, true, false, ◌&&◌, ◌||◌, List, [], ◌∷◌, ◌++◌, Option, some, none, ◌==◌,
  if◌then◌else◌,
}
use mathlib.Core.List.{reverse}
use mathlib.Core.Option
use chasm.Text.Ascii.{Text}

unfoldable pub starts_with : Text → Text → Bool
starts_with s [] = true
starts_with [] (_ ∷ _) = false
starts_with (c ∷ s) (d ∷ t) = c == d && starts_with s t

unfoldable pub strip_prefix : Text → Text → Option Text
strip_prefix s [] = some s
strip_prefix [] (_ ∷ _) = none
strip_prefix (c ∷ s) (d ∷ t) = if c == d then strip_prefix s t else none

-- `s.contains(c)` for an ASCII character.
unfoldable pub contains : Text → ℕ → Bool
contains [] c = false
contains (d ∷ s) c = d == c || contains s c

-- `s.ends_with(c)` for an ASCII character.
unfoldable pub ends_with : Text → ℕ → Bool
ends_with [] c = false
ends_with (d ∷ []) c = d == c
ends_with (_ ∷ d ∷ s) c = ends_with (d ∷ s) c

-- `s.strip_suffix(c)` for an ASCII character.
unfoldable pub strip_last : ℕ → Text → Option Text
strip_last c [] = none
strip_last c (d ∷ []) = if d == c then some [] else none
strip_last c (d ∷ e ∷ s) = Option.map (λ t. d ∷ t) (strip_last c (e ∷ s))

-- `s.ends_with(t)`.
abbrev pub ends_with_text : Text → Text → Bool
ends_with_text s t = starts_with (reverse s) (reverse t)

-- `s.find(t)`: the first offset at which `t` stands.
unfoldable pub find : Text → Text → Option ℕ
unfolding starts_with
find [] t = if starts_with [] t then some 0 else none
find (c ∷ s) t =
    let later = find s t in if starts_with (c ∷ s) t then some 0 else Option.map suc later

abbrev pub cons_head : ℕ → List Text → List Text
cons_head c [] = (c ∷ []) ∷ []
cons_head c (w ∷ ws) = (c ∷ w) ∷ ws

-- `s.split(c)` for an ASCII character; there is always a first piece.
unfoldable pub split : ℕ → Text → List Text
split c [] = [] ∷ []
split c (d ∷ s) = let rest = split c s in if d == c then [] ∷ rest else cons_head d rest

-- `s.split_once(c)`.
unfoldable pub split_once : ℕ → Text → Option (Text × Text)
split_once c [] = none
split_once c (d ∷ s) =
    let later = split_once c s in
    if d == c then some ([], s) else Option.map (λ p. (d ∷ p.0, p.1)) later

-- The first piece of `s.split(c)`.
unfoldable pub before : ℕ → Text → Text
before c [] = []
before c (d ∷ s) = let rest = before c s in if d == c then [] else d ∷ rest

-- `pieces.join(", ")`.
unfoldable pub join : Text → List Text → Text
join sep [] = []
join sep (w ∷ []) = w
join sep (w ∷ v ∷ ws) = w ++ (sep ++ join sep (v ∷ ws))

-- `s.trim_end_matches('/')` and the like.
abbrev drop_while : ℕ → Text → Text
drop_while c [] = []
drop_while c (d ∷ s) = if d == c then drop_while c s else d ∷ s

unfoldable pub trim_end_matches : ℕ → Text → Text
trim_end_matches c s = reverse (drop_while c (reverse s))
