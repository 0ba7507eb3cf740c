-- ===== src/Text/Laws.antt =====
-- Lemmas about the equality of texts and about character boundaries.
use chasm.Prelude.{
  ℕ, zero, suc, ◌≤◌, ◌<◌, ◌≡◌, ◌↔◌, true, false, Bool, Option, some, none, [], ◌∷◌, arith, refl,
  length, take, drop, get_elem?, ◌==◌, if◌then◌else◌,
}
use chasm.Text.Ascii.{Text, IsAscii, text_eq, lower, eq_ignore_ascii_case, is_char_boundary}

pub text_eq_iff : (s t : Text) → (text_eq s t ≡ true) ↔ (s ≡ t)
unfolding text_eq
text_eq_iff [] [] = ((λ _. refl), (λ _. refl))
text_eq_iff [] (b ∷ t) = ground arith
text_eq_iff (a ∷ s) [] = ground arith
text_eq_iff (a ∷ s) (b ∷ t) = ground (arith, text_eq_iff s t)

pub text_eq_refl : (s : Text) → text_eq s s ≡ true
text_eq_refl s = (text_eq_iff s s).1 refl

get_elem?-ascii :
    (s : Text) (n : ℕ) → IsAscii s → n < length s → (c : ℕ) × (get_elem? s n ≡ some c) × (c < 128)
get_elem?-ascii [] n h k = absurd (omega arith)
get_elem?-ascii (c ∷ s) zero (p, h) k = (c, refl, p)
get_elem?-ascii (c ∷ s) (suc n) (p, h) k = get_elem?-ascii s n h (omega arith)

-- Every index up to the length is a boundary of an ASCII text.
pub is_char_boundary-ascii :
    (s : Text) (n : ℕ) → IsAscii s → n ≤ length s → is_char_boundary s n ≡ true
unfolding is_char_boundary
is_char_boundary-ascii s n h k = go (n == length s) refl
  where
    go : (b : Bool) → (n == length s) ≡ b → is_char_boundary s n ≡ true
    go true e = ground arith
    go false e = let (c, found, small) = get_elem?-ascii s n h (ground arith) in ground arith

-- A prefix of letters matched without regard to case, by recursion: what remains behind it.
abbrev pub strip_ci : Text → Text → Option Text
unfolding lower
strip_ci s [] = some s
strip_ci [] (_ ∷ _) = none
strip_ci (c ∷ s) (d ∷ p) = if lower c == lower d then strip_ci s p else none

pub strip_ci_short : (s p : Text) → length s < length p → strip_ci s p ≡ none
unfolding lower
strip_ci_short [] [] h = absurd (omega arith)
strip_ci_short [] (d ∷ p) h = refl
strip_ci_short (c ∷ s) [] h = absurd (omega arith)
strip_ci_short (c ∷ s) (d ∷ p) h = ground (arith, strip_ci_short s p (omega arith))

pub strip_ci_lem :
    (s p : Text)
    → length p ≤ length s
    → (if eq_ignore_ascii_case (take (length p) s) p then some (drop (length p) s) else none)
      ≡ strip_ci s p
unfolding eq_ignore_ascii_case lower
strip_ci_lem s [] h = refl
strip_ci_lem [] (d ∷ p) h = absurd (omega arith)
strip_ci_lem (c ∷ s) (d ∷ p) h = ground (arith, strip_ci_lem s p (omega arith))
