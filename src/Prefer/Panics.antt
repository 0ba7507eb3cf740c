-- ===== src/Prefer/Panics.antt =====
-- When `from_prefer_header` panics, and what it computes when it does not.
use mathlib.Core.List.{foldl}
use chasm.Prelude.{
  ◌≤◌, ◌≡◌, refl, ap, false, Option, some, none, List, [], ◌∷◌, arith, length, leb, All, Bool-cases,
  inl, inr,
}
use chasm.Prelude.Run.{Run, done, panic}
use chasm.Text.{Text, ascii, IsAscii, is_char_boundary, split, before, trim, parse_uint, lower}
use chasm.Text.Laws.{is_char_boundary-ascii, strip_ci, strip_ci_short, strip_ci_lem}
use chasm.Text.Trim.Laws.{All-trim}
use chasm.Text.Search.Laws.{split-before, All-split}
use chasm.Prefer.{
  PreferDirectives, default, max_u16, max_u64, strip_prefix_ignore_ascii_case,
  strip_token_parameters, parse_bool, set_code, set_seed, branch, apply_part, apply_parts,
  from_prefer_header,
}

pub strip-ascii :
    (s p : Text) → IsAscii s → strip_prefix_ignore_ascii_case s p ≡ done (strip_ci s p)
unfolding strip_prefix_ignore_ascii_case lower
strip-ascii s p h = elim (Bool-cases (leb (length p) (length s))) [
  | inl e ↦
      rw (e, is_char_boundary-ascii s (length p) h (ground arith))
        (ap done (strip_ci_lem s p (ground arith)))
  | inr e ↦ rw (e, strip_ci_short s p (ground arith))
]

-- A branch of the ladder where nothing panics.
abbrev pub pick : Option Text → (Text → PreferDirectives) → PreferDirectives → PreferDirectives
pick none hit miss = miss
pick (some rest) hit miss = hit rest

branch_lem :
    {m : Run (Option Text)} (o : Option Text) (hit : Text → PreferDirectives)
    {miss : Run PreferDirectives} {x : PreferDirectives}
    → m ≡ done o
    → miss ≡ done x
    → branch m hit miss ≡ done (pick o hit x)
unfolding branch
branch_lem none hit p q = rw p q
branch_lem (some rest) hit p q = rw p

-- What one part of the header does: the first name that it begins with decides.
unfoldable pub apply_ci : Text → PreferDirectives → PreferDirectives
unfolding lower
apply_ci part out =
    pick (strip_ci part (ascii "code="))
      (λ rest. set_code (parse_uint max_u16 (strip_token_parameters rest)) out)
      (pick (strip_ci part (ascii "example="))
        (λ rest. record out { example = some (strip_token_parameters rest) })
        (pick (strip_ci part (ascii "dynamic="))
          (λ rest. record out { dynamic = parse_bool (strip_token_parameters rest) })
          (pick (strip_ci part (ascii "seed="))
            (λ rest. set_seed (parse_uint max_u64 (strip_token_parameters rest)) out)
            (pick (strip_ci part (ascii "validate="))
              (λ rest. record out { validate = parse_bool (strip_token_parameters rest) })
              (pick (strip_ci part (ascii "security="))
                (λ rest. record out { security = parse_bool (strip_token_parameters rest) })
                out)))))

pub apply_part-ascii :
    (part : Text) (out : PreferDirectives)
    → IsAscii part
    → apply_part part out ≡ done (apply_ci part out)
unfolding apply_ci apply_part
apply_part-ascii part out h = branch_lem _ _ (strip-ascii part _ h) (
    branch_lem _ _ (strip-ascii part _ h) (
      branch_lem _ _ (strip-ascii part _ h) (
        branch_lem _ _ (strip-ascii part _ h)
          (branch_lem _ _ (strip-ascii part _ h) (branch_lem _ _ (strip-ascii part _ h) refl)))))

abbrev pub round : PreferDirectives → Text → PreferDirectives
round out part = apply_ci (trim part) out

apply_parts-ascii :
    (parts : List Text) (out : PreferDirectives)
    → All IsAscii parts
    → apply_parts parts out ≡ done (foldl round out parts)
unfolding apply_parts
apply_parts-ascii [] out h = refl
apply_parts-ascii (part ∷ parts) out (p, h) =
    rw (apply_part-ascii (trim part) out (All-trim _ part p))
      (apply_parts-ascii parts (round out part) h)

-- An ASCII header never panics: each comma-separated part in turn, trimmed, is applied by the
-- first directive name that it begins with, whatever the case of the letters.
pub from_prefer_header-ascii :
    (value : Text)
    → IsAscii value
    → from_prefer_header value ≡ done (foldl round default (split b',' value))
from_prefer_header-ascii value h =
    unfold from_prefer_header in
    apply_parts-ascii (split b',' value) default (All-split _ b',' value h)

strip_panic :
    (s p : Text)
    → length p ≤ length s
    → is_char_boundary s (length p) ≡ false
    → strip_prefix_ignore_ascii_case s p ≡ panic
unfolding strip_prefix_ignore_ascii_case
strip_panic s p h e = elim (Bool-cases (leb (length p) (length s))) [
  | inl q ↦ rw (q, e)
  | inr q ↦ absurd (ground arith)
]

-- A header whose first part, trimmed, has at least five bytes and a character that stretches over
-- its fifth and sixth byte makes the parser panic, whatever follows.
pub from_prefer_header-panic :
    (value : Text)
    → 5 ≤ length (trim (before b',' value))
    → is_char_boundary (trim (before b',' value)) 5 ≡ false
    → from_prefer_header value ≡ panic
unfolding from_prefer_header apply_parts apply_part branch
from_prefer_header-panic value h e =
    let (rest, q) = split-before b',' value in
    rw (q, strip_panic (trim (before b',' value)) (ascii "code=") h e)
