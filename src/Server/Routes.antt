-- ===== src/Server/Routes.antt =====
-- crates/chasm-server/src/main.rs: the label of a request's route.
use chasm.Prelude.{
  ℕ, Bool, true, false, not, ◌&&◌, Option, some, none, List, [], ◌∷◌, length, ltb, drop, take,
  is_empty, suc, ◌-◌, if◌then◌else◌,
}
use chasm.Text.{Text, ascii, text_eq, split, starts_with, ends_with, contains}
use chasm.OpenApi.{Spec, ReferenceOr, PathItem}

-- A template that begins with `{` and ends with `}` has two bytes at least.
unfoldable pub segment_matches : Text → Text → Bool
segment_matches template actual =
    if starts_with template (ascii "{")
      && (ends_with template b'}'
          && not (contains (drop 1 (take (length template - 1) template)) b'{'))
    then not (is_empty actual)
    else text_eq template actual

abbrev pub segments_match : List Text → List Text → Bool
segments_match [] [] = true
segments_match (t ∷ ts) (p ∷ ps) = segment_matches t p && segments_match ts ps
segments_match _ _ = false

unfoldable pub template_matches_path : Text → Text → Bool
template_matches_path template path = segments_match (split b'/' template) (split b'/' path)

abbrev pub count_literals : List Text → ℕ
count_literals [] = 0
count_literals (s ∷ ss) =
    let n = count_literals ss in if starts_with s (ascii "{") then n else suc n

-- The loop over the templates, with the best one so far and its count.
unfoldable pub best_template :
    Text → List (Text × ReferenceOr PathItem) → Option (ℕ × Text) → Option (ℕ × Text)
best_template path [] best = best
best_template path ((template, _) ∷ es) best =
    let n = count_literals (split b'/' template) in
    let is_better : Bool = elim best [ none ↦ true | some b ↦ ltb b.0 n ] in
    best_template path es
      (if template_matches_path template path && is_better then some (n, template) else best)

unfoldable pub match_route_template : Spec → Text → Text
match_route_template spec path =
    let normalised =
      if ltb 1 (length path) && ends_with path b'/' then take (length path - 1) path else path in
    elim (best_template normalised spec.paths none) [ none ↦ ascii "_unmatched" | some b ↦ b.1 ]
