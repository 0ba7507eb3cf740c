-- ===== src/Router/Selection.antt =====
-- Which path of the document a request is routed to, and what the other outcomes mean.
use chasm.Router.Template.{normalise_trailing_slash, match_template, count_literal_segments}
use chasm.Text.{Text}
use chasm.Router.{try_candidates, serving_operation, note_mismatch, note_match, Search}
use chasm.OpenApi.{PathItem, Operation}
use chasm.Prelude.{
  ◌≡◌, ◌∷◌, some, refl, or, none, inr, inl, arith, [], Option-cases, Option, List, Bool,
}

-- The parameters of the first candidate that matches a template.
unfoldable pub first_match : (Text → Option Text) → Text → List Text → Option (List (Text × Text))
first_match decode template [] = none
first_match decode template (c ∷ cs) =
    or (match_template decode template (normalise_trailing_slash c))
      (first_match decode template cs)

note_mismatch_idem :
    (i : PathItem) (st : Search) → note_mismatch i (note_mismatch i st) ≡ note_mismatch i st
unfolding note_mismatch
note_mismatch_idem i st = ground arith

module _ (decode : Text → Option Text) (upper : Text) (strict : Bool) where
  -- What one path item does to the search, given the parameters of its first match.
  unfoldable pub settle :
      Text → PathItem → Option (List (Text × Text)) → Option Operation → Search → Search
  settle template i none op st = st
  settle template i (some params) none st = note_mismatch i st
  settle template i (some params) (some op) st =
      note_match (count_literal_segments template)
        (record { operation = op; path_params = params; path_template = template }) st

  try_candidates_mismatched :
      (template : Text) (i : PathItem) (cs : List Text) (st : Search)
      → serving_operation i upper strict ≡ none
      → try_candidates decode upper strict template i cs (note_mismatch i st) ≡ note_mismatch i st
  unfolding try_candidates
  try_candidates_mismatched template i [] st e = refl
  try_candidates_mismatched template i (c ∷ cs) st e =
      elim (Option-cases (match_template decode template (normalise_trailing_slash c))) [
        | inl n ↦ rw (n, try_candidates) (try_candidates_mismatched template i cs st e)
        | inr (params, n) ↦
            rw (n, e, try_candidates)
              (rw (note_mismatch_idem i st) (try_candidates_mismatched template i cs st e))
      ]

  -- The loop over the candidates stops at the first that matches.
  pub try_candidates-eq-settle :
      (template : Text) (i : PathItem) (cs : List Text) (st : Search)
      → try_candidates decode upper strict template i cs st
        ≡ settle template i (first_match decode template cs) (serving_operation i upper strict) st
  unfolding try_candidates settle first_match
  try_candidates-eq-settle template i [] st = refl
  try_candidates-eq-settle template i (c ∷ cs) st =
      elim (Option-cases (match_template decode template (normalise_trailing_slash c))) [
        | inl n ↦ rw (n, try_candidates) (try_candidates-eq-settle template i cs st)
        | inr (params, n) ↦ elim (Option-cases (serving_operation i upper strict)) [
          | inl e ↦ rw (n, e, try_candidates) (try_candidates_mismatched template i cs st e)
          | inr (op, e) ↦ rw (n, e, try_candidates)
        ]
      ]
