-- ===== src/Router.antt =====
-- crates/chasm-engine/src/router.rs: routing. `decode` is the percent decoder (Router/Template.antt).
pub mod Template
pub mod Servers
pub mod Methods
pub mod Selection
pub mod Entries
pub mod Outcome
pub mod Mixed
pub mod Bases
pub mod Listed
pub mod Allow
mod Tests
mod PathTests
use chasm.Router.Template.{normalise_trailing_slash, match_template, count_literal_segments}
use chasm.Router.Servers.{candidate_paths_for_servers_list}
use chasm.Router.Methods.{
  get_operation, allow_header_for_path_item_with_strict, allow_header_for_path_item,
}
use chasm.Text.{upper, to_ascii_uppercase, text_eq, get, ascii, Text}
use chasm.OpenApi.{item, reference, item, Spec, ReferenceOr, PathItem, Operation}
use chasm.Prelude.{
  if◌then◌else◌, ◌∷◌, ℕ, true, some, or, not, none, ltb, is_some, is_empty, false, [], Option, List,
  Bool, ◌&&◌,
}

pub record MatchedOperation : Type 0 where
  pub operation : Operation
  pub path_params : List (Text × Text)
  pub path_template : Text

pub data RouteMatch : Type 0 where
  operation : MatchedOperation → RouteMatch
  method_not_allowed : Text → RouteMatch
  synthesised_options : Text → RouteMatch
  not_found : RouteMatch

-- The loop's variables.
pub record Search : Type 0 where
  pub best : Option (ℕ × MatchedOperation)
  pub best_path_item : Option PathItem
  pub method_not_allowed_seen : Bool

abbrev pub search_start : Search
search_start = record { best = none; best_path_item = none; method_not_allowed_seen = false }

unfoldable pub candidate_paths_for_operation : Spec → PathItem → Text → Text → List Text
candidate_paths_for_operation spec path_item method path =
    let inherited =
      candidate_paths_for_servers_list
        (if is_empty path_item.servers then spec.servers else path_item.servers) path in
    elim (get_operation path_item method) [
      | none ↦ inherited
      | some op ↦
          if is_empty op.servers
          then inherited
          else candidate_paths_for_servers_list op.servers path
    ]

-- The operation that serves a method: its own, or for `HEAD` that of `GET`.
unfoldable pub serving_operation : PathItem → Text → Bool → Option Operation
serving_operation path_item upper strict = elim (get_operation path_item upper) [
  | some op ↦ some op
  | none ↦ if text_eq upper (ascii "HEAD") && not strict then path_item.get else none
]

-- The path matches and the method does not.
unfoldable pub note_mismatch : PathItem → Search → Search
note_mismatch path_item st = record st {
  best_path_item = or st.best_path_item (some path_item);
  method_not_allowed_seen = true;
}

-- Strictly more literal segments beat what was found before.
unfoldable pub is_better : Option (ℕ × MatchedOperation) → ℕ → Bool
is_better none n = true
is_better (some (m, _)) n = ltb m n

unfoldable pub note_match : ℕ → MatchedOperation → Search → Search
note_match n m st = if is_better st.best n then record st { best = some (n, m) } else st

module _ (decode : Text → Option Text) (upper : Text) (strict : Bool) where
  -- The loop over the candidates of one template; a match of path and method breaks it.
  unfoldable pub try_candidates : Text → PathItem → List Text → Search → Search
  try_candidates template path_item [] st = st
  try_candidates template path_item (candidate ∷ candidates) st =
      elim (match_template decode template (normalise_trailing_slash candidate)) [
        | none ↦ try_candidates template path_item candidates st
        | some params ↦ elim (serving_operation path_item upper strict) [
          | none ↦ try_candidates template path_item candidates (note_mismatch path_item st)
          | some op ↦
              note_match (count_literal_segments template)
                (record { operation = op; path_params = params; path_template = template }) st
        ]
      ]

  -- The loop over the document's paths; a reference is skipped.
  unfoldable pub try_paths : Spec → Text → List (Text × ReferenceOr PathItem) → Search → Search
  try_paths spec path [] st = st
  try_paths spec path ((template, reference r) ∷ paths) st = try_paths spec path paths st
  try_paths spec path ((template, item i) ∷ paths) st =
      try_paths spec path paths
        (try_candidates template i (candidate_paths_for_operation spec i upper path) st)

-- What the search comes to.
unfoldable pub conclude : Text → Bool → Search → RouteMatch
conclude upper strict st = elim st.best [
  | some (_, m) ↦ operation m
  | none ↦
      if text_eq upper (ascii "OPTIONS") && not strict && is_some st.best_path_item
      then elim st.best_path_item [
        | none ↦ not_found
        | some path_item ↦ synthesised_options (allow_header_for_path_item path_item)
      ]
      else if st.method_not_allowed_seen
      then method_not_allowed (elim st.best_path_item [
        | none ↦ []
        | some path_item ↦ allow_header_for_path_item_with_strict path_item strict
      ])
      else not_found
]

unfoldable pub route_request_with_strict :
    (Text → Option Text) → Spec → Text → Text → Bool → RouteMatch
route_request_with_strict decode spec method path strict =
    let upper = to_ascii_uppercase method in
    conclude upper strict (try_paths decode upper strict spec path spec.paths search_start)

unfoldable pub route_request : (Text → Option Text) → Spec → Text → Text → RouteMatch
route_request decode spec method path = route_request_with_strict decode spec method path false
