-- ===== src/Validation/Whole.antt =====
-- crates/chasm-engine/src/validation.rs: `validate`.
pub mod Parameters
pub mod Ending
use chasm.Prelude.{
  ℕ, ◌&&◌, Option, some, none, List, [], ◌∷◌, ◌++◌, is_empty, is_some, not, if◌then◌else◌,
}
use chasm.Text.{Text}
use chasm.OpenApi.{
  Spec, Operation, ReferenceOr, Parameter, path_parameter, query_parameter, header_parameter,
  cookie_parameter,
}
use chasm.Request.{MockRequest}
use chasm.Validation.Library.{Library}
use chasm.Validation.Checked.{Checked, done, ◌>>=◌}
use chasm.Validation.Values.{Errors, Recurse}
use chasm.Validation.Dispatch.{validate_value}
use chasm.Validation.Parameters.{
  validate_path_param, validate_query_param, validate_header_param, dedupe_parameters, resolve_all,
  path_item_parameters_for_template,
}
use chasm.Validation.Body.{resolve_request_body, validate_body}

module _ (spec : Spec) where
  abbrev pub item_parameters : Option Text → List (ReferenceOr Parameter)
  item_parameters none = []
  item_parameters (some template) = path_item_parameters_for_template spec template

  unfoldable pub effective_parameters : Option Text → Operation → List Parameter
  effective_parameters path_template op =
      dedupe_parameters
        (resolve_all spec (item_parameters path_template) ++ resolve_all spec op.parameters)

module _ (lib : Library) (spec : Spec) where
  -- One turn of the loop over the parameters.
  unfoldable pub validate_parameter :
      Recurse → List (Text × Text) → MockRequest → Parameter → Checked Errors
  validate_parameter rec path_params req (path_parameter d _) =
      validate_path_param lib spec rec d path_params
  validate_parameter rec path_params req (query_parameter d style) =
      validate_query_param lib spec rec d style req.query
  validate_parameter rec path_params req (header_parameter d) =
      validate_header_param lib spec rec d req.headers
  validate_parameter rec path_params req (cookie_parameter d) = done []

  unfoldable pub validate_parameters :
      Recurse → List (Text × Text) → MockRequest → List Parameter → Checked Errors
  validate_parameters rec path_params req [] = done []
  validate_parameters rec path_params req (p ∷ ps) = do
    here ← validate_parameter rec path_params req p
    later ← validate_parameters rec path_params req ps
    done (here ++ later)

  unfoldable pub validate_request_body : ℕ → Recurse → Operation → MockRequest → Checked Errors
  validate_request_body fuel rec op req = elim op.request_body [
    | none ↦ done []
    | some r ↦ elim (resolve_request_body spec r) [
      | none ↦ done []
      | some def ↦ validate_body spec fuel rec def req
    ]
  ]

  -- `fuel` bounds the depth of every recursion through the document.
  unfoldable pub validate :
      ℕ → Option Text → Operation → List (Text × Text) → MockRequest → Checked Errors
  validate fuel path_template op path_params req =
      if is_empty (item_parameters spec path_template)
        && is_empty op.parameters
        && not (is_some op.request_body)
      then done []
      else (do
        es ←
            validate_parameters (validate_value lib fuel spec) path_params req
              (effective_parameters spec path_template op)
        bs ← validate_request_body fuel (validate_value lib fuel spec) op req
        done (es ++ bs))
