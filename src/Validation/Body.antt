-- ===== src/Validation/Body.antt =====
-- crates/chasm-engine/src/validation.rs: request bodies.
use chasm.Prelude.{
  ◌==◌, ℕ, Bool, true, false, ◌&&◌, ◌||◌, Option, some, none, List, [], ◌∷◌, ◌++◌, is_empty,
  unwrap_or, find_first, suc, zero, if◌then◌else◌,
}
use mathlib.Core.Option
use chasm.Prelude.Result.{Result, ok, err}
use chasm.Text.{
  Text, ascii, before, text_eq, eq_ignore_ascii_case, starts_with, ends_with_text, strip_last,
  split_once, to_ascii_lowercase, trim, strip_prefix, get,
}
use chasm.OpenApi.{
  Spec, MediaType, RequestBody, ReferenceOr, item, reference, Schema, described, Branches,
  no_branch, branch, object_type, all_of, any_schema, Value, null, object,
}
use chasm.Request.{MockRequest, find_header}
use chasm.Validation.Errors.{ValidationError, body, new}
use chasm.Validation.Library.{Library}
use chasm.Validation.Checked.{Checked, done, exhausted, ◌>>=◌}
use chasm.Validation.Coercion.{resolve_schema, resolve_boxed_schema}
use chasm.Validation.Values.{Errors, Recurse, missing_required}
use chasm.Validation.Forms.{parse_form_urlencoded_to_json_value}
use chasm.Validation.Multipart.{parse_multipart_field_names_to_json}

-- One hop of a reference is followed.
unfoldable pub resolve_request_body : Spec → ReferenceOr RequestBody → Option RequestBody
resolve_request_body spec (item b) = some b
resolve_request_body spec (reference r) =
    elim (strip_prefix r (ascii "#/components/requestBodies/")) [
      | none ↦ none
      | some name ↦ elim spec.components [
        | none ↦ none
        | some components ↦ elim (get components.request_bodies name) [
          | some (item b) ↦ some b
          | _ ↦ none
        ]
      ]
    ]

-- The media type without its parameters.
abbrev pub bare : Text → Text
bare t = trim (before b';' t)

unfoldable pub is_xml_content_type : Option Text → Bool
is_xml_content_type none = false
is_xml_content_type (some ct) =
    let lower = to_ascii_lowercase ct in
    text_eq lower (ascii "application/xml")
    || (text_eq lower (ascii "text/xml")
        || (starts_with lower (ascii "application/") && ends_with_text lower (ascii "+xml")))

unfoldable pub media_range_matches : Text → Text → Bool
media_range_matches range specific = elim (strip_last b'*' range) [
  | none ↦ false
  | some r ↦ elim (strip_last b'/' r) [
    | none ↦ false
    | some prefix ↦ elim (split_once b'/' specific) [
      | none ↦ false
      | some t ↦ eq_ignore_ascii_case t.0 prefix
    ]
  ]
]

abbrev pub accepts_content_type : Text → Text → Bool
accepts_content_type ct key =
    eq_ignore_ascii_case (bare key) ct || media_range_matches (bare key) ct

abbrev pub any_key : (Text → Bool) → List (Text × MediaType) → Bool
any_key test [] = false
any_key test (e ∷ es) = test e.0 || any_key test es

unfoldable pub content_type_errors : RequestBody → Option Text → Errors
content_type_errors def none = []
content_type_errors def (some ct) =
    if is_empty def.content || any_key (accepts_content_type ct) def.content
    then []
    else new body (ascii "body") (ascii "contentType")
        (ascii "content-type '" ++ (ct ++ ascii "' is not accepted"))
      ∷ []

-- The media whose schema a body is checked with.
unfoldable pub body_media : RequestBody → Option Text → Option MediaType
body_media def content_type =
    elim (find_first
      (λ e.
        eq_ignore_ascii_case (bare e.0) (ascii "application/json")
        || eq_ignore_ascii_case (bare e.0) (unwrap_or content_type (ascii "application/json")))
      def.content) [ none ↦ none | some e ↦ some e.1 ]

abbrev pub content_type_of : MockRequest → Option Text
content_type_of req = Option.map bare (find_header req (ascii "content-type"))

-- `is_ascii_whitespace` of every byte.
abbrev pub all_white : Text → Bool
all_white [] = true
all_white (c ∷ s) = (c == 32 || c == 9 || c == 10 || c == 12 || c == 13) && all_white s

-- `serde_json::from_slice` gives the value or the text of its error.
unfoldable pub parse_request_body_for_validation_strict :
    Library → Text → Text → Checked (Result ValidationError Value)
parse_request_body_for_validation_strict lib content_type raw =
    let lower = to_ascii_lowercase (bare content_type) in
    if text_eq lower (ascii "application/json")
      || (starts_with lower (ascii "application/") && ends_with_text lower (ascii "+json"))
    then (if all_white raw then done (ok null) else elim (lib.from_slice raw) [
      | ok v ↦ done (ok v)
      | err e ↦ done (
          err (
            new body (ascii "body") (ascii "type") (ascii "request body is not valid JSON: " ++ e)))
    ])
    else if text_eq lower (ascii "application/x-www-form-urlencoded")
    then done (ok (parse_form_urlencoded_to_json_value raw))
    else if text_eq lower (ascii "multipart/form-data")
    then (do v ← parse_multipart_field_names_to_json content_type raw; done (ok v))
    else if is_xml_content_type (some lower)
    then done (ok null)
    else done (
        err (
          new body (ascii "body") (ascii "contentType") (
            ascii "content type '"
            ++ (bare content_type ++ ascii "' is not parseable for validation"))))

unfoldable pub parse_request_body_for_validation : Library → Text → Text → Checked (Option Value)
parse_request_body_for_validation lib content_type raw = do
  r ← parse_request_body_for_validation_strict lib content_type raw
  done (elim r [ ok v ↦ some v | err _ ↦ none ])

module _ (spec : Spec) where
  -- The loop over the parts of `allOf`; `rec` is the recursive call.
  unfoldable pub required_of_branches :
      (Schema → Value → Text → Checked Errors) → Branches → Value → Text → Checked Errors
  required_of_branches rec no_branch v f = done []
  required_of_branches rec (branch r bs) v f = elim (resolve_boxed_schema spec r) [
    | none ↦ required_of_branches rec bs v f
    | some s ↦ do here ← rec s v f; later ← required_of_branches rec bs v f; done (here ++ later)
  ]

  -- The recursion goes through references of the document, so it takes fuel.
  unfoldable pub validate_required_only : ℕ → Schema → Value → Text → Checked Errors
  validate_required_only zero s v f = exhausted
  validate_required_only (suc fuel) (described d k) v f = elim v [
    | object map ↦ elim k [
      | object_type ps required ap ↦ done (missing_required body f map required)
      | all_of bs ↦ required_of_branches (validate_required_only fuel) bs (object map) f
      | any_schema a ps n ↦ done (missing_required body f map a.required)
      | _ ↦ done []
    ]
    | _ ↦ done []
  ]

  abbrev pub media_schema : RequestBody → Option Text → Option Schema
  media_schema def content_type = elim (body_media def content_type) [
    | none ↦ none
    | some media ↦ elim media.schema [ none ↦ none | some r ↦ resolve_schema spec r ]
  ]

  abbrev pub is_multipart : Option Text → Bool
  is_multipart none = false
  is_multipart (some ct) = eq_ignore_ascii_case ct (ascii "multipart/form-data")

  -- A body that is there, once its content type is known.
  unfoldable pub check_body_value : ℕ → Recurse → RequestBody → Option Text → Value → Checked Errors
  check_body_value fuel rec def content_type v =
      if is_xml_content_type content_type then done [] else elim (media_schema def content_type) [
        | none ↦ done []
        | some s ↦
            if is_multipart content_type
            then validate_required_only fuel s v (ascii "body")
            else rec s v body (ascii "body")
      ]

  unfoldable pub validate_body : ℕ → Recurse → RequestBody → MockRequest → Checked Errors
  validate_body fuel rec def req =
      let content_type = content_type_of req in
      elim req.body [
        | none ↦
            if def.required
            then done (new body (ascii "body") (ascii "required") (ascii "body is required") ∷ [])
            else done (content_type_errors def content_type)
        | some v ↦ do
          es ← check_body_value fuel rec def content_type v
          done (content_type_errors def content_type ++ es)
      ]
