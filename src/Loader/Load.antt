-- ===== src/Loader/Load.antt =====
-- crates/chasm-engine/src/loader.rs: `load_spec`.
pub mod Sound
pub mod Exact
use chasm.Prelude.{
  ℕ, ◌+◌, ◌*◌, Bool, true, false, ◌||◌, Option, some, none, [], ◌∷◌, ◌++◌, ltb, length,
  if◌then◌else◌,
}
use chasm.Prelude.Result.{Result, ok, err, ◌>>=◌}
use chasm.Text.{Text, ascii, text_eq, starts_with, decimal, trim_start}
use chasm.OpenApi.{Spec}
use chasm.Loader.Yaml.{Yaml, string}
use chasm.Loader.Schemas.{child}
use chasm.Loader.Semantics.{SpecError, io, parse, validate_spec_semantics}
use chasm.Loader.Normalize.{Loading, clamp_integer_bounds_textual, normalize_tree}

abbrev pub max_spec_bytes : ℕ
max_spec_bytes = 64 * 1024 * 1024

abbrev too_large : Text → ℕ → SpecError
too_large what n = parse (
    what
    ++ (ascii " size "
        ++ (decimal n ++ (ascii " bytes exceeds MAX_SPEC_BYTES=" ++ decimal max_spec_bytes))))

unfoldable pub is_inline : Text → Bool
is_inline src =
    starts_with (trim_start src) (ascii "{") || starts_with (trim_start src) (ascii "openapi")

abbrev pub or_error : {A : Type 0} → SpecError → Option A → Result SpecError A
or_error e none = err e
or_error e (some a) = ok a

module _ (env : Loading Spec) where
  abbrev sized : Text → Result SpecError Text
  sized raw =
      if ltb max_spec_bytes (length raw)
      then err (too_large (ascii "spec") (length raw))
      else ok raw

  abbrev read_sized : Text → Result SpecError Text
  read_sized src = elim (env.read_file src) [
    | none ↦ err (io src (env.file_error src))
    | some raw ↦ sized raw
  ]

  -- The document itself, or the file that is named.
  unfoldable pub read_content : Text → Result SpecError Text
  read_content src = if is_inline src then sized src else elim (env.file_size src) [
    | none ↦ read_sized src
    | some n ↦
        if ltb max_spec_bytes n then err (too_large (ascii "spec file") n) else read_sized src
  ]

  abbrev text_of : Option Yaml → Option Text
  text_of (some (string t)) = some t
  text_of _ = none

  -- The string of a key of the document, where there is one.
  abbrev string_of_document : Text → Text → Option Text
  string_of_document content key = elim (env.parse_yaml content) [
    | none ↦ none
    | some parsed ↦ text_of (child key parsed)
  ]

  unfoldable pub reject_unsupported_openapi_version : Text → Result SpecError Text
  reject_unsupported_openapi_version content = elim (string_of_document content (ascii "openapi")) [
    | none ↦ ok content
    | some version ↦
        if env.is_version version
        then ok content
        else err (
            parse (
              ascii "unsupported openapi version "
              ++ (version ++ ascii ": chasm supports 3.0.x and 3.1.x")))
  ]

  -- The dash of the message is a character of three bytes.
  unfoldable pub reject_swagger_two : Text → Result SpecError Text
  reject_swagger_two content = elim (string_of_document content (ascii "swagger")) [
    | none ↦ ok content
    | some version ↦
        if text_eq version (ascii "2.0")
        then err (
            parse (
              ascii "Swagger 2.0 specs are not supported "
              ++ (226 ∷ 128 ∷ 148 ∷ [])
              ++ ascii
                  " chasm requires OpenAPI 3.0 or 3.1. Convert via `swagger2openapi` or `openapi-generator`."))
        else ok content
  ]

  -- Without fuel enough there is no result.
  unfoldable pub normalize_oas31_nullable : ℕ → Text → Option (Result SpecError Text)
  normalize_oas31_nullable fuel spec_str =
      let text = clamp_integer_bounds_textual env spec_str in
      elim (env.parse_yaml text) [
        | none ↦ some (err (parse (env.yaml_error text)))
        | some value ↦ elim (normalize_tree env fuel value) [
          | none ↦ none
          | some tree ↦ some (or_error (parse (env.json_error tree)) (env.render_json tree))
        ]
      ]

  -- What `load_spec` makes of the normalised text.
  unfoldable pub finish_load : Text → Result SpecError Spec
  finish_load normalised = do
    spec ← or_error (parse (env.spec_error normalised)) (env.parse_spec normalised)
    value ← or_error (parse (env.yaml_error normalised)) (env.parse_yaml normalised)
    checked ← validate_spec_semantics spec value
    ok spec

  abbrev pub accept_content : Text → Result SpecError Text
  accept_content src = do
    content ← read_content src
    content ← reject_unsupported_openapi_version content
    reject_swagger_two content

  unfoldable pub load_spec : ℕ → Text → Option (Result SpecError Spec)
  load_spec fuel src = elim (accept_content src) [
    | err e ↦ some (err e)
    | ok content ↦ elim (normalize_oas31_nullable fuel content) [
      | none ↦ none
      | some normalised ↦ some (normalised >>= finish_load)
    ]
  ]
