-- ===== src/Engine/Body.antt =====
-- crates/chasm-engine/src/engine.rs: the body of a response.
pub mod Missing
use chasm.Validation.Errors.{ValidationError}
use chasm.Prelude.{
  ℕ, Bool, true, false, not, ◌&&◌, Option, some, none, or, is_some, List, [], ◌∷◌, if◌then◌else◌,
}
use chasm.Prelude.Maybe.{◌>>=◌}
use chasm.Prelude.Result.{Result, ok, err}
use chasm.Text.{Text, ascii, strip_prefix, get}
use chasm.OpenApi.{
  schema_data, Spec, MediaType, Example, Schema, ReferenceOr, item, reference, Value, null,
}
use chasm.Request.{MockRequest}
use chasm.Engine.Config.{MockConfig, GenerateOptions, default_options, apply_jsf_config}
use chasm.Engine.Faker.{Services, schema_ref_to_json}
use chasm.Engine.Headers.{read_jsf_config, fill}

pub data MockError : Type 0 where
  no_route : (method path : Text) → MockError
  method_not_allowed : (method path allow : Text) → MockError
  generation : (method path source : Text) → MockError
  no_response_defined : MockError
  no_response_for_code : (method path : Text) (code : ℕ) → MockError
  not_acceptable : (acceptable : List Text) → MockError
  spec_serialization : Text → MockError
  validation_failed : List ValidationError → MockError
  unauthorized : (scheme : Text) (www_authenticate : Option Text) → MockError
  example_not_found : (content_type example_key : Text) → MockError

-- One hop of a reference is followed.
unfoldable pub resolve_example_ref : Spec → ReferenceOr Example → Option Example
resolve_example_ref spec (item ex) = some ex
resolve_example_ref spec (reference r) = do
  name ← strip_prefix r (ascii "#/components/examples/")
  components ← spec.components
  target ← get components.examples name
  elim target [ item t ↦ some t | reference _ ↦ none ]

unfoldable pub example_key_exists : Spec → Option MediaType → Text → Bool
example_key_exists spec none name = false
example_key_exists spec (some mt) name = is_some (get mt.examples name >>= resolve_example_ref spec)

abbrev example_value : Spec → ReferenceOr Example → Option Value
example_value spec r = do ex ← resolve_example_ref spec r; ex.value

abbrev pub named_example : Spec → MediaType → Option Text → Option Value
named_example spec mt example_key = do
  name ← example_key
  r ← get mt.examples name
  example_value spec r

abbrev pub first_example : Spec → List (Text × ReferenceOr Example) → Option Value
first_example spec [] = none
first_example spec ((_, r) ∷ _) = example_value spec r

abbrev pub schema_example : Option (ReferenceOr Schema) → Option Value
schema_example (some (item s)) = (schema_data s).example
schema_example _ = none

unfoldable pub pick_example_from_media_type : Spec → Option MediaType → Option Text → Option Value
pick_example_from_media_type spec none example_key = none
pick_example_from_media_type spec (some mt) example_key =
    or (named_example spec mt example_key)
      (or (first_example spec mt.examples) (or mt.example (schema_example mt.schema)))

-- An error of the faker, with the request that met it.
abbrev pub generated : MockRequest → Result Text Value → Result MockError (Option Value)
generated req (ok v) = ok (some v)
generated req (err source) = err (generation req.method req.path source)

abbrev pub serialized : Result Text Value → Result MockError Value
serialized (ok v) = ok v
serialized (err e) = err (spec_serialization e)

unfoldable pub body_options : Spec → MockConfig → GenerateOptions
body_options spec cfg =
    let opts = record default_options {
      max_depth = 5;
      seed = cfg.seed;
      always_fake_optionals = true;
      use_examples_value = not cfg.dynamic;
      use_default_value = not cfg.dynamic;
    } in
    fill cfg.fill_properties (apply_jsf_config opts (read_jsf_config spec))

module _ (env : Services) (spec : Spec) where
  unfoldable pub generate_from_media_type :
      Option MediaType → MockConfig → MockRequest → Result MockError (Option Value)
  generate_from_media_type none cfg req = ok none
  generate_from_media_type (some mt) cfg req = elim mt.schema [
    | none ↦ ok none
    | some schema_ref ↦ elim (serialized (schema_ref_to_json env spec schema_ref)) [
      | err e ↦ err e
      | ok schema_json ↦
          let opts = body_options spec cfg in
          if cfg.dynamic
          then generated req (env.generate schema_json opts)
          else generated req (env.generate_static schema_json opts)
    ]
  ]

  -- The last step: what the schema gives, or `null`.
  abbrev pub generated_or_null :
      Option MediaType → MockConfig → MockRequest → Result MockError Value
  generated_or_null media_type cfg req = elim (generate_from_media_type media_type cfg req) [
    | err e ↦ err e
    | ok none ↦ ok null
    | ok (some v) ↦ ok v
  ]

  -- Whether the example that the configuration names, if any, is missing.
  abbrev pub example_missing : Option MediaType → MockConfig → Option Text
  example_missing media_type cfg = elim cfg.example_key [
    | none ↦ none
    | some name ↦ if example_key_exists spec media_type name then none else some name
  ]

  unfoldable pub build_body :
      Option MediaType → Text → MockConfig → MockRequest → Result MockError Value
  build_body media_type content_type cfg req =
      let generated = generated_or_null media_type cfg req in
      if not cfg.ignore_examples && not cfg.dynamic
      then (elim (example_missing media_type cfg) [
        | some name ↦ err (example_not_found content_type name)
        | none ↦ elim (pick_example_from_media_type spec media_type cfg.example_key) [
          | some v ↦ ok v
          | none ↦ generated
        ]
      ])
      else generated
