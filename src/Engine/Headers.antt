-- ===== src/Engine/Headers.antt =====
-- crates/chasm-engine/src/engine.rs: the headers of a response.
pub mod Laws
use chasm.Prelude.{
  Bool, true, false, not, ◌||◌, Option, some, none, or, List, [], ◌∷◌, ◌++◌, is_empty,
  if◌then◌else◌,
}
use chasm.Prelude.Maybe.{◌>>=◌}
use chasm.Prelude.Result.{Result, ok, err}
use chasm.Text.{Text, ascii, text_eq, to_ascii_lowercase, strip_prefix, get}
use chasm.OpenApi.{
  schema_data, Spec, Response, Schema, Header, ParameterSchemaOrContent, schema, content,
  ReferenceOr, item, reference, Value, Values, null, bool, number, string, array, object, nil, cons,
}
use chasm.Engine.Config.{MockConfig, GenerateOptions, default_options, apply_jsf_config}
use chasm.Engine.Faker.{Services, schema_ref_to_json}

unfoldable pub is_filtered_header : Text → Bool
is_filtered_header name =
    let l = to_ascii_lowercase name in
    text_eq l (ascii "content-encoding")
    || text_eq l (ascii "content-length")
    || text_eq l (ascii "transfer-encoding")
    || text_eq l (ascii "date")
    || text_eq l (ascii "connection")

-- One hop of a reference is followed.
unfoldable pub resolve_header_ref : Spec → ReferenceOr Header → Option Header
resolve_header_ref spec (item h) = some h
resolve_header_ref spec (reference r) = do
  name ← strip_prefix r (ascii "#/components/headers/")
  components ← spec.components
  target ← get components.headers name
  elim target [ item h ↦ some h | reference _ ↦ none ]

unfoldable pub read_jsf_config : Spec → Value
read_jsf_config spec = elim (get spec.extensions (ascii "x-json-schema-faker")) [
  | some v ↦ v
  | none ↦ null
]

-- `fill_properties` of the configuration over that of the options.
unfoldable pub fill : Option Bool → GenerateOptions → GenerateOptions
fill none opts = opts
fill (some b) opts = record opts { fill_properties = b }

abbrev pub result_ok : Result Text Value → Option Value
result_ok (ok v) = some v
result_ok (err _) = none

unfoldable pub header_value_is_meaningful : Option Value → Bool
header_value_is_meaningful none = false
header_value_is_meaningful (some (string s)) = not (is_empty s)
header_value_is_meaningful (some _) = true

-- The options of a header's schema.
unfoldable pub header_options : Spec → MockConfig → GenerateOptions
header_options spec cfg = fill cfg.fill_properties (
    apply_jsf_config (record default_options { max_depth = 5; seed = cfg.seed })
      (read_jsf_config spec))

module _ (env : Services) where
  -- Other scalars and composed values are written as JSON.
  unfoldable pub header_value_to_string : Value → Text
  header_value_to_string (string s) = s
  header_value_to_string (bool true) = ascii "true"
  header_value_to_string (bool false) = ascii "false"
  header_value_to_string null = []
  header_value_to_string v = env.to_string v

  -- A line for each element of an array.
  unfoldable pub header_lines : Text → Values → List (Text × Text)
  header_lines name nil = []
  header_lines name (cons v vs) = (name, header_value_to_string v) ∷ header_lines name vs

  unfoldable pub header_entries : Text → Value → List (Text × Text)
  header_entries name (array vs) = header_lines name vs
  header_entries name v = (name, header_value_to_string v) ∷ []

module _ (env : Services) (spec : Spec) (cfg : MockConfig) where
  unfoldable pub generate_header_value_from_schema : ReferenceOr Schema → Option Value
  generate_header_value_from_schema schema_ref = do
    schema_json ← result_ok (schema_ref_to_json env spec schema_ref)
    let opts = header_options spec cfg in
        let dynamic =
          result_ok (env.generate schema_json (record opts { always_fake_optionals = true })) in
        let static_value = result_ok (env.generate_static schema_json opts) in
        if cfg.dynamic
        then dynamic
        else if header_value_is_meaningful static_value
        then static_value
        else or dynamic static_value

  unfoldable pub pick_header_value : Header → Option Value
  pick_header_value h = elim h.example [
    | some v ↦ some v
    | none ↦ elim h.format [
      | content ↦ none
      | schema (reference r) ↦ generate_header_value_from_schema (reference r)
      | schema (item s) ↦ elim (schema_data s).example [
        | some v ↦ some v
        | none ↦ generate_header_value_from_schema (item s)
      ]
    ]
  ]

  -- The loop of `collect_response_headers`.
  unfoldable pub collect : List (Text × ReferenceOr Header) → List (Text × Text)
  collect [] = []
  collect ((name, header_ref) ∷ headers) =
      let rest = collect headers in
      if is_filtered_header name
      then rest
      else elim (resolve_header_ref spec header_ref >>= pick_header_value) [
        | none ↦ rest
        | some v ↦ header_entries env name v ++ rest
      ]

  unfoldable pub collect_response_headers : Response → List (Text × Text)
  collect_response_headers response = collect response.headers
