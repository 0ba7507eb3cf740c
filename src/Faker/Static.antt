-- ===== src/Faker/Static.antt =====
-- crates/chasm-faker/src/lib.rs: `generate_static`.
use chasm.Engine.Config.{GenerateOptions}
use chasm.Engine.Values.{as_str, field, has_field}
use chasm.Prelude.{
  or, Bool, false, ◌||◌, Option, some, none, unwrap_or, List, [], ◌∷◌, if◌then◌else◌,
}
use chasm.Prelude.Maybe.{◌>>=◌}
use chasm.Text.{Text, ascii, text_eq}
use chasm.OpenApi.{
  Value, Values, Members, null, bool, number, string, array, object, nil, cons, end, pos_int,
}
use chasm.Faker.RefResolver.{any_text, new_resolver, with_external, RefResolver}

abbrev pub zero_number : Value
zero_number = number (pos_int 0)

-- `Value::get` of a key.
abbrev pub key_of : Value → Text → Option Value
key_of (object map) key = field map key
key_of _ key = none

-- The value at the depth where the walk stops.
unfoldable pub static_terminal : Value → Value
static_terminal schema = elim (key_of schema (ascii "type") >>= as_str) [
  | none ↦ null
  | some t ↦
      if text_eq t (ascii "string")
      then string []
      else if text_eq t (ascii "number") || text_eq t (ascii "integer")
      then zero_number
      else if text_eq t (ascii "boolean")
      then bool false
      else if text_eq t (ascii "array")
      then array nil
      else if text_eq t (ascii "object")
      then object end
      else null
]

unfoldable pub infer_static_type : Members → Text
infer_static_type map =
    if has_field map (ascii "properties") || has_field map (ascii "required")
    then ascii "object"
    else if has_field map (ascii "items")
        || (has_field map (ascii "prefixItems") || has_field map (ascii "minItems"))
    then ascii "array"
    else if has_field map (ascii "minLength")
        || (has_field map (ascii "maxLength") || has_field map (ascii "pattern"))
    then ascii "string"
    else if has_field map (ascii "minimum") || has_field map (ascii "maximum")
    then ascii "number"
    else []

-- Whether a name is one of a list of literals.
abbrev pub one_of_names : Text → List Text → Bool
one_of_names t names = any_text (text_eq t) names

unfoldable pub canonical_format_value : Text → Option Text
canonical_format_value f =
    if one_of_names f (ascii "date-time" ∷ ascii "datetime" ∷ ascii "iso-date-time" ∷ [])
    then some (ascii "2020-01-01T00:00:00Z")
    else if one_of_names f (ascii "date" ∷ ascii "iso-date" ∷ ascii "full-date" ∷ [])
    then some (ascii "2020-01-01")
    else if one_of_names f (ascii "time" ∷ ascii "partial-time" ∷ [])
    then some (ascii "00:00:00Z")
    else if text_eq f (ascii "duration")
    then some (ascii "P1D")
    else if one_of_names f (
        ascii "uuid"
        ∷ ascii "uuid1"
        ∷ ascii "uuid3"
        ∷ ascii "uuid4"
        ∷ ascii "uuid5"
        ∷ ascii "guid"
        ∷ [])
    then some (ascii "00000000-0000-4000-8000-000000000000")
    else if one_of_names f (ascii "email" ∷ ascii "idn-email" ∷ [])
    then some (ascii "user@example.com")
    else if one_of_names f (
        ascii "uri"
        ∷ ascii "url"
        ∷ ascii "uri-reference"
        ∷ ascii "iri"
        ∷ ascii "iri-reference"
        ∷ [])
    then some (ascii "https://example.com")
    else if text_eq f (ascii "uri-template")
    then some (ascii "https://example.com/{id}")
    else if one_of_names f (ascii "hostname" ∷ ascii "idn-hostname" ∷ [])
    then some (ascii "example.com")
    else if text_eq f (ascii "ipv4")
    then some (ascii "192.0.2.0")
    else if text_eq f (ascii "ipv6")
    then some (ascii "2001:db8::")
    else if text_eq f (ascii "json-pointer")
    then some (ascii "/example")
    else if text_eq f (ascii "relative-json-pointer")
    then some (ascii "0")
    else if text_eq f (ascii "byte")
    then some (ascii "ZXhhbXBsZQ==")
    else if text_eq f (ascii "base64url")
    then some (ascii "ZXhhbXBsZQ")
    else if text_eq f (ascii "binary")
    then some (ascii "binary")
    else if text_eq f (ascii "password")
    then some (ascii "password")
    else if text_eq f (ascii "hex-color")
    then some (ascii "#000000")
    else none

unfoldable pub static_string : Members → Value
static_string map = elim (field map (ascii "format") >>= as_str >>= canonical_format_value) [
  | none ↦ string []
  | some canonical ↦ string canonical
]

-- The first item of a list, if the value is a list that has one.
abbrev pub first_item : Option Value → Option Value
first_item (some (array (cons v vs))) = some v
first_item _ = none

abbrev pub first_string : Values → Text
first_string nil = []
first_string (cons (string s) vs) = s
first_string (cons _ vs) = first_string vs

unfoldable pub type_name : Members → Text
type_name map = elim (field map (ascii "type")) [
  | some (string t) ↦ t
  | some (array vs) ↦ first_string vs
  | _ ↦ infer_static_type map
]

-- The value that is said outright: a constant, the first of an enumeration, an example.
unfoldable pub fixed_value : GenerateOptions → Members → Option Value
fixed_value opts map = elim (field map (ascii "const")) [
  | some c ↦ some c
  | none ↦ elim (first_item (field map (ascii "enum"))) [
    | some first ↦ some first
    | none ↦
        if opts.use_examples_value
        then (elim (first_item (field map (ascii "examples"))) [
          | some first ↦ some first
          | none ↦ field map (ascii "example")
        ])
        else none
  ]
]

-- The first branch of `anyOf`, or else of `oneOf`.
unfoldable pub first_branch : Members → Option Value
first_branch map =
    or (first_item (field map (ascii "anyOf"))) (first_item (field map (ascii "oneOf")))

unfoldable pub resolver : GenerateOptions → Value → RefResolver
resolver opts root = with_external (new_resolver root) opts.external_refs

abbrev pub only_items : Value → Option Values
only_items (array vs) = some vs
only_items _ = none

abbrev pub only_members : Value → Option Members
only_members (object m) = some m
only_members _ = none

abbrev pub items_at : Members → Text → Option Values
items_at map key = field map key >>= only_items

abbrev pub strings_of : Values → List Text
strings_of nil = []
strings_of (cons (string s) vs) = s ∷ strings_of vs
strings_of (cons _ vs) = strings_of vs

unfoldable pub required_names : Members → List Text
required_names map = elim (items_at map (ascii "required")) [ none ↦ [] | some vs ↦ strings_of vs ]

unfoldable pub declared_properties : Members → Members
declared_properties map = unwrap_or (field map (ascii "properties") >>= only_members) end
