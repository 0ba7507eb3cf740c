-- ===== src/Loader/Normalize.antt =====
-- crates/chasm-engine/src/loader.rs: the passes that make an OpenAPI 3.1 document a 3.0 one. A pass
-- rewrites a mapping and then walks what it has become, on fuel for the depth.
use chasm.Prelude.{
  ℕ, zero, suc, ◌^◌, ◌-◌, Bool, true, false, ◌&&◌, ◌||◌, not, Option, some, none, is_some, ◌++◌,
  ltb, leb, if◌then◌else◌,
}
use chasm.Prelude.Maybe.{◌>>=◌}
use chasm.Text.{Text, ascii, text_eq, decimal, strip_prefix, parse_digits}
use chasm.OpenApi.{Number, pos_int, float}
use chasm.Loader.Yaml.{
  Yaml, Items, Entries, bool, number, string, sequence, mapping, tagged, nil, cons, end, entry,
  value_at, set_value,
}
use chasm.Loader.Pointers.{resolve_json_pointer}

-- What the loader takes from elsewhere: the YAML and JSON crates with the text of their errors; the
-- system's file size and file; the regex crate, with the version's pattern and with the pattern of
-- an integer bound, each match of which is replaced by a function of its indent, key and number;
-- `Mapping::remove`; and a float's conversion to `i64`, which saturates and is none for NaN.
pub record Loading (Spec : Type 0) : Type 0 where
  pub parse_yaml : Text → Option Yaml
  pub yaml_error : Text → Text
  pub render_json : Yaml → Option Text
  pub json_error : Yaml → Text
  pub parse_spec : Text → Option Spec
  pub spec_error : Text → Text
  pub file_size : Text → Option ℕ
  pub read_file : Text → Option Text
  pub file_error : Text → Text
  pub is_version : Text → Bool
  pub replace_bounds : (Text → Text → Text → Text) → Text → Text
  pub without : Entries → Text → Entries
  pub saturate : Text → Option Number

abbrev pub map_values : (Yaml → Yaml) → Entries → Entries
map_values f end = end
map_values f (entry k v es) = entry k (f v) (map_values f es)

-- `get_mut` of a string and a change of what is there.
abbrev pub change_at : Text → (Yaml → Yaml) → Entries → Entries
change_at k f es = elim (value_at es k) [ none ↦ es | some v ↦ set_value es k (f v) ]

abbrev pub each_value : (Yaml → Option Yaml) → Entries → Option Entries
each_value f end = some end
each_value f (entry k v es) = do w ← f v; rest ← each_value f es; some (entry k w rest)

abbrev pub each_item : (Yaml → Option Yaml) → Items → Option Items
each_item f nil = some nil
each_item f (cons v seq) = do w ← f v; rest ← each_item f seq; some (cons w rest)

unfoldable pub top_down : (Entries → Entries) → ℕ → Yaml → Option Yaml
top_down rewrite zero value = none
top_down rewrite (suc fuel) (mapping map) = do
  es ← each_value (top_down rewrite fuel) (rewrite map)
  some (mapping es)
top_down rewrite (suc fuel) (sequence seq) = do
  items ← each_item (top_down rewrite fuel) seq
  some (sequence items)
top_down rewrite (suc fuel) value = some value

abbrev pub is_key : Entries → Text → Bool
is_key map k = is_some (value_at map k)

-- `as_str` and `as_sequence`, which look through tags.
abbrev pub text_in : Yaml → Option Text
text_in (string s) = some s
text_in (tagged t v) = text_in v
text_in _ = none

abbrev pub sequence_in : Yaml → Option Items
sequence_in (sequence seq) = some seq
sequence_in (tagged t v) = sequence_in v
sequence_in _ = none

abbrev pub nullable_of : Text → Text → Option Text
nullable_of a b =
    if text_eq a (ascii "null") && not (text_eq b (ascii "null"))
    then some b
    else if text_eq b (ascii "null") && not (text_eq a (ascii "null"))
    then some a
    else none

-- `["null", t]` and `[t, "null"]`.
unfoldable pub extract_nullable_pair_yaml : Items → Option Text
extract_nullable_pair_yaml (cons v (cons w nil)) = do a ← text_in v; b ← text_in w; nullable_of a b
extract_nullable_pair_yaml _ = none

unfoldable pub rewrite_nullable : Entries → Entries
rewrite_nullable map =
    elim (value_at map (ascii "type") >>= sequence_in >>= extract_nullable_pair_yaml) [
      | none ↦ map
      | some non_null ↦
          let typed = set_value map (ascii "type") (string non_null) in
          if is_key typed (ascii "nullable")
          then typed
          else set_value typed (ascii "nullable") (bool true)
    ]

unfoldable pub fix_header : Yaml → Yaml
fix_header (mapping header) =
    if is_key header (ascii "schema")
      || (is_key header (ascii "content") || is_key header (ascii "$ref"))
    then mapping header
    else mapping (
        set_value header (ascii "schema")
          (mapping (entry (string (ascii "type")) (string (ascii "string")) end)))
fix_header header = header

abbrev pub fix_headers_node : Yaml → Yaml
fix_headers_node (mapping map) = mapping (map_values fix_header map)
fix_headers_node node = node

abbrev pub fix_response : Yaml → Yaml
fix_response (mapping resp) = mapping (change_at (ascii "headers") fix_headers_node resp)
fix_response response = response

unfoldable pub fix_responses_node : Yaml → Yaml
fix_responses_node (mapping map) = mapping (map_values fix_response map)
fix_responses_node node = node

-- The walk starts below the root.
unfoldable pub inject_header_schema_fallback_yaml : ℕ → Yaml → Option Yaml
inject_header_schema_fallback_yaml fuel (mapping root) = do
  es ← each_value (top_down (change_at (ascii "responses") fix_responses_node) fuel) root
  some (mapping es)
inject_header_schema_fallback_yaml fuel value = some value

abbrev number_of : Option Yaml → Option Number
number_of (some (number n)) = some n
number_of _ = none

unfoldable pub rewrite_exclusive_bound_pair : Text → Text → Entries → Entries
rewrite_exclusive_bound_pair exclusive_key bound_key map =
    elim (number_of (value_at map exclusive_key)) [
      | none ↦ map
      | some n ↦
          if is_some (number_of (value_at map bound_key))
          then map
          else set_value (set_value map bound_key (number n)) exclusive_key (bool true)
    ]

unfoldable pub rewrite_exclusive_bounds : Entries → Entries
rewrite_exclusive_bounds map =
    rewrite_exclusive_bound_pair (ascii "exclusiveMaximum") (ascii "maximum")
      (rewrite_exclusive_bound_pair (ascii "exclusiveMinimum") (ascii "minimum") map)

abbrev is_bool : Option Yaml → Bool
is_bool (some (bool b)) = true
is_bool _ = false

-- The pointer of a mapping that is nothing but a reference.
unfoldable pub sole_ref : Yaml → Option Text
sole_ref (mapping (entry (string k) (string s) end)) =
    if text_eq k (ascii "$ref") then some s else none
sole_ref _ = none

-- A reference that resolves in the snapshot is replaced.
unfoldable pub inline_ref : Yaml → Yaml → Yaml
inline_ref snapshot value = elim (sole_ref value) [
  | none ↦ value
  | some pointer ↦ elim (resolve_json_pointer snapshot pointer) [
    | none ↦ value
    | some resolved ↦ resolved
  ]
]

abbrev inline_values : Yaml → Yaml → Yaml
inline_values snapshot (mapping map) = mapping (map_values (inline_ref snapshot) map)
inline_values snapshot value = value

unfoldable pub inline_path_item_refs_yaml : Yaml → Yaml
inline_path_item_refs_yaml (mapping root) =
    mapping (change_at (ascii "paths") (inline_values (mapping root)) root)
inline_path_item_refs_yaml value = value

unfoldable pub inline_callback_refs_yaml : ℕ → Yaml → Option Yaml
inline_callback_refs_yaml fuel value =
    top_down (change_at (ascii "callbacks") (inline_values value)) fuel value

-- A number beyond the range of `i64`, as its text.
unfoldable pub clamped : Text → Text
clamped num = elim (strip_prefix num (ascii "-")) [
  | some digits ↦ elim (parse_digits (2 ^ 127) 0 digits) [
    | some n ↦ if leb n (2 ^ 63) then num else ascii "-" ++ decimal (2 ^ 63)
    | none ↦ ascii "-" ++ decimal (2 ^ 63)
  ]
  | none ↦ elim (parse_digits (2 ^ 127 - 1) 0 num) [
    | some n ↦ if ltb n (2 ^ 63) then num else decimal (2 ^ 63 - 1)
    | none ↦ decimal (2 ^ 63 - 1)
  ]
]

abbrev pub clamp_match : Text → Text → Text → Text
clamp_match indent key num = indent ++ (key ++ (ascii ": " ++ clamped num))

module _ {Spec : Type 0} (env : Loading Spec) where
  unfoldable pub clamp_integer_bounds_textual : Text → Text
  clamp_integer_bounds_textual spec = env.replace_bounds clamp_match spec

  unfoldable pub maybe_coerce_float_bound : Yaml → Yaml
  maybe_coerce_float_bound (number (pos_int n)) =
      if ltb n (2 ^ 63) then number (pos_int n) else number (pos_int (2 ^ 63 - 1))
  maybe_coerce_float_bound (number (float t)) = elim (env.saturate t) [
    | none ↦ number (float t)
    | some n ↦ number n
  ]
  maybe_coerce_float_bound node = node

  unfoldable pub coerce_float_bounds : Entries → Entries
  coerce_float_bounds map =
      change_at (ascii "maximum") maybe_coerce_float_bound
        (change_at (ascii "minimum") maybe_coerce_float_bound map)

  unfoldable pub drop_invalid_items : Entries → Entries
  drop_invalid_items map =
      if is_key map (ascii "prefixItems") && is_bool (value_at map (ascii "items"))
      then env.without map (ascii "items")
      else map

  -- The passes, in their order.
  unfoldable pub normalize_tree : ℕ → Yaml → Option Yaml
  normalize_tree fuel value = do
    nullable ← top_down rewrite_nullable fuel value
    headers ← inject_header_schema_fallback_yaml fuel nullable
    coerced ← top_down coerce_float_bounds fuel headers
    bounds ← top_down rewrite_exclusive_bounds fuel coerced
    items ← top_down drop_invalid_items fuel bounds
    inline_callback_refs_yaml fuel (inline_path_item_refs_yaml items)
