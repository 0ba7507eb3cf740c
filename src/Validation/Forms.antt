-- ===== src/Validation/Forms.antt =====
-- crates/chasm-engine/src/validation.rs: URL-encoded forms.
pub mod Roundtrip
use chasm.Prelude.{
  ℕ, Bool, true, false, ◌&&◌, Option, some, none, List, [], ◌∷◌, ◌++◌, ◌+◌, ◌-◌, ◌*◌, ltb, leb,
  ◌==◌, is_empty, unwrap_or, if◌then◌else◌,
}
use chasm.Text.{Text, split, split_once, is_utf8}
use chasm.OpenApi.{Value, Values, Members, string, array, object, nil, cons, end, member}
use chasm.Engine.Values.{field, insert_field}

-- `to_digit(16)`.
unfoldable pub hex_digit : ℕ → Option ℕ
hex_digit c =
    if leb b'0' c && leb c b'9'
    then some (c - b'0')
    else if leb b'A' c && leb c b'F'
    then some (c - 55)
    else if leb b'a' c && leb c b'f'
    then some (c - 87)
    else none

abbrev pub plus_to_space : ℕ → ℕ
plus_to_space c = if c == b'+' then b' ' else c

-- The byte that `%de` stands for.
unfoldable pub escaped_byte : ℕ → ℕ → ℕ → Option ℕ
escaped_byte c d e =
    if c == b'%'
    then elim (hex_digit d) [
      | none ↦ none
      | some h ↦ elim (hex_digit e) [ none ↦ none | some l ↦ some (h * 16 + l) ]
    ]
    else none

-- The loop over the bytes; a `%` that no two hexadecimal digits follow stands for itself.
unfoldable pub decode_bytes : Text → Text
decode_bytes [] = []
decode_bytes (c ∷ []) = plus_to_space c ∷ []
decode_bytes (c ∷ d ∷ []) = plus_to_space c ∷ plus_to_space d ∷ []
decode_bytes (c ∷ d ∷ e ∷ s) = elim (escaped_byte c d e) [
  | none ↦ plus_to_space c ∷ decode_bytes (d ∷ e ∷ s)
  | some b ↦ b ∷ decode_bytes s
]

unfoldable pub decode_form_urlencoded_bytes : Text → Option Text
decode_form_urlencoded_bytes bytes =
    let out = decode_bytes bytes in if is_utf8 out then some out else none

abbrev pub append_value : Values → Value → Values
append_value nil v = cons v nil
append_value (cons w ws) v = cons w (append_value ws v)

-- A key that comes again collects its values in an array.
unfoldable pub add_form_value : Members → Text → Value → Members
add_form_value map key v = elim (field map key) [
  | none ↦ insert_field map key v
  | some (array vs) ↦ insert_field map key (array (append_value vs v))
  | some existing ↦ insert_field map key (array (cons existing (cons v nil)))
]

-- One pair of the form.
unfoldable pub add_form_pair : Text → Members → Members
add_form_pair pair map =
    if is_empty pair
    then map
    else let kv = unwrap_or (split_once b'=' pair) (pair, []) in
      elim (decode_form_urlencoded_bytes kv.0) [
        | none ↦ map
        | some key ↦
            add_form_value map key (string (unwrap_or (decode_form_urlencoded_bytes kv.1) []))
      ]

unfoldable pub add_form_pairs : List Text → Members → Members
add_form_pairs [] map = map
add_form_pairs (p ∷ ps) map = add_form_pairs ps (add_form_pair p map)

unfoldable pub parse_form_urlencoded_to_json_value : Text → Value
parse_form_urlencoded_to_json_value raw = object (add_form_pairs (split b'&' raw) end)
