-- ===== src/Loader/Pointers.antt =====
-- crates/chasm-engine/src/loader.rs: JSON pointers.
pub mod Roundtrip
use chasm.Prelude.{
  ℕ, zero, suc, ◌^◌, ◌-◌, true, false, Option, some, none, List, [], ◌∷◌, ◌++◌, is_empty,
  if◌then◌else◌,
}
use chasm.Prelude.Maybe.{◌>>=◌}
use chasm.Text.{Text, ascii, decimal, strip_prefix, split, parse_uint, replace_char, unescape}
use chasm.OpenApi.{Number, pos_int, neg_int, float}
use chasm.Loader.Yaml.{
  Yaml, Items, null, bool, number, string, sequence, mapping, tagged, nil, cons, value_at,
}

abbrev number_text : Number → Text
number_text (pos_int n) = decimal n
number_text (neg_int n) = ascii "-" ++ decimal (suc n)
number_text (float t) = t

unfoldable pub key_as_str : Yaml → Text
key_as_str (string s) = s
key_as_str (number n) = number_text n
key_as_str (bool true) = ascii "true"
key_as_str (bool false) = ascii "false"
key_as_str _ = ascii "<non-string>"

unfoldable pub escape_pointer_segment : Text → Text
escape_pointer_segment seg =
    replace_char b'/' (b'~' ∷ b'1' ∷ []) (replace_char b'~' (b'~' ∷ b'0' ∷ []) seg)

-- The segments, a slash before each.
unfoldable pub slashed : List Text → Text
slashed [] = []
slashed (seg ∷ path) = b'/' ∷ escape_pointer_segment seg ++ slashed path

unfoldable pub build_pointer_from_path : List Text → Text
build_pointer_from_path path = b'#' ∷ slashed path

abbrev pub nth_item : Items → ℕ → Option Yaml
nth_item nil i = none
nth_item (cons v vs) zero = some v
nth_item (cons v vs) (suc i) = nth_item vs i

-- One step: a key of a mapping or an index of a sequence.
unfoldable pub step_into : Yaml → Text → Option Yaml
step_into (mapping map) token = value_at map token
step_into (sequence seq) token = parse_uint (2 ^ 64 - 1) token >>= nth_item seq
step_into _ token = none

unfoldable pub follow_tokens : Yaml → List Text → Option Yaml
follow_tokens current [] = some current
follow_tokens current (raw_token ∷ tokens) =
    step_into current (unescape raw_token) >>= λ next. follow_tokens next tokens

unfoldable pub resolve_json_pointer : Yaml → Text → Option Yaml
resolve_json_pointer root pointer = do
  fragment ← strip_prefix pointer (b'#' ∷ b'/' ∷ [])
  if is_empty fragment then some root else follow_tokens root (split b'/' fragment)
