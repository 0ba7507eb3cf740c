-- ===== src/Router/Template.antt =====
-- crates/chasm-engine/src/router.rs: path templates. A parameter map is the list of its entries.
-- The percent decoder is the `percent_encoding` crate's: `decode s` is
-- `percent_decode_str(s).decode_utf8()`, `none` where that is an error.
use mathlib.Core.Option
use chasm.Text.{
  text_eq, strip_prefix, starts_with, split_once, split, insert, find, ends_with, contains, ascii,
  Text,
}
use chasm.Prelude.{
  if◌then◌else◌, ◌∷◌, ℕ, zero, unwrap_or, take, suc, some, not, none, ltb, length, is_empty, drop,
  [], Option, List, Bool, ◌==◌, ◌/◌, ◌-◌, ◌++◌, ◌+◌, ◌&&◌, ◌%◌,
}

unfoldable pub decode_segment : (Text → Option Text) → Text → Text
decode_segment decode segment = unwrap_or (decode segment) segment

unfoldable pub normalise_trailing_slash : Text → Text
normalise_trailing_slash path =
    if ltb 1 (length path) && ends_with path b'/' then take (length path - 1) path else path

-- `buf.push(byte as char)`: the byte read as a Latin-1 character, in UTF-8.
unfoldable pub byte_as_char : ℕ → Text
byte_as_char c = if ltb c 128 then c ∷ [] else (0xC0 + c / 64) ∷ (0x80 + c % 64) ∷ []

pub data TemplatePart : Type 0 where
  literal : Text → TemplatePart
  param : Text → TemplatePart

-- The pending literal, if there is one, in front of the later parts.
abbrev pub flush : Text → List TemplatePart → List TemplatePart
flush [] parts = parts
flush (c ∷ buf) parts = literal (c ∷ buf) ∷ parts

-- What stands between a brace and the next closing one, and how many bytes to skip behind the
-- opening one.
unfoldable pub brace_name : Text → Option (Text × ℕ)
brace_name s = Option.map (λ p. (p.0, suc (length p.0))) (split_once b'}' s)

-- The loop of `split_template_parts`: `skip` bytes of a parameter are behind `i` and before its end.
unfoldable pub template_parts_from : ℕ → Text → Text → List TemplatePart
template_parts_from skip buf [] = flush buf []
template_parts_from (suc skip) buf (c ∷ s) = template_parts_from skip buf s
template_parts_from zero buf (c ∷ s) =
    let literally = template_parts_from zero (buf ++ byte_as_char c) s in
    if c == b'{'
    then elim (brace_name s) [
      | none ↦ flush buf (template_parts_from zero (c ∷ []) s)
      | some (name, n) ↦ flush buf (param name ∷ template_parts_from n [] s)
    ]
    else literally

unfoldable pub split_template_parts : Text → List TemplatePart
split_template_parts template = template_parts_from 0 [] template

-- The loop of `match_mixed_segment`; `actual` is the text from the cursor on.
unfoldable pub match_parts :
    List TemplatePart → Text → List (Text × Text) → Option (List (Text × Text))
match_parts [] actual params = if is_empty actual then some params else none
match_parts (literal lit ∷ parts) actual params = elim (strip_prefix actual lit) [
  | none ↦ none
  | some rest ↦ match_parts parts rest params
]
match_parts (param name ∷ []) actual params =
    if is_empty actual then none else some (insert params name actual)
match_parts (param name ∷ param next ∷ parts) actual params = none
match_parts (param name ∷ literal lit ∷ parts) actual params = elim (find actual lit) [
  | none ↦ none
  | some zero ↦ none
  | some (suc off) ↦
      match_parts (literal lit ∷ parts) (drop (suc off) actual)
        (insert params name (take (suc off) actual))
]

unfoldable pub match_mixed_segment : Text → Text → List (Text × Text) → Option (List (Text × Text))
match_mixed_segment template actual params =
    match_parts (split_template_parts template) actual params

-- The text between the first and the last byte.
abbrev pub inner : Text → Text
inner template = take (length template - 2) (drop 1 template)

abbrev pub is_whole_param : Text → Bool
is_whole_param template =
    starts_with template (ascii "{")
    && (ends_with template b'}' && not (contains (inner template) b'{'))

-- `none` is `false`; the caller then drops the map.
unfoldable pub match_segment : Text → Text → List (Text × Text) → Option (List (Text × Text))
match_segment template actual params =
    if not (contains template b'{')
    then (if text_eq template actual then some params else none)
    else if is_whole_param template
    then (if is_empty actual then none else some (insert params (inner template) actual))
    else match_mixed_segment template actual params

unfoldable pub count_byte : ℕ → Text → ℕ
count_byte c [] = 0
count_byte c (d ∷ s) = (if d == c then 1 else 0) + count_byte c s

module _ (decode : Text → Option Text) where
  unfoldable pub decoded : Text → Text
  decoded segment = if contains segment b'%' then decode_segment decode segment else segment

  -- The loop over the zipped segments.
  unfoldable pub match_segments :
      List Text → List Text → List (Text × Text) → Option (List (Text × Text))
  match_segments (t ∷ ts) (a ∷ as') params = elim (match_segment t (decoded a) params) [
    | none ↦ none
    | some params' ↦ match_segments ts as' params'
  ]
  match_segments [] actuals params = some params
  match_segments (t ∷ ts) [] params = some params

  unfoldable pub match_template : Text → Text → Option (List (Text × Text))
  match_template template actual =
      if count_byte b'/' template == count_byte b'/' actual
      then match_segments (split b'/' template) (split b'/' actual) []
      else none

-- The segments that do not begin with a brace.
unfoldable pub count_literal_from : List Text → ℕ
count_literal_from [] = 0
count_literal_from (s ∷ ss) = (if starts_with s (ascii "{") then 0 else 1) + count_literal_from ss

unfoldable pub count_literal_segments : Text → ℕ
count_literal_segments template = count_literal_from (split b'/' template)
