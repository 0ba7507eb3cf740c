-- ===== src/Validation/Multipart.antt =====
-- crates/chasm-engine/src/validation.rs: the field names of a multipart body.
pub mod Scan
use chasm.Prelude.{
  ℕ, Bool, true, false, not, Option, some, none, or, List, [], ◌∷◌, ◌++◌, ◌+◌, ltb, is_empty,
  unwrap_or, zero, suc, length, take, drop, map, if◌then◌else◌,
}
use mathlib.Core.List.{flatten}
use chasm.Prelude.Maybe
use chasm.Text.{
  Text, ascii, split, find, strip_prefix, strip_last, starts_with, to_ascii_lowercase, trim,
  is_utf8,
}
use chasm.OpenApi.{Value, Members, string, object, end}
use chasm.Engine.Values.{has_field, insert_field}
use chasm.Validation.Checked.{Checked, done, exhausted, ◌>>=◌}

-- The text between two quotes, or the text itself.
abbrev pub unwrap_quotes : Text → Text
unwrap_quotes s = elim (strip_prefix s (34 ∷ [])) [
  | none ↦ s
  | some t ↦ unwrap_or (strip_last 34 t) s
]

-- The first of the pieces that has a prefix and something after it.
unfoldable pub first_directive : Text → (Text → Text) → List Text → Option Text
first_directive key clean [] = none
first_directive key clean (p ∷ ps) =
    let later = first_directive key clean ps in
    elim (strip_prefix (trim p) key) [
      | none ↦ later
      | some rest ↦
          if is_empty (unwrap_quotes (clean rest)) then later else some (unwrap_quotes (clean rest))
    ]

unfoldable pub extract_multipart_boundary : Text → Option Text
extract_multipart_boundary content_type =
    first_directive (ascii "boundary=") trim (split b';' content_type)

unfoldable pub find_subsequence : Text → Text → Option ℕ
find_subsequence haystack needle =
    if is_empty needle
    then none
    else if ltb (length haystack) (length needle)
    then none
    else find haystack needle

-- `split(['\n', '\r'])`.
abbrev pub lines : Text → List Text
lines s = flatten (map (split 13) (split 10 s))

unfoldable pub name_in_lines : List Text → Option Text
name_in_lines [] = none
name_in_lines (l ∷ ls) =
    let later = name_in_lines ls in
    if starts_with (to_ascii_lowercase (trim l)) (ascii "content-disposition:")
    then or (first_directive (ascii "name=") (λ rest. rest) (split b';' (trim l))) later
    else later

unfoldable pub extract_form_data_name : Text → Option Text
extract_form_data_name part =
    let header_end =
      unwrap_or
        (or (find_subsequence part (13 ∷ 10 ∷ 13 ∷ 10 ∷ [])) (find_subsequence part (10 ∷ 10 ∷ [])))
        (length part) in
    let header = take header_end part in
    if is_utf8 header then name_in_lines (lines header) else none

-- The entry of a part, unless the map has it.
unfoldable pub add_part : Text → Members → Members
add_part part map = if is_empty part then map else elim (extract_form_data_name part) [
  | none ↦ map
  | some name ↦ if has_field map name then map else insert_field map name (string [])
]

-- The loop, on the bytes from the cursor on.
unfoldable pub scan_parts : ℕ → Text → Text → Members → Checked Members
scan_parts zero delimiter rest map = exhausted
scan_parts (suc fuel) delimiter [] map = done map
scan_parts (suc fuel) delimiter (c ∷ s) map = elim (find_subsequence (c ∷ s) delimiter) [
  | none ↦ done map
  | some start ↦
      let after = drop (start + length delimiter) (c ∷ s) in
      let part_end = unwrap_or (find_subsequence after delimiter) (length after) in
      scan_parts fuel delimiter (drop part_end after) (add_part (take part_end after) map)
]

unfoldable pub parse_multipart_field_names_to_json : Text → Text → Checked Value
parse_multipart_field_names_to_json content_type raw =
    elim (extract_multipart_boundary content_type) [
      | none ↦ done (object end)
      | some boundary ↦ do
        map ← scan_parts (suc (length raw)) (ascii "--" ++ boundary) raw end
        done (object map)
    ]
