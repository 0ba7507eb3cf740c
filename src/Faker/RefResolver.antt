-- ===== src/Faker/RefResolver.antt =====
-- crates/chasm-faker/src/ref_resolver.rs.
pub mod Within
use chasm.Engine.Values.{field, as_str}
use chasm.Prelude.{
  ℕ, zero, suc, ◌-◌, ◌^◌, Bool, false, ◌||◌, Option, some, none, is_some, or, unwrap_or, List, [],
  ◌∷◌, ◌++◌, length, leb, is_empty, ◌==◌, if◌then◌else◌,
}
use mathlib.Core.List.{reverse}
use mathlib.Core.Option
use chasm.Prelude.Maybe.{◌>>=◌}
use chasm.Text.{
  Text, ascii, text_eq, strip_prefix, split, parse_uint, insert, get, find, before, unescape,
}
use chasm.OpenApi.{object, nil, member, end, cons, array, Values, Value, Members}

abbrev pub usize_max : ℕ
usize_max = 2 ^ 64 - 1

pub record RefResolver : Type 0 where
  pub root : Value
  pub id_map : List (Text × List Text)
  pub external : Option (List (Text × Value))
  pub min_depth : ℕ
  pub max_depth : ℕ

-- The text from the first of a byte on.
abbrev pub from_first : ℕ → Text → Text
from_first c [] = []
from_first c (d ∷ s) = if d == c then d ∷ s else from_first c s

-- The text up to the last of a byte, with it.
abbrev pub until_last : ℕ → Text → Text
until_last c s = reverse (from_first c (reverse s))

unfoldable pub resolve_against_base : Option Text → Text → Text
resolve_against_base none id = id
resolve_against_base (some base) id =
    if is_some (find id (ascii "://")) then id else elim (strip_prefix id (ascii "#")) [
      | some stripped ↦ before b'#' base ++ (ascii "#" ++ stripped)
      | none ↦ until_last b'/' (before b'#' base) ++ unwrap_or (strip_prefix id (ascii "./")) id
    ]

-- An identifier is indexed as it is written and as it is resolved.
unfoldable pub index_id :
    Text → Text → List Text → List (Text × List Text) → List (Text × List Text)
index_id id resolved segments id_map =
    let literal = insert id_map id segments in
    if text_eq resolved id then literal else insert literal resolved segments

-- The string of a key, if it has one.
abbrev pub string_at : Members → Text → Option Text
string_at map key = field map key >>= as_str

unfoldable pub index_node :
    Members → List Text → List (Text × List Text) → Option Text → List (Text × List Text)
index_node map segments id_map base =
    let with_dollar : List (Text × List Text) = elim (string_at map (ascii "$id")) [
      | none ↦ id_map
      | some id ↦ index_id id (resolve_against_base base id) segments id_map
    ] in
    let with_id : List (Text × List Text) = elim (string_at map (ascii "id")) [
      | none ↦ with_dollar
      | some id ↦ index_id id (resolve_against_base base id) segments with_dollar
    ] in
    elim (string_at map (ascii "$anchor")) [
      | none ↦ with_id
      | some anchor ↦ insert with_id anchor segments
    ]

-- The base of the nodes below: that of `$id`; without one, the base here; without either, `id`.
unfoldable pub base_below : Members → Option Text → Option Text
base_below map base = elim (string_at map (ascii "$id")) [
  | some id ↦ some (resolve_against_base base id)
  | none ↦ or base (Option.map (resolve_against_base base) (string_at map (ascii "id")))
]

unfoldable mutual
  pub collect_ids :
      Value → List Text → List (Text × List Text) → Option Text → List (Text × List Text)
  collect_ids (object map) segments id_map base =
      collect_below map segments (index_node map segments id_map base) (base_below map base)
  collect_ids value segments id_map base = id_map

  pub collect_below :
      Members → List Text → List (Text × List Text) → Option Text → List (Text × List Text)
  collect_below end segments id_map base = id_map
  collect_below (member key child map) segments id_map base =
      collect_below map segments (collect_ids child (segments ++ key ∷ []) id_map base) base

unfoldable pub new_resolver : Value → RefResolver
new_resolver root = record {
  root = root;
  id_map = collect_ids root [] [] none;
  external = none;
  min_depth = 0;
  max_depth = usize_max;
}

unfoldable pub with_external : RefResolver → List (Text × Value) → RefResolver
with_external r external = if is_empty external then r else record r { external = some external }

unfoldable pub with_depth_window : RefResolver → ℕ → ℕ → RefResolver
with_depth_window r low high = record r {
  min_depth = low;
  max_depth = if leb low high then high else low;
}

abbrev pub nth_value : Values → ℕ → Option Value
nth_value nil i = none
nth_value (cons v vs) zero = some v
nth_value (cons v vs) (suc i) = nth_value vs i

-- One segment of a pointer: a key or an index.
unfoldable pub child_at : Value → Text → Option Value
child_at (object map) key = field map key
child_at (array arr) key = parse_uint usize_max key >>= nth_value arr
child_at _ key = none

unfoldable pub resolve_parts : List Text → Value → Option Value
resolve_parts [] current = some current
resolve_parts (part ∷ parts) current = child_at current (unescape part) >>= resolve_parts parts

unfoldable pub resolve_pointer : RefResolver → Text → Option Value
resolve_pointer r pointer = resolve_parts (split b'/' pointer) r.root

abbrev pub any_text : (Text → Bool) → List Text → Bool
any_text p [] = false
any_text p (t ∷ ts) = p t || any_text p ts

abbrev pub external_at : RefResolver → Text → Option Value
external_at r ref_str = r.external >>= λ map. get map ref_str

-- What the index has for a name.
abbrev pub indexed_at : RefResolver → Text → Option (List Text)
indexed_at r name = get r.id_map name

-- What a reference names, whatever has been visited.
unfoldable pub target : RefResolver → Text → Option Value
target r ref_str =
    if text_eq ref_str (ascii "#") then some r.root else elim (strip_prefix ref_str (ascii "#/")) [
      | some rest ↦ resolve_pointer r rest
      | none ↦ elim (strip_prefix ref_str (ascii "#")) [
        | some anchor ↦ elim (or (indexed_at r anchor) (indexed_at r ref_str)) [
          | some segments ↦ resolve_parts segments r.root
          | none ↦ some r.root
        ]
        | none ↦
            or (external_at r ref_str)
              (indexed_at r ref_str >>= λ segments. resolve_parts segments r.root)
      ]
    ]

-- `resolve`, with the references that have been visited afterwards.
unfoldable pub resolve : RefResolver → Text → List Text → Option Value × List Text
resolve r ref_str visited =
    if leb r.max_depth (length visited)
    then (none, visited)
    else if any_text (text_eq ref_str) visited
    then (none, visited)
    else (target r ref_str, visited ++ ref_str ∷ [])
