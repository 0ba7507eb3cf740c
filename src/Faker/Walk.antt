-- ===== src/Faker/Walk.antt =====
-- crates/chasm-faker/src/lib.rs: `walk_static`, its arrays and its objects.
pub mod Ending
pub mod Termination
pub mod Required
pub mod Within
use chasm.Engine.Config.{GenerateOptions}
use chasm.Engine.Values.{as_str, as_u64, field, has_field, insert_field, append_values, count_items}
use chasm.Prelude.{
  ℕ, zero, suc, ◌-◌, Bool, true, false, ◌&&◌, ◌||◌, Option, some, none, is_some, or, unwrap_or,
  List, [], ◌∷◌, leb, ltb, if◌then◌else◌,
}
use chasm.Prelude.Maybe.{◌>>=◌}
use chasm.Text.{Text, ascii, text_eq}
use chasm.OpenApi.{Value, Values, Members, null, bool, array, object, nil, cons, end, member}
use chasm.Validation.Library.{Floats}
use chasm.Faker.Merge.{deep_merge}
use chasm.Faker.RefResolver.{any_text, resolve}
use chasm.Faker.Static.{
  zero_number, key_of, static_terminal, static_string, type_name, fixed_value, first_branch,
  resolver, items_at, required_names, declared_properties,
}

abbrev pub is_null : Value → Bool
is_null null = true
is_null _ = false

abbrev pub only_object : Value → Option Value
only_object (object m) = some (object m)
only_object _ = none

-- `walk` walks a schema one level further down.
module _ (opts : GenerateOptions) (walk : Value → Option Value) where
  unfoldable pub walk_prefix : Values → Option Values
  walk_prefix nil = some nil
  walk_prefix (cons item_schema prefix) = do
    v ← walk item_schema
    vs ← walk_prefix prefix
    some (cons v vs)

  -- The loop that pads the list, which may stop early; the first number is the turns that are left.
  unfoldable pub pad : ℕ → ℕ → Value → Values → Option Values
  pad zero min_items fill_schema out = some out
  pad (suc turns) min_items fill_schema out = do
    element ← walk fill_schema
    let rest = pad turns min_items fill_schema (append_values out (cons element nil))
    if is_null element && leb min_items (count_items out) then some out else rest

  abbrev pub at_least : ℕ → ℕ → ℕ
  at_least a b = if ltb a b then b else a

  abbrev pub at_most : Option ℕ → ℕ → ℕ
  at_most none n = n
  at_most (some m) n = if ltb m n then m else n

  unfoldable pub target_length : Members → ℕ → ℕ
  target_length map min_items =
      if opts.always_fake_optionals && is_some (field map (ascii "items") >>= only_object)
      then at_most (field map (ascii "maxItems") >>= as_u64) (at_least min_items 3)
      else min_items

  unfoldable pub static_array : Members → Option Value
  static_array map = do
    let min_items = unwrap_or (field map (ascii "minItems") >>= as_u64) 0
    let prefix = or (items_at map (ascii "prefixItems")) (items_at map (ascii "items"))
    let fill_schema = unwrap_or (field map (ascii "items") >>= only_object) (object end)
    out ← walk_prefix (unwrap_or prefix nil)
    vs ← pad (target_length map min_items - count_items out) min_items fill_schema out
    some (array vs)

  unfoldable pub walk_properties : List Text → Members → Members → Option Members
  walk_properties required end out = some out
  walk_properties required (member key prop_schema properties) out =
      let skipped = walk_properties required properties out in
      if any_text (text_eq key) required || opts.always_fake_optionals
      then (do v ← walk prop_schema; walk_properties required properties (insert_field out key v))
      else skipped

  unfoldable pub walk_required : List Text → Members → Option Members
  walk_required [] out = some out
  walk_required (key ∷ required) out =
      let present = walk_required required out in
      if has_field out key
      then present
      else (do v ← walk (object end); walk_required required (insert_field out key v))

  unfoldable pub static_object : Members → Option Value
  static_object map = do
    declared ← walk_properties (required_names map) (declared_properties map) end
    out ← walk_required (required_names map) declared
    some (object out)

unfoldable pub remove_field : Members → Text → Members
remove_field end k = end
remove_field (member j v m) k =
    let rest = remove_field m k in if text_eq j k then m else member j v rest

-- The schema's other keys, where the merge of its parts lacks them.
unfoldable pub inherit : Members → Members → Members
inherit end m = m
inherit (member k v map) m =
    inherit map (if text_eq k (ascii "allOf") || has_field m k then m else insert_field m k v)

module _ (floats : Floats) (opts : GenerateOptions) (root : Value) where
  abbrev pub resolve_static : Text → Option Value
  resolve_static ref_str = (resolve (resolver opts root) ref_str []).0

  -- A part of `allOf`; a reference that does not resolve stays.
  unfoldable pub resolved_part : Value → Value
  resolved_part sub = unwrap_or (key_of sub (ascii "$ref") >>= as_str >>= resolve_static) sub

  unfoldable pub merge_parts : Values → Value → Value
  merge_parts nil merged = merged
  merge_parts (cons sub subs) merged =
      merge_parts subs (deep_merge floats merged (resolved_part sub))

  unfoldable pub merge_all_of : Members → Values → Value
  merge_all_of map subs = elim (merge_parts subs (object end)) [
    | object m ↦ object (remove_field (inherit map m) (ascii "allOf"))
    | merged ↦ merged
  ]

  unfoldable pub walk_type : (Value → Option Value) → Members → Option Value
  walk_type walk map =
      let t = type_name map in
      if text_eq t (ascii "string")
      then some (static_string map)
      else if text_eq t (ascii "number") || text_eq t (ascii "integer")
      then some zero_number
      else if text_eq t (ascii "boolean")
      then some (bool false)
      else if text_eq t (ascii "array")
      then static_array opts walk map
      else if text_eq t (ascii "object")
      then static_object opts walk map
      else some null

  -- What follows the references and the fixed values.
  unfoldable pub walk_parts : (Value → Option Value) → Members → Option Value
  walk_parts walk map = elim (items_at map (ascii "allOf")) [
    | some subs ↦ walk (merge_all_of map subs)
    | none ↦ elim (first_branch map) [
      | some branch ↦ walk branch
      | none ↦ elim (if opts.use_default_value then field map (ascii "default") else none) [
        | some default_val ↦ some default_val
        | none ↦ walk_type walk map
      ]
    ]
  ]

  -- The walk of an object above the depth where it stops; `visited` is the stack of the references
  -- that are being walked.
  unfoldable pub walk_map :
      (Value → List Text → ℕ → Option Value) → Members → List Text → ℕ → Option Value
  walk_map walk map visited depth = elim (field map (ascii "$ref") >>= as_str) [
    | some ref_str ↦
        if any_text (text_eq ref_str) visited
        then some (static_terminal (object map))
        else elim (resolve_static ref_str) [
          | some resolved ↦ walk resolved (ref_str ∷ visited) depth
          | none ↦ some null
        ]
    | none ↦ elim (fixed_value opts map) [
      | some v ↦ some v
      | none ↦ walk_parts (λ s. walk s visited (suc depth)) map
    ]
  ]

  unfoldable pub walk_static : ℕ → Value → List Text → ℕ → Option Value
  walk_static zero schema visited depth = none
  walk_static (suc fuel) schema visited depth =
      if leb opts.max_depth depth then some (static_terminal schema) else elim schema [
        | object map ↦ walk_map (walk_static fuel) map visited depth
        | _ ↦ some null
      ]

-- Without fuel enough there is no value; an error there is none.
unfoldable pub generate_static : Floats → ℕ → Value → GenerateOptions → Option Value
generate_static floats fuel schema opts = do
  result ← walk_static floats opts schema fuel schema [] 0
  some (elim opts.output_transform [ none ↦ result | some transform ↦ transform result schema ])
