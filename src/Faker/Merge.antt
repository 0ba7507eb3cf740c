-- ===== src/Faker/Merge.antt =====
-- crates/chasm-faker/src/merge.rs.
pub mod Within
pub mod Fields
use chasm.Validation.Equality.{occurs}
use chasm.Engine.Values.{insert_field, field, append_values}
use chasm.Text.{text_eq, ascii, Text}
use chasm.OpenApi.{object, nil, member, end, cons, array, Values, Value, Members}
use chasm.Validation.Library.{Floats}
use chasm.Prelude.{if◌then◌else◌, ◌||◌, some, none, Bool}

-- Keys whose lists are joined.
unfoldable pub is_array_concat_key : Text → Bool
is_array_concat_key k =
    text_eq k (ascii "required")
    || (text_eq k (ascii "allOf") || (text_eq k (ascii "anyOf") || text_eq k (ascii "oneOf")))

abbrev pub items_of : Value → Values
items_of (array vs) = vs
items_of _ = nil

module _ (floats : Floats) where
  -- The items of an overlay that do not stand there yet.
  unfoldable pub push_missing : Values → Values → Values
  push_missing combined nil = combined
  push_missing combined (cons v vs) =
      push_missing
        (if occurs floats v combined then combined else append_values combined (cons v nil)) vs

  unfoldable pub merge_arrays_dedup : Value → Value → Value
  merge_arrays_dedup base overlay = array (push_missing (items_of base) (items_of overlay))

  unfoldable mutual
    unfolding is_array_concat_key merge_arrays_dedup insert_field field

    pub deep_merge : Value → Value → Value
    deep_merge (object base_map) (object overlay_map) = object (merge_members base_map overlay_map)
    deep_merge base overlay = overlay

    -- The entries of the overlay, one after the other.
    pub merge_members : Members → Members → Members
    merge_members base_map end = base_map
    merge_members base_map (member key overlay_val rest) =
        let merged : Value = elim (field base_map key) [
          | none ↦ overlay_val
          | some base_val ↦
              let deep = deep_merge base_val overlay_val in
              if is_array_concat_key key then merge_arrays_dedup base_val overlay_val else deep
        ] in
        merge_members (insert_field base_map key merged) rest
