-- ===== src/Faker/Merge/Fields.antt =====
-- crates/chasm-faker/src/merge.rs: the entries of a merge, key by key.
use mathlib.Core.Path.{subst, ap, ◌∙◌}
use chasm.Prelude.{
  if◌then◌else◌, Bool-cases, Option-cases, inl, inr, some, none, Option, ◌≡◌, refl, arith,
}
use chasm.Text.{Text, text_eq}
use chasm.Text.Laws.{text_eq_iff}
use chasm.OpenApi.{Value, Members, end, member}
use chasm.Engine.Values.{field, insert_field}
use chasm.Validation.Library.{Floats}
use chasm.Faker.Merge.{is_array_concat_key, merge_arrays_dedup, deep_merge, merge_members}

pub field-insert_field :
    (m : Members) (k j : Text) (v : Value)
    → field (insert_field m k v) j ≡ (if text_eq k j then some v else field m j)
unfolding field insert_field
field-insert_field end k j v = refl
field-insert_field (member i w m) k j v =
    ground (arith, text_eq_iff i k, text_eq_iff i j, text_eq_iff k j, field-insert_field m k j v)

-- No key of a map stands twice.
abbrev pub IsMap : Members → Type 0
IsMap end = Unit
IsMap (member k v m) = (field m k ≡ none) × IsMap m

-- The value of a key that both have.
abbrev pub merged_value : Floats → Text → Value → Value → Value
merged_value floats key base overlay =
    if is_array_concat_key key
    then merge_arrays_dedup floats base overlay
    else deep_merge floats base overlay

abbrev pub merged_at : Floats → Text → Option Value → Option Value → Option Value
merged_at floats key base none = base
merged_at floats key none (some overlay) = some overlay
merged_at floats key (some base) (some overlay) = some (merged_value floats key base overlay)

abbrev met : Floats → Text → Option Value → Value → Value
met floats key none overlay = overlay
met floats key (some base) overlay = merged_value floats key base overlay

some-met :
    (floats : Floats) (key : Text) (o : Option Value) (v : Value)
    → some (met floats key o v) ≡ merged_at floats key o (some v)
some-met floats key none v = refl
some-met floats key (some b) v = refl

merged_at-none :
    (floats : Floats) (key : Text) (o p : Option Value) → p ≡ none → merged_at floats key o p ≡ o
merged_at-none floats key o none e = refl
merged_at-none floats key o (some v) e = absurd (ground arith)

merge_members-end :
    (floats : Floats) (m : Members) (key : Text)
    → field (merge_members floats m end) key ≡ field m key
unfolding merge_members
merge_members-end floats m key = refl

merge_members-member :
    (floats : Floats) (base_map : Members) (k : Text) (v : Value) (rest : Members)
    → merge_members floats base_map (member k v rest)
      ≡ merge_members floats (insert_field base_map k (met floats k (field base_map k) v)) rest
unfolding merge_members
merge_members-member floats base_map k v rest = elim (Option-cases (field base_map k)) [
  | inl e ↦ rw e refl
  | inr (b, e) ↦ rw e refl
]

-- In the merge of two objects, where no key of the overlay stands twice, a key that only one of
-- them has keeps its value, and a key that both have gets the joined lists for `required`,
-- `allOf`, `anyOf` and `oneOf` and the merge of both values for any other key.
pub field-merge_members :
    (floats : Floats) (base_map overlay_map : Members) (key : Text)
    → IsMap overlay_map
    → field (merge_members floats base_map overlay_map) key
      ≡ merged_at floats key (field base_map key) (field overlay_map key)
unfolding field
field-merge_members floats base_map end key h = merge_members-end floats base_map key
field-merge_members floats base_map (member k v rest) key (absent, h) =
    let x = met floats k (field base_map k) v in
    let later = field-merge_members floats (insert_field base_map k x) rest key h in
    let inserted = field-insert_field base_map k key x in
    rw merge_members-member (
      later ∙ (elim (Bool-cases (text_eq k key)) [
        | inl y ↦
            let same : k ≡ key = (text_eq_iff k key).0 y in
            let gone : field rest key ≡ none = subst (λ t. field rest t ≡ none) same absent in
            let there : field (insert_field base_map k x) key ≡ some x = rw y at inserted in
            rw y (
              merged_at-none floats key _ _ gone
              ∙ (there
                  ∙ (some-met floats k (field base_map k) v
                      ∙ ap (λ t. merged_at floats t (field base_map t) (some v)) same)))
        | inr n ↦
            let there : field (insert_field base_map k x) key ≡ field base_map key =
              rw n at inserted in
            rw n (ap (λ o. merged_at floats key o (field rest key)) there)
      ]))
