-- ===== src/Faker/Merge/Within.antt =====
-- crates/chasm-faker/src/merge.rs: the strings of a merge.
use mathlib.Core.Path.{subst}
use chasm.Prelude.{List, Bool-cases, Option-cases, inl, inr}
use chasm.Text.{Text}
use chasm.OpenApi.{
  Value, Values, Members, null, bool, number, string, array, object, nil, cons, end, member,
}
use chasm.Engine.Values.{field, insert_field, append_values}
use chasm.Validation.Library.{Floats}
use chasm.Validation.Equality.{occurs}
use chasm.Faker.Merge.{
  is_array_concat_key, push_missing, items_of, merge_arrays_dedup, deep_merge, merge_members,
}
use chasm.Faker.Strings.{
  Given, Within, WithinItems, WithinMembers, Within-field, Within-append, Within-insert,
}

module _ (floats : Floats) (names : List Text) where
  Within-push_missing :
      (combined vs : Values)
      → WithinItems names combined
      → WithinItems names vs
      → WithinItems names (push_missing floats combined vs)
  unfolding push_missing WithinItems
  Within-push_missing combined nil h k = h
  Within-push_missing combined (cons v vs) h (p, k) = elim (Bool-cases (occurs floats v combined)) [
    | inl y ↦ rw y (Within-push_missing combined vs h k)
    | inr n ↦ rw n (
        Within-push_missing (append_values combined (cons v nil)) vs
          (Within-append names combined (cons v nil) h (p, tt)) k)
  ]

  Within-items : (v : Value) → Within names v → WithinItems names (items_of v)
  unfolding Within WithinItems
  Within-items (array vs) h = h
  Within-items (null) h = tt
  Within-items (bool b) h = tt
  Within-items (number n) h = tt
  Within-items (string s) h = tt
  Within-items (object m) h = tt

  Within-merge_arrays_dedup :
      (base overlay : Value)
      → Within names base
      → Within names overlay
      → Within names (merge_arrays_dedup floats base overlay)
  unfolding merge_arrays_dedup Within
  Within-merge_arrays_dedup base overlay h k =
      Within-push_missing _ _ (Within-items base h) (Within-items overlay k)

  mutual
    unfolding deep_merge merge_members Within WithinMembers

    pub Within-deep_merge :
        (base overlay : Value)
        → Within names base
        → Within names overlay
        → Within names (deep_merge floats base overlay)
    Within-deep_merge (object m) (object n) h k = Within-merge_members m n h k
    Within-deep_merge _ overlay h k = k

    Within-merge_members :
        (m n : Members)
        → WithinMembers names m
        → WithinMembers names n
        → WithinMembers names (merge_members floats m n)
    Within-merge_members m end h k = h
    Within-merge_members m (member key v n) h (p, k) = elim (Option-cases (field m key)) [
      | inl e ↦
          rw e (Within-merge_members (insert_field m key v) n (Within-insert names m key v h p) k)
      | inr (b, e) ↦
          let q : Within names b = subst (Given (Within names)) e (Within-field names m key h) in
          elim (Bool-cases (is_array_concat_key key)) [
            | inl y ↦
                rw (e, y)
                  (Within-merge_members _ n
                    (Within-insert names m key _ h (Within-merge_arrays_dedup b v q p)) k)
            | inr z ↦
                rw (e, z)
                  (Within-merge_members _ n
                    (Within-insert names m key _ h (Within-deep_merge b v q p)) k)
          ]
    ]
