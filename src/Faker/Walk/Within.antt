-- ===== src/Faker/Walk/Within.antt =====
-- crates/chasm-faker/src/lib.rs: the strings of the schemas that the static walk makes.
use chasm.Faker.RefResolver.Within.{WithinExternal, Within-resolve}
use chasm.Faker.Merge.Within.{Within-deep_merge}
use chasm.Faker.Strings.{
  Given, Given-or, Given-unwrap_or, Within, WithinItems, WithinMembers, Within-field, Within-insert,
}
use chasm.Engine.Config.{GenerateOptions}
use chasm.Engine.Values.{field, insert_field, has_field, as_str}
use chasm.Prelude.{
  refl, is_empty, sym, ◌≡◌, ◌||◌, true, Option, some, none, List, [], Bool-cases, inl, inr, All,
}
use chasm.Prelude.Maybe.{◌>>=◌}
use mathlib.Core.Path.{subst}
use chasm.Text.{Text, ascii, text_eq}
use chasm.OpenApi.{
  Value, Values, Members, null, bool, number, string, array, object, nil, cons, end, member,
}
use chasm.Faker.Static.{key_of, first_item, first_branch, resolver}
use chasm.Faker.RefResolver.{new_resolver, with_external, any_text}
use chasm.Validation.Library.{Floats}
use chasm.Faker.Walk.{
  remove_field, inherit, resolve_static, resolved_part, merge_parts, merge_all_of,
}

module _ (names : List Text) where
  Within-remove_field :
      (m : Members) (k : Text) → WithinMembers names m → WithinMembers names (remove_field m k)
  unfolding remove_field WithinMembers
  Within-remove_field end k h = tt
  Within-remove_field (member j v m) k (p, h) = elim (Bool-cases (text_eq j k)) [
    | inl y ↦ rw y h
    | inr n ↦ rw n (p, Within-remove_field m k h)
  ]

  Within-inherit :
      (map m : Members)
      → WithinMembers names map
      → WithinMembers names m
      → WithinMembers names (inherit map m)
  unfolding inherit WithinMembers
  Within-inherit end m h k = k
  Within-inherit (member j v map) m (p, h) k =
      elim (Bool-cases (text_eq j (ascii "allOf") || has_field m j)) [
        | inl y ↦ rw y (Within-inherit map m h k)
        | inr n ↦ rw n (Within-inherit map (insert_field m j v) h (Within-insert names m j v k p))
      ]

  Within-first_item :
      (o : Option Value) → Given (Within names) o → Given (Within names) (first_item o)
  unfolding Within WithinItems
  Within-first_item none h = tt
  Within-first_item (some (array (cons v vs))) h = h.0
  Within-first_item (some (array nil)) h = tt
  Within-first_item (some (null)) h = tt
  Within-first_item (some (bool b)) h = tt
  Within-first_item (some (number n)) h = tt
  Within-first_item (some (string s)) h = tt
  Within-first_item (some (object m)) h = tt

  pub Within-first_branch :
      (m : Members) → WithinMembers names m → Given (Within names) (first_branch m)
  unfolding first_branch
  Within-first_branch m h =
      Given-or (Within names) (first_item (field m (ascii "anyOf"))) _
        (Within-first_item (field m (ascii "anyOf")) (Within-field names m (ascii "anyOf") h))
        (Within-first_item (field m (ascii "oneOf")) (Within-field names m (ascii "oneOf") h))

  module _ (floats : Floats) (opts : GenerateOptions) (root : Value) (within : Within names root)
      (external : All (λ e. Within names e.1) opts.external_refs) where
    pub Within-as_str :
        (v : Value) → Within names v → Given (λ r. any_text (text_eq r) names ≡ true) (as_str v)
    unfolding Within
    Within-as_str (string s) h = h
    Within-as_str (null) h = tt
    Within-as_str (bool b) h = tt
    Within-as_str (number n) h = tt
    Within-as_str (array vs) h = tt
    Within-as_str (object m) h = tt

    Within-resolver : WithinExternal names (resolver opts root).external
    unfolding resolver with_external new_resolver
    Within-resolver = elim (Bool-cases (is_empty opts.external_refs)) [
      | inl y ↦ rw y tt
      | inr n ↦ rw n external
    ]

    root_of_resolver : (resolver opts root).root ≡ root
    unfolding resolver with_external new_resolver
    root_of_resolver = elim (Bool-cases (is_empty opts.external_refs)) [
      | inl y ↦ rw y refl
      | inr n ↦ rw n refl
    ]

    pub Within-resolve_static :
        (ref_str : Text) → Given (Within names) (resolve_static floats opts root ref_str)
    Within-resolve_static ref_str =
        Within-resolve names (resolver opts root) ref_str []
          (subst (Within names) (sym root_of_resolver) within) Within-resolver

    Within-resolved_part :
        (sub : Value) → Within names sub → Within names (resolved_part floats opts root sub)
    unfolding resolved_part
    Within-resolved_part sub h =
        Given-unwrap_or (Within names) _ sub (resolved (key_of sub (ascii "$ref") >>= as_str)) h
      where
        resolved : (o : Option Text) → Given (Within names) (o >>= resolve_static floats opts root)
        resolved none = tt
        resolved (some r) = Within-resolve_static r

    Within-merge_parts :
        (subs : Values) (merged : Value)
        → WithinItems names subs
        → Within names merged
        → Within names (merge_parts floats opts root subs merged)
    unfolding merge_parts WithinItems
    Within-merge_parts nil merged h k = k
    Within-merge_parts (cons sub subs) merged (p, h) k =
        Within-merge_parts subs _ h
          (Within-deep_merge floats names merged _ k (Within-resolved_part sub p))

    pub Within-merge_all_of :
        (map : Members) (subs : Values)
        → WithinMembers names map
        → WithinItems names subs
        → Within names (merge_all_of floats opts root map subs)
    unfolding merge_all_of Within WithinMembers
    Within-merge_all_of map subs h k =
        settled (merge_parts floats opts root subs (object end))
          (Within-merge_parts subs (object end) k tt)
      where
        settled :
            (v : Value)
            → Within names v
            → Within names (elim v [
              | object m ↦ object (remove_field (inherit map m) (ascii "allOf"))
              | merged ↦ merged
            ])
        settled (object m) p =
            Within-remove_field (inherit map m) (ascii "allOf") (Within-inherit map m h p)
        settled (null) p = p
        settled (bool b) p = p
        settled (number n) p = p
        settled (string s) p = p
        settled (array vs) p = p
