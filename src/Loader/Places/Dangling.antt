-- ===== src/Loader/Places/Dangling.antt =====
-- The check of references against the components of a document.
use chasm.Prelude.{
  ◌≡◌, ◌≢◌, ◌↔◌, ◌∙◌, ap, true, false, not, ◌&&◌, Bool-cases, Option-cases, some, is_some, is_empty,
  Any, [], ◌∷◌, ◌++◌, inl, inr, refl,
}
use chasm.Text.{Text, ascii, strip_prefix, split_once, unescape}
use chasm.Text.Search.Laws.{strip_prefix_sound, strip_prefix-append, split_once_sound}
use chasm.Loader.Yaml.{Yaml}
use chasm.Loader.Schemas.{child}
use chasm.Loader.Semantics.{is_bag, is_dangling, resolve_component_entry}
use chasm.Loader.Places.{component_kinds, HasComponent, IsNotDangling}
use chasm.Loader.Places.Types.{any_text_iff}

bag_iff : (kind : Text) → (is_bag kind ≡ true) ↔ Any (λ k. kind ≡ k) component_kinds
bag_iff kind = any_text_iff kind component_kinds

-- No kind has a slash.
split_once-kind :
    (kind name : Text)
    → Any (λ k. kind ≡ k) component_kinds
    → split_once b'/' (kind ++ b'/' ∷ name) ≡ some (kind, name)
unfolding split_once
split_once-kind kind name (inl e) = rw e refl
split_once-kind kind name (inr (inl e)) = rw e refl
split_once-kind kind name (inr (inr (inl e))) = rw e refl
split_once-kind kind name (inr (inr (inr (inl e)))) = rw e refl
split_once-kind kind name (inr (inr (inr (inr (inl e))))) = rw e refl
split_once-kind kind name (inr (inr (inr (inr (inr (inl e)))))) = rw e refl
split_once-kind kind name (inr (inr (inr (inr (inr (inr (inl e))))))) = rw e refl
split_once-kind kind name (inr (inr (inr (inr (inr (inr (inr (inl e)))))))) = rw e refl
split_once-kind kind name (inr (inr (inr (inr (inr (inr (inr (inr x)))))))) = absurd x

resolved :
    (root : Yaml) (kind name : Text)
    → HasComponent root kind name
    → is_some (resolve_component_entry root kind name) ≡ true
unfolding resolve_component_entry
resolved root kind name (c, b, t, p, q, r) = rw (resolve_component_entry, p, q, r) refl

component :
    (root : Yaml) (kind name : Text)
    → is_some (resolve_component_entry root kind name) ≡ true
    → HasComponent root kind name
unfolding resolve_component_entry
component root kind name e = elim (Option-cases (child (ascii "components") root)) [
  | inl n ↦ absurd (cc (rw (resolve_component_entry, n) at e))
  | inr (c, p) ↦ elim (Option-cases (child kind c)) [
    | inl n ↦ absurd (cc (rw (resolve_component_entry, p, n) at e))
    | inr (b, q) ↦ elim (Option-cases (child (unescape name) b)) [
      | inl n ↦ absurd (cc (rw (resolve_component_entry, p, q, n) at e))
      | inr (t, r) ↦ (c, b, t, p, q, r)
    ]
  ]
]

not_filled : (name : Text) → name ≢ [] → ¬ ((not (is_empty name) && true) ≡ false)
not_filled [] n e = n refl
not_filled (c ∷ s) n e = cc

undangled : (root : Yaml) (t : Text) → is_dangling root t ≡ false → IsNotDangling root t
unfolding is_dangling
undangled root t e kind name k n q =
    let s : strip_prefix t (ascii "#/components/") ≡ some (kind ++ b'/' ∷ name) =
      rw q (strip_prefix-append (ascii "#/components/") (kind ++ b'/' ∷ name)) in
    let f : (not (is_empty name) && not (is_some (resolve_component_entry root kind name)))
        ≡ false =
      rw (is_dangling, s, split_once-kind kind name k, (bag_iff kind).1 k) at e in
    elim (Bool-cases (is_some (resolve_component_entry root kind name))) [
      | inl y ↦ component root kind name y
      | inr o ↦ absurd (not_filled name n (rw o at f))
    ]

served :
    (root : Yaml) (kind name : Text)
    → (name ≢ [] → HasComponent root kind name)
    → (not (is_empty name) && not (is_some (resolve_component_entry root kind name))) ≡ false
served root kind [] h = refl
served root kind (c ∷ s) h = rw (resolved root kind (c ∷ s) (h (λ e. cc))) refl

passed : (root : Yaml) (t : Text) → IsNotDangling root t → is_dangling root t ≡ false
unfolding is_dangling
passed root t h = elim (Option-cases (strip_prefix t (ascii "#/components/"))) [
  | inl n ↦ rw (is_dangling, n) refl
  | inr (rest, p) ↦ elim (Option-cases (split_once b'/' rest)) [
    | inl n ↦ rw (is_dangling, p, n) refl
    | inr ((kind, name), q) ↦ elim (Bool-cases (is_bag kind)) [
      | inr o ↦ rw (is_dangling, p, q, o) refl
      | inl y ↦
          let whole : t ≡ ascii "#/components/" ++ (kind ++ b'/' ∷ name) =
            strip_prefix_sound t _ rest p
            ∙ ap (λ r. ascii "#/components/" ++ r) (split_once_sound b'/' rest kind name q) in
          rw (is_dangling, p, q, y)
            (served root kind name (λ n. h kind name ((bag_iff kind).0 y) n whole))
    ]
  ]
]

pub is_dangling_iff : (root : Yaml) (t : Text) → (is_dangling root t ≡ false) ↔ IsNotDangling root t
is_dangling_iff root t = (undangled root t, passed root t)
