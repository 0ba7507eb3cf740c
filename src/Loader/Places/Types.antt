-- ===== src/Loader/Places/Types.antt =====
-- The check of a schema's `type` against the types that it names.
use chasm.Prelude.{
  ◌≡◌, ◌↔◌, ◌⊎◌, Bool, true, false, Option, some, none, Any, List, [], ◌∷◌, inl, inr, refl,
  if◌then◌else◌, arith,
}
use mathlib.Core.Path.{subst}
use chasm.Text.{Text, ascii, text_eq}
use chasm.Text.Laws.{text_eq_iff}
use chasm.Faker.RefResolver.{any_text}
use chasm.Loader.Yaml.{Yaml, Items, string, sequence, nil, cons}
use chasm.Loader.Schemas.{child, is_allowed_type, invalid_type, first_invalid, validate_schema_type}
use chasm.Loader.Places.{InItems, IsItemIn, known_types, IsKnownType, HasKnownTypes}

pub any_text_iff :
    (t : Text) (ks : List Text) → (any_text (text_eq t) ks ≡ true) ↔ Any (λ k. t ≡ k) ks
any_text_iff t [] = ((λ e. cc), (λ h. absurd h))
any_text_iff t (k ∷ ks) = ground (arith, text_eq_iff t k, any_text_iff t ks)

known_iff : (t : Text) → (is_allowed_type t ≡ true) ↔ IsKnownType t
known_iff t = any_text_iff t known_types

-- A test that passes and nothing after it.
test_iff :
    (b : Bool) (o : Option Text) (x : Text) (K N : Type 0)
    → (b ≡ true) ↔ K
    → (o ≡ none) ↔ N
    → ((if b then o else some x) ≡ none) ↔ (K × N)
test_iff true o x K N f g = ((λ e. (f.0 refl, g.0 e)), (λ h. g.1 h.1))
test_iff false o x K N f g = ((λ e. absurd (cc e)), (λ h. let q = f.1 h.0 in absurd (cc q)))

first_iff :
    (P : Text → Type 0) (s : Text) (vs : Items)
    → (P s × ((t : Text) → InItems (string t) vs → P t))
      ↔ ((t : Text) → InItems (string t) (cons (string s) vs) → P t)
first_iff P s vs = (to, (λ h. (h s (inl refl), λ t i. h t (inr i))))
  where
    to :
        P s × ((t : Text) → InItems (string t) vs → P t)
        → (t : Text) → InItems (string t) (cons (string s) vs)
        → P t
    to h t (inl e) = let same : s ≡ t = cc in subst P same h.0
    to h t (inr i) = h.1 t i

items_iff :
    (p : Text) (vs : Items)
    → (first_invalid p vs ≡ none) ↔ ((t : Text) → InItems (string t) vs → IsKnownType t)
items_iff p nil = ((λ e t i. absurd i), (λ h. refl))
items_iff p (cons (string s) vs) =
    let test =
      test_iff (is_allowed_type s) (first_invalid p vs) (invalid_type p s) (IsKnownType s)
        ((t : Text) → InItems (string t) vs → IsKnownType t) (known_iff s) (items_iff p vs) in
    let first = first_iff IsKnownType s vs in ((λ e. first.0 (test.0 e)), (λ h. test.1 (first.1 h)))
items_iff p (cons v vs) = (
  (λ e t i. elim i [ inl q ↦ absurd (cc q) | inr j ↦ (items_iff p vs).0 e t j ]),
  (λ h. (items_iff p vs).1 (λ t i. h t (inr i))),
)

-- What a node under `type` names.
abbrev Named : Option Yaml → Text → Type 0
Named o t = (o ≡ some (string t)) ⊎ ((vs : Yaml) × (o ≡ some vs) × IsItemIn (string t) vs)

Named-nothing :
    (v : Yaml) (t : Text) → ¬ (v ≡ string t) → ¬ IsItemIn (string t) v → ¬ Named (some v) t
Named-nothing v t n m (inl e) = n cc
Named-nothing v t n m (inr (vs, e, i)) =
    let same : vs ≡ v = cc in m (subst (IsItemIn (string t)) same i)

Named-iff :
    (p : Text) (o : Option Yaml)
    → (elim o [
      | some (string t) ↦ if is_allowed_type t then none else some (invalid_type p t)
      | some (sequence seq) ↦ first_invalid p seq
      | _ ↦ none
    ]
        ≡ none)
      ↔ ((t : Text) → Named o t → IsKnownType t)
Named-iff p none =
    ((λ e t h. elim h [ inl q ↦ absurd (cc q) | inr q ↦ absurd (cc q.1) ]), (λ h. refl))
Named-iff p (some (string s)) =
    let test =
      test_iff (is_allowed_type s) none (invalid_type p s) (IsKnownType s) (Unit {0}) (known_iff s)
        ((λ e. tt), (λ h. refl)) in
    ((λ e. to (test.0 e).0), (λ h. test.1 (h s (inl refl), tt)))
  where
    to : IsKnownType s → (t : Text) → Named (some (string s)) t → IsKnownType t
    to k t (inl e) = let same : s ≡ t = cc in subst IsKnownType same k
    to k t (inr (vs, e, i)) =
        let same : vs ≡ string s = cc in absurd (subst (IsItemIn (string t)) same i)
Named-iff p (some (sequence vs)) =
    (to, (λ h. (items_iff p vs).1 (λ t i. h t (inr (sequence vs, refl, i)))))
  where
    to : first_invalid p vs ≡ none → (t : Text) → Named (some (sequence vs)) t → IsKnownType t
    to e t (inl q) = absurd (cc q)
    to e t (inr (ws, q, i)) =
        let same : ws ≡ sequence vs = cc in
        (items_iff p vs).0 e t (subst (IsItemIn (string t)) same i)
Named-iff p (some v) = ((λ e t h. absurd (Named-nothing v t (λ q. cc) (λ i. i) h)), (λ h. refl))

pub validate_schema_type_iff :
    (p : Text) (s : Yaml) → (validate_schema_type p s ≡ none) ↔ HasKnownTypes s
unfolding validate_schema_type
validate_schema_type_iff p s = Named-iff p (child (ascii "type") s)
