-- ===== src/Validation/Whole/Parameters.antt =====
-- Which of the parameters that share a name and a place counts.
use mathlib.Core.Path.{ap₂}
use mathlib.Core.Bool.{and-eq-true_iff}
use chasm.Validation.Whole.{effective_parameters, item_parameters}
use chasm.Prelude.{
  ◌∙◌, ℕ, Bool, true, ◌≤◌, ◌≡◌, ◌+◌, ◌++◌, Option, none, or, List, [], ◌∷◌, find_first, arith, inl,
  inr, Bool-cases, refl, if◌then◌else◌, ap,
}
use mathlib.Core.List.{reverse-cons, reverse, reverse-reverse, reverse-append}
use chasm.Text.{Text, text_eq}
use chasm.Text.Laws.{text_eq_iff}
use chasm.OpenApi.{Operation, Spec, Parameter}
use chasm.Validation.Parameters.{
  resolve_all, parameter_dedupe_key, key_eq, seen, keep_first_seen, dedupe_parameters,
}

-- Whether a parameter has a key.
abbrev pub has_key : Text × Text → Parameter → Bool
has_key k p = key_eq (parameter_dedupe_key p) k

-- The last of the parameters with a key.
abbrev pub last_with : Text × Text → List Parameter → Option Parameter
last_with k ps = find_first (has_key k) (reverse ps)

abbrev pub count_with : Text × Text → List Parameter → ℕ
count_with k [] = 0
count_with k (p ∷ ps) = (if has_key k p then 1 else 0) + count_with k ps

key_eq_sound : (a b : Text × Text) → key_eq a b ≡ true → a ≡ b
key_eq_sound (a, a') (b, b') h =
    let p = (and-eq-true_iff (text_eq a b) (text_eq a' b')).0 h in
    ap₂ (λ x y. (x, y)) ((text_eq_iff a b).0 p.0) ((text_eq_iff a' b').0 p.1)

seen-key :
    (q k : Text × Text) (keys : List (Text × Text)) → key_eq q k ≡ true → seen q keys ≡ seen k keys
seen-key q k keys h = ap (λ x. seen x keys) (key_eq_sound q k h)

find_first-keep_first_seen :
    (keys : List (Text × Text)) (ps : List Parameter) (k : Text × Text)
    → find_first (has_key k) (keep_first_seen keys ps)
      ≡ (if seen k keys then none else find_first (has_key k) ps)
unfolding keep_first_seen
find_first-keep_first_seen keys [] k = ground arith
find_first-keep_first_seen keys (p ∷ ps) k =
    let q = parameter_dedupe_key p in
    elim (Bool-cases (seen q keys)) [
      | inl y ↦ elim (Bool-cases (key_eq q k)) [
        | inl same ↦ rw (y, find_first-keep_first_seen keys ps k, ← seen-key q k keys same, y) refl
        | inr other ↦ rw (y, find_first-keep_first_seen keys ps k, other) refl
      ]
      | inr n ↦ elim (Bool-cases (key_eq q k)) [
        | inl same ↦ rw (n, same, ← seen-key q k keys same, n) refl
        | inr other ↦ rw (n, other, find_first-keep_first_seen (q ∷ keys) ps k, other) refl
      ]
    ]

count_with-keep_first_seen :
    (keys : List (Text × Text)) (ps : List Parameter) (k : Text × Text)
    → count_with k (keep_first_seen keys ps) ≤ (if seen k keys then 0 else 1)
unfolding keep_first_seen
count_with-keep_first_seen keys [] k = ground arith
count_with-keep_first_seen keys (p ∷ ps) k =
    let q = parameter_dedupe_key p in
    elim (Bool-cases (seen q keys)) [
      | inl y ↦ rw y (count_with-keep_first_seen keys ps k)
      | inr n ↦
          let ih = count_with-keep_first_seen (q ∷ keys) ps k in
          elim (Bool-cases (key_eq q k)) [
            | inl same ↦
                let none_left : count_with k (keep_first_seen (q ∷ keys) ps) ≤ 0 = rw same at ih in
                rw (n, same, ← seen-key q k keys same, n) (omega arith)
            | inr other ↦
                let left : count_with k (keep_first_seen (q ∷ keys) ps)
                    ≤ (if seen k keys then 0 else 1) =
                  rw other at ih in
                rw (n, other) (ground arith)
          ]
    ]

count_with-append :
    (k : Text × Text) (ps qs : List Parameter)
    → count_with k (ps ++ qs) ≡ count_with k ps + count_with k qs
count_with-append k [] qs = omega arith
count_with-append k (p ∷ ps) qs = omega (arith, count_with-append k ps qs)

count_with-reverse :
    (k : Text × Text) (ps : List Parameter) → count_with k (reverse ps) ≡ count_with k ps
count_with-reverse k [] = refl
count_with-reverse k (p ∷ ps) =
    rw (reverse-cons p ps, count_with-append k (reverse ps) (p ∷ []), count_with-reverse k ps)
      (omega arith)

-- At every key the last parameter counts, and one is left.
pub last_with-dedupe_parameters :
    (ps : List Parameter) (k : Text × Text)
    → (last_with k (dedupe_parameters ps) ≡ last_with k ps)
      × count_with k (dedupe_parameters ps) ≤ 1
unfolding dedupe_parameters
last_with-dedupe_parameters ps k = (
  rw (reverse-reverse (keep_first_seen [] (reverse ps)))
      (find_first-keep_first_seen [] (reverse ps) k),
  rw (count_with-reverse k (keep_first_seen [] (reverse ps)))
      (count_with-keep_first_seen [] (reverse ps) k),
)

find_first-append :
    (p : Parameter → Bool) (xs ys : List Parameter)
    → find_first p (xs ++ ys) ≡ or (find_first p xs) (find_first p ys)
find_first-append p [] ys = refl
find_first-append p (x ∷ xs) ys = ground (arith, find_first-append p xs ys)

-- Among the parameters that a request is validated against there is at most one of each name and
-- place: the operation's last one, or else the last one of the path item.
pub last_with-effective_parameters :
    (spec : Spec) (template : Option Text) (op : Operation) (k : Text × Text)
    → (last_with k (effective_parameters spec template op)
        ≡ or
            (last_with k (resolve_all spec op.parameters))
            (last_with k (resolve_all spec (item_parameters spec template))))
      × count_with k (effective_parameters spec template op) ≤ 1
unfolding effective_parameters
last_with-effective_parameters spec template op k =
    let items = resolve_all spec (item_parameters spec template) in
    let own = resolve_all spec op.parameters in
    let both = last_with-dedupe_parameters (items ++ own) k in
    (
      both.0
          ∙ (rw (reverse-append items own)
              (find_first-append (has_key k) (reverse own) (reverse items))),
      both.1,
    )
