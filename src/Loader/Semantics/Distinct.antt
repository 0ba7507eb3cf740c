-- ===== src/Loader/Semantics/Distinct.antt =====
-- crates/chasm-engine/src/loader.rs: the identifiers that the check of operations has seen.
use chasm.Prelude.{
  if◌then◌else◌, ◌≡◌, false, some, none, List, [], ◌∷◌, ◌++◌, All, Option-cases, inl, inr, refl,
  arith, sym, ◌∙◌,
}
use mathlib.Core.Path.{subst}
use chasm.Prelude.Result.{ok, >>=-eq-ok}
use chasm.Text.{Text, text_eq, get, insert}
use chasm.Text.Dict.Laws.{get-insert}
use chasm.OpenApi.{PathItem, Operation, ReferenceOr, item, reference}
use chasm.Faker.RefResolver.{any_text}
use chasm.Loader.Semantics.{Seen, operations_in, check_operations, check_paths}

-- The identifiers of operations and of paths, in the order of the document.
abbrev pub ids_of : List (Text × Operation) → List Text
ids_of [] = []
ids_of ((method, op) ∷ ops) = elim op.operation_id [ none ↦ ids_of ops | some id ↦ id ∷ ids_of ops ]

abbrev pub ids_of_paths : List (Text × ReferenceOr PathItem) → List Text
ids_of_paths [] = []
ids_of_paths ((path, reference r) ∷ paths) = ids_of_paths paths
ids_of_paths ((path, item path_item) ∷ paths) =
    ids_of (operations_in path_item) ++ ids_of_paths paths

abbrev pub AreDistinct : List Text → Type 0
AreDistinct [] = Unit
AreDistinct (id ∷ ids) = (any_text (text_eq id) ids ≡ false) × AreDistinct ids

-- Distinct, and none of them seen before.
abbrev pub AreNew : Seen → List Text → Type 0
AreNew seen ids = All (λ id. get seen id ≡ none) ids × AreDistinct ids

unseen-insert :
    (seen : Seen) (id j : Text) (v : Text × Text)
    → get (insert seen id v) j ≡ none
    → (text_eq id j ≡ false) × (get seen j ≡ none)
unseen-insert seen id j v h =
    let e : (if text_eq id j then some v else get seen j) ≡ none =
      sym (get-insert seen id j v) ∙ h in
    ground arith

All-insert :
    (seen : Seen) (id : Text) (v : Text × Text) (ids : List Text)
    → All (λ j. get (insert seen id v) j ≡ none) ids
    → All (λ j. get seen j ≡ none) ids × (any_text (text_eq id) ids ≡ false)
All-insert seen id v [] h = (tt, refl)
All-insert seen id v (j ∷ ids) (h, hs) =
    let (other, unseen) = unseen-insert seen id j v h in
    let (before, absent) = All-insert seen id v ids hs in ((unseen, before), ground arith)

AreNew-insert :
    (seen : Seen) (id : Text) (v : Text × Text) (ids : List Text)
    → get seen id ≡ none
    → AreNew (insert seen id v) ids
    → AreNew seen (id ∷ ids)
AreNew-insert seen id v ids e (h, d) =
    let (before, absent) = All-insert seen id v ids h in ((e, before), (absent, d))

AreNew-check_operations :
    (path : Text) (ops : List (Text × Operation)) (seen seen' : Seen) (rest : List Text)
    → check_operations path ops seen ≡ ok seen'
    → AreNew seen' rest
    → AreNew seen (ids_of ops ++ rest)
unfolding check_operations
AreNew-check_operations path [] seen seen' rest e h =
    let same : seen ≡ seen' = cc in subst (λ s. AreNew s rest) (sym same) h
AreNew-check_operations path ((method, op) ∷ ops) seen seen' rest e h =
    elim (Option-cases op.operation_id) [
      | inl f ↦ rw f (AreNew-check_operations path ops seen seen' rest (rw f at e) h)
      | inr (id, f) ↦ elim (Option-cases (get seen id)) [
        | inr (prev, g) ↦ absurd (cc (rw (f, g) at e))
        | inl g ↦ rw f (
            AreNew-insert seen id (method, path) _ g
              (AreNew-check_operations path ops (insert seen id (method, path)) seen' rest
                (rw (f, g) at e) h))
      ]
    ]

pub AreNew-check_paths :
    (paths : List (Text × ReferenceOr PathItem)) (seen seen' : Seen)
    → check_paths paths seen ≡ ok seen'
    → AreNew seen (ids_of_paths paths)
unfolding check_paths
AreNew-check_paths [] seen seen' e = (tt, tt)
AreNew-check_paths ((path, reference r) ∷ paths) seen seen' e =
    AreNew-check_paths paths seen seen' e
AreNew-check_paths ((path, item path_item) ∷ paths) seen seen' e =
    let (later, p, q) = >>=-eq-ok (check_operations path (operations_in path_item) seen) _ e in
    AreNew-check_operations path (operations_in path_item) seen later (ids_of_paths paths) p
      (AreNew-check_paths paths later seen' q)
