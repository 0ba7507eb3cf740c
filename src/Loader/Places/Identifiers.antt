-- ===== src/Loader/Places/Identifiers.antt =====
-- The operation identifiers of a document, path by path and method by method.
use chasm.Prelude.{◌≡◌, ap, Option, some, none, List, [], ◌∷◌, ◌++◌, refl}
use chasm.Text.{Text}
use chasm.OpenApi.{PathItem, Operation, ReferenceOr, item, reference}
use chasm.Loader.Semantics.{operations_in, listed_operation}
use chasm.Loader.Semantics.Distinct.{ids_of, ids_of_paths}

abbrev pub identifiers : List (Option Operation) → List Text
identifiers [] = []
identifiers (none ∷ os) = identifiers os
identifiers (some op ∷ os) = elim op.operation_id [
  | none ↦ identifiers os
  | some id ↦ id ∷ identifiers os
]

-- A path item that is a reference has none.
abbrev pub operation_identifiers : List (Text × ReferenceOr PathItem) → List Text
operation_identifiers [] = []
operation_identifiers ((path, reference r) ∷ paths) = operation_identifiers paths
operation_identifiers ((path, item path_item) ∷ paths) =
    identifiers (
      path_item.get ∷ path_item.put ∷ path_item.post ∷ path_item.delete ∷ path_item.options
      ∷ path_item.head ∷ path_item.patch ∷ path_item.trace ∷ [])
    ++ operation_identifiers paths

ids_of-listed :
    (method : Text) (o : Option Operation) (ops : List (Text × Operation))
    (os : List (Option Operation))
    → ids_of ops ≡ identifiers os
    → ids_of (listed_operation method o ++ ops) ≡ identifiers (o ∷ os)
ids_of-listed method none ops os h = h
ids_of-listed method (some op) ops os h =
    ap (λ ids. elim op.operation_id as (λ x. List Text) [ none ↦ ids | some id ↦ id ∷ ids ]) h

last_listed :
    (method : Text) (o : Option Operation)
    → ids_of (listed_operation method o) ≡ identifiers (o ∷ [])
last_listed method none = refl
last_listed method (some op) = refl

ids_of-operations_in :
    (path_item : PathItem)
    → ids_of (operations_in path_item)
      ≡ identifiers (
          path_item.get ∷ path_item.put ∷ path_item.post ∷ path_item.delete ∷ path_item.options
          ∷ path_item.head ∷ path_item.patch ∷ path_item.trace ∷ [])
unfolding operations_in
ids_of-operations_in i = ids_of-listed _ i.get _ _ (
    ids_of-listed _ i.put _ _ (
      ids_of-listed _ i.post _ _ (
        ids_of-listed _ i.delete _ _ (
          ids_of-listed _ i.options _ _
            (ids_of-listed _ i.head _ _ (ids_of-listed _ i.patch _ _ (last_listed _ i.trace)))))))

pub ids_of_paths-eq-operation_identifiers :
    (paths : List (Text × ReferenceOr PathItem)) → ids_of_paths paths ≡ operation_identifiers paths
ids_of_paths-eq-operation_identifiers [] = refl
ids_of_paths-eq-operation_identifiers ((path, reference r) ∷ paths) =
    ids_of_paths-eq-operation_identifiers paths
ids_of_paths-eq-operation_identifiers ((path, item path_item) ∷ paths) =
    rw (ids_of-operations_in path_item, ids_of_paths-eq-operation_identifiers paths) refl
