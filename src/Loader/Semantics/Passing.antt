-- ===== src/Loader/Semantics/Passing.antt =====
-- crates/chasm-engine/src/loader.rs: the check of operations on distinct identifiers.
use chasm.Prelude.{
  ◌≡◌, false, none, List, [], ◌∷◌, ◌++◌, All, Option-cases, inl, inr, refl, arith, ◌∙◌,
}
use chasm.Prelude.Result.{ok}
use chasm.Text.{Text, text_eq, get, insert}
use chasm.Text.Dict.Laws.{get-insert}
use chasm.OpenApi.{PathItem, Operation, ReferenceOr, item, reference}
use chasm.Faker.RefResolver.{any_text}
use chasm.Loader.Semantics.{Seen, operations_in, check_operations, check_paths}
use chasm.Loader.Semantics.Distinct.{ids_of, ids_of_paths, AreDistinct, AreNew}

All-unseen :
    (seen : Seen) (id : Text) (v : Text × Text) (ids : List Text)
    → any_text (text_eq id) ids ≡ false
    → All (λ j. get seen j ≡ none) ids
    → All (λ j. get (insert seen id v) j ≡ none) ids
All-unseen seen id v [] e h = tt
All-unseen seen id v (j ∷ ids) e (h, hs) =
    let other : text_eq id j ≡ false = ground arith in
    let later : any_text (text_eq id) ids ≡ false = ground arith in
    (get-insert seen id j v ∙ rw other h, All-unseen seen id v ids later hs)

-- What follows some operations is new after them.
ok-check_operations :
    (path : Text) (ops : List (Text × Operation)) (seen : Seen) (rest : List Text)
    → AreNew seen (ids_of ops ++ rest)
    → (seen' : Seen) × (check_operations path ops seen ≡ ok seen') × AreNew seen' rest
unfolding check_operations
ok-check_operations path [] seen rest h = (seen, refl, h)
ok-check_operations path ((method, op) ∷ ops) seen rest h = elim (Option-cases op.operation_id) [
  | inl f ↦ rw f (ok-check_operations path ops seen rest (rw f at h))
  | inr (id, f) ↦
      let (unseen, distinct) : AreNew seen (id ∷ (ids_of ops ++ rest)) = rw f at h in
      rw (f, unseen.0)
        (ok-check_operations path ops (insert seen id (method, path)) rest
          (All-unseen seen id (method, path) (ids_of ops ++ rest) distinct.0 unseen.1, distinct.1))
]

pub ok-check_paths :
    (paths : List (Text × ReferenceOr PathItem)) (seen : Seen)
    → AreNew seen (ids_of_paths paths)
    → (seen' : Seen) × (check_paths paths seen ≡ ok seen')
unfolding check_paths
ok-check_paths [] seen h = (seen, refl)
ok-check_paths ((path, reference r) ∷ paths) seen h = ok-check_paths paths seen h
ok-check_paths ((path, item path_item) ∷ paths) seen h =
    let (later, p, k) =
      ok-check_operations path (operations_in path_item) seen (ids_of_paths paths) h in
    rw p (ok-check_paths paths later k)

All-unseen_at_start : (ids : List Text) → All (λ id. get {V = Text × Text} [] id ≡ none) ids
unfolding get
All-unseen_at_start [] = tt
All-unseen_at_start (id ∷ ids) = (refl, All-unseen_at_start ids)

-- Of a list of distinct identifiers, none has been seen at the start.
pub AreNew-start : (ids : List Text) → AreDistinct ids → AreNew [] ids
AreNew-start ids d = (All-unseen_at_start ids, d)
