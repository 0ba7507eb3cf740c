-- ===== src/Loader/Semantics.antt =====
-- crates/chasm-engine/src/loader.rs: the checks of a document that has been read.
pub mod Distinct
pub mod Passing
use chasm.Prelude.{
  Bool, false, ◌&&◌, not, Option, some, none, is_some, or, List, [], ◌∷◌, ◌++◌, is_empty,
  if◌then◌else◌,
}
use chasm.Prelude.Result.{Result, ok, err, ◌>>=◌}
use chasm.Text.{Text, ascii, text_eq, strip_prefix, split_once, unescape, get, insert}
use chasm.OpenApi.{Spec, PathItem, Operation, ReferenceOr, item, reference}
use chasm.Faker.RefResolver.{any_text}
use chasm.Loader.Yaml.{
  Yaml, Items, Entries, string, sequence, mapping, nil, cons, end, entry, value_at,
}
use chasm.Loader.Schemas.{Visit, child, visit_schemas, validate_schema_type}

-- `SpecError`, with the text of an error of the system.
pub data SpecError : Type 0 where
  io : Text → Text → SpecError
  parse : Text → SpecError

abbrev pub own_ref : Option Yaml → List Text
own_ref (some (string target)) = target ∷ []
own_ref _ = []

-- The references of a document, in the order of the visits.
unfoldable mutual
  pub walk_for_refs : Yaml → List Text
  walk_for_refs (mapping map) = own_ref (value_at map (ascii "$ref")) ++ refs_of_entries map
  walk_for_refs (sequence seq) = refs_of_items seq
  walk_for_refs _ = []

  pub refs_of_entries : Entries → List Text
  refs_of_entries end = []
  refs_of_entries (entry k v map) = walk_for_refs v ++ refs_of_entries map

  pub refs_of_items : Items → List Text
  refs_of_items nil = []
  refs_of_items (cons v seq) = walk_for_refs v ++ refs_of_items seq

unfoldable pub resolve_component_entry : Yaml → Text → Text → Option Yaml
resolve_component_entry root bag name = elim (child (ascii "components") root) [
  | none ↦ none
  | some components ↦ elim (child bag components) [
    | none ↦ none
    | some entries ↦ child (unescape name) entries
  ]
]

abbrev pub is_bag : Text → Bool
is_bag bag = any_text (text_eq bag) (
    ascii "schemas"
    ∷ ascii "parameters"
    ∷ ascii "responses"
    ∷ ascii "requestBodies"
    ∷ ascii "headers"
    ∷ ascii "securitySchemes"
    ∷ ascii "callbacks"
    ∷ ascii "pathItems"
    ∷ [])

-- Whether a reference names a component that is not there.
unfoldable pub is_dangling : Yaml → Text → Bool
is_dangling root pointer = elim (strip_prefix pointer (ascii "#/components/")) [
  | none ↦ false
  | some rest ↦ elim (split_once b'/' rest) [
    | none ↦ false
    | some parts ↦
        is_bag parts.0
        && (not (is_empty parts.1) && not (is_some (resolve_component_entry root parts.0 parts.1)))
  ]
]

abbrev pub first_dangling : Yaml → List Text → Option Text
first_dangling root [] = none
first_dangling root (pointer ∷ pointers) =
    if is_dangling root pointer then some pointer else first_dangling root pointers

-- The error that was kept, if there is one.
abbrev pub refuse_kept : (Text → Text) → Option Text → Result SpecError (Unit {0})
refuse_kept message none = ok tt
refuse_kept message (some t) = err (parse (message t))

abbrev dangling_message : Text → Text
dangling_message pointer =
    ascii "dangling $ref '" ++ (pointer ++ ascii "': target does not exist in spec")

unfoldable pub check_dangling_refs : Yaml → Result SpecError (Unit {0})
check_dangling_refs root = refuse_kept dangling_message (first_dangling root (walk_for_refs root))

abbrev pub listed_operation : Text → Option Operation → List (Text × Operation)
listed_operation method none = []
listed_operation method (some op) = (method, op) ∷ []

unfoldable pub operations_in : PathItem → List (Text × Operation)
operations_in path_item =
    listed_operation (ascii "GET") path_item.get
    ++ (listed_operation (ascii "PUT") path_item.put
        ++ (listed_operation (ascii "POST") path_item.post
            ++ (listed_operation (ascii "DELETE") path_item.delete
                ++ (listed_operation (ascii "OPTIONS") path_item.options
                    ++ (listed_operation (ascii "HEAD") path_item.head
                        ++ (listed_operation (ascii "PATCH") path_item.patch
                            ++ listed_operation (ascii "TRACE") path_item.trace))))))

abbrev pub Seen : Type 0
Seen = List (Text × (Text × Text))

abbrev pub duplicate : Text → Text × Text → Text → Text → SpecError
duplicate id prev method path = parse (
    ascii "duplicate operationId '"
    ++ (id
        ++ (ascii "': defined on "
            ++ (prev.0
                ++ (ascii " " ++ (prev.1 ++ (ascii " and " ++ (method ++ (ascii " " ++ path)))))))))

unfoldable pub check_operations : Text → List (Text × Operation) → Seen → Result SpecError Seen
check_operations path [] seen = ok seen
check_operations path ((method, op) ∷ ops) seen = elim op.operation_id [
  | none ↦ check_operations path ops seen
  | some id ↦ elim (get seen id) [
    | some prev ↦ err (duplicate id prev method path)
    | none ↦ check_operations path ops (insert seen id (method, path))
  ]
]

unfoldable pub check_paths : List (Text × ReferenceOr PathItem) → Seen → Result SpecError Seen
check_paths [] seen = ok seen
check_paths ((path, reference r) ∷ paths) seen = check_paths paths seen
check_paths ((path, item path_item) ∷ paths) seen = do
  seen' ← check_operations path (operations_in path_item) seen
  check_paths paths seen'

unfoldable pub check_duplicate_operation_ids : Spec → Result SpecError (Unit {0})
check_duplicate_operation_ids spec = do seen ← check_paths spec.paths []; ok tt

abbrev pub first_invalid_schema : List Visit → Option Text
first_invalid_schema [] = none
first_invalid_schema ((pointer, schema) ∷ visits) =
    or (validate_schema_type pointer schema) (first_invalid_schema visits)

unfoldable pub check_invalid_schema_types : Yaml → Result SpecError (Unit {0})
check_invalid_schema_types root =
    refuse_kept (λ msg. msg) (first_invalid_schema (visit_schemas root))

unfoldable pub validate_spec_semantics : Spec → Yaml → Result SpecError (Unit {0})
validate_spec_semantics spec raw_yaml = do
  refs ← check_dangling_refs raw_yaml
  ids ← check_duplicate_operation_ids spec
  check_invalid_schema_types raw_yaml
