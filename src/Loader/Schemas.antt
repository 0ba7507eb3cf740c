-- ===== src/Loader/Schemas.antt =====
-- crates/chasm-engine/src/loader.rs: the schemas of a document and the check of their types.
use chasm.Prelude.{
  ℕ, suc, Bool, true, false, Option, some, none, is_some, List, [], ◌∷◌, ◌++◌, if◌then◌else◌,
}
use chasm.Prelude.Maybe.{◌>>=◌}
use chasm.Text.{Text, ascii, text_eq, decimal}
use chasm.Faker.RefResolver.{any_text}
use chasm.Loader.Yaml.{
  Yaml, Items, Entries, string, sequence, mapping, nil, cons, end, entry, value_at,
}
use chasm.Loader.Pointers.{key_as_str, build_pointer_from_path}

-- A call of the visitor: the pointer and the schema.
abbrev pub Visit : Type 0
Visit = Text × Yaml

abbrev pub is_mapping : Yaml → Bool
is_mapping (mapping map) = true
is_mapping _ = false

-- The calls of the visitor, in order; of two entries with a key the first counts.
unfoldable mutual
  unfolding value_at

  pub walk_schema : List Text → Yaml → List Visit
  walk_schema path (mapping map) =
      let below =
        walk_properties_at (ascii "properties") path map
        ++ (walk_mapping_at (ascii "additionalProperties") path map
            ++ (walk_mapping_at (ascii "items") path map
                ++ (walk_sequence_at (ascii "allOf") path map
                    ++ (walk_sequence_at (ascii "anyOf") path map
                        ++ (walk_sequence_at (ascii "oneOf") path map
                            ++ (walk_sequence_at (ascii "prefixItems") path map
                                ++ walk_any_at (ascii "not") path map)))))) in
      (build_pointer_from_path path, mapping map)
      ∷ (if is_some (value_at map (ascii "$ref")) then [] else below)
  walk_schema path schema = (build_pointer_from_path path, schema) ∷ []

  pub walk_properties_at : Text → List Text → Entries → List Visit
  walk_properties_at key path end = []
  walk_properties_at key path (entry (string j) v es) =
      let here = walk_named (path ++ key ∷ []) v in
      let later = walk_properties_at key path es in if text_eq j key then here else later
  walk_properties_at key path (entry j v es) = walk_properties_at key path es

  pub walk_mapping_at : Text → List Text → Entries → List Visit
  walk_mapping_at key path end = []
  walk_mapping_at key path (entry (string j) v es) =
      let here = walk_schema (path ++ key ∷ []) v in
      let later = walk_mapping_at key path es in
      if text_eq j key then (if is_mapping v then here else []) else later
  walk_mapping_at key path (entry j v es) = walk_mapping_at key path es

  pub walk_sequence_at : Text → List Text → Entries → List Visit
  walk_sequence_at key path end = []
  walk_sequence_at key path (entry (string j) v es) =
      let here = walk_numbered (path ++ key ∷ []) v in
      let later = walk_sequence_at key path es in if text_eq j key then here else later
  walk_sequence_at key path (entry j v es) = walk_sequence_at key path es

  pub walk_any_at : Text → List Text → Entries → List Visit
  walk_any_at key path end = []
  walk_any_at key path (entry (string j) v es) =
      let here = walk_schema (path ++ key ∷ []) v in
      let later = walk_any_at key path es in if text_eq j key then here else later
  walk_any_at key path (entry j v es) = walk_any_at key path es

  pub walk_named : List Text → Yaml → List Visit
  walk_named path (mapping props) = walk_each path props
  walk_named path _ = []

  pub walk_each : List Text → Entries → List Visit
  walk_each path end = []
  walk_each path (entry name sub rest) =
      walk_schema (path ++ key_as_str name ∷ []) sub ++ walk_each path rest

  pub walk_numbered : List Text → Yaml → List Visit
  walk_numbered path (sequence seq) = walk_items path 0 seq
  walk_numbered path _ = []

  pub walk_items : List Text → ℕ → Items → List Visit
  walk_items path idx nil = []
  walk_items path idx (cons sub seq) =
      walk_schema (path ++ decimal idx ∷ []) sub ++ walk_items path (suc idx) seq

-- The value of a key where the node is a mapping.
abbrev pub child : Text → Yaml → Option Yaml
child key (mapping map) = value_at map key
child key _ = none

abbrev pub entries_of : Option Yaml → Entries
entries_of (some (mapping map)) = map
entries_of _ = end

abbrev pub items_of_sequence : Option Yaml → Items
items_of_sequence (some (sequence seq)) = seq
items_of_sequence _ = nil

abbrev pub walk_at : List Text → Option Yaml → List Visit
walk_at path none = []
walk_at path (some schema) = walk_schema path schema

-- A loop over the entries of a mapping or the items of a sequence.
abbrev pub for_entries : (List Text → Yaml → List Visit) → List Text → Entries → List Visit
for_entries visit path end = []
for_entries visit path (entry name v es) =
    visit (path ++ key_as_str name ∷ []) v ++ for_entries visit path es

abbrev pub for_items : (List Text → Yaml → List Visit) → List Text → ℕ → Items → List Visit
for_items visit path idx nil = []
for_items visit path idx (cons v vs) =
    visit (path ++ decimal idx ∷ []) v ++ for_items visit path (suc idx) vs

abbrev pub visit_media : List Text → Yaml → List Visit
visit_media path media = walk_at (path ++ ascii "schema" ∷ []) (child (ascii "schema") media)

unfoldable pub visit_content_block : List Text → Yaml → List Visit
visit_content_block path node =
    for_entries visit_media (path ++ ascii "content" ∷ [])
      (entries_of (child (ascii "content") node))

unfoldable pub visit_param_or_header_schema : List Text → Yaml → List Visit
visit_param_or_header_schema path node =
    walk_at (path ++ ascii "schema" ∷ []) (child (ascii "schema") node)
    ++ visit_content_block path node

unfoldable pub visit_response : List Text → Yaml → List Visit
visit_response path node =
    visit_content_block path node
    ++ for_entries visit_param_or_header_schema (path ++ ascii "headers" ∷ [])
        (entries_of (child (ascii "headers") node))

abbrev pub visit_body : List Text → Option Yaml → List Visit
visit_body path none = []
visit_body path (some rb) = visit_content_block path rb

unfoldable pub visit_operation : List Text → Yaml → List Visit
visit_operation path op =
    for_items visit_param_or_header_schema (path ++ ascii "parameters" ∷ []) 0
      (items_of_sequence (child (ascii "parameters") op))
    ++ (visit_body (path ++ ascii "requestBody" ∷ []) (child (ascii "requestBody") op)
        ++ for_entries visit_response (path ++ ascii "responses" ∷ [])
            (entries_of (child (ascii "responses") op)))

abbrev pub visit_methods : List Text → List Text → Yaml → List Visit
visit_methods [] path item = []
visit_methods (method ∷ methods) path item =
    (elim (child method item) [ none ↦ [] | some op ↦ visit_operation (path ++ method ∷ []) op ])
    ++ visit_methods methods path item

unfoldable pub visit_path_item : List Text → Yaml → List Visit
visit_path_item = visit_methods (
    ascii "get"
    ∷ ascii "put"
    ∷ ascii "post"
    ∷ ascii "delete"
    ∷ ascii "options"
    ∷ ascii "head"
    ∷ ascii "patch"
    ∷ ascii "trace"
    ∷ [])

unfoldable pub visit_schemas : Yaml → List Visit
visit_schemas root =
    for_entries walk_schema (ascii "components" ∷ ascii "schemas" ∷ [])
      (entries_of (child (ascii "components") root >>= child (ascii "schemas")))
    ++ for_entries visit_path_item (ascii "paths" ∷ []) (entries_of (child (ascii "paths") root))

abbrev pub is_allowed_type : Text → Bool
is_allowed_type t = any_text (text_eq t) (
    ascii "null"
    ∷ ascii "boolean"
    ∷ ascii "integer"
    ∷ ascii "number"
    ∷ ascii "string"
    ∷ ascii "array"
    ∷ ascii "object"
    ∷ [])

abbrev pub invalid_type : Text → Text → Text
invalid_type pointer s =
    ascii "invalid schema type '"
    ++ (s
        ++ (ascii "' at "
            ++ (pointer
                ++ ascii
                    "/type: must be one of null, boolean, integer, number, string, array, object")))

-- The first name of a sequence that is no type.
abbrev pub first_invalid : Text → Items → Option Text
first_invalid pointer nil = none
first_invalid pointer (cons (string s) seq) =
    let rest = first_invalid pointer seq in
    if is_allowed_type s then rest else some (invalid_type pointer s)
first_invalid pointer (cons _ seq) = first_invalid pointer seq

unfoldable pub validate_schema_type : Text → Yaml → Option Text
validate_schema_type pointer schema = elim (child (ascii "type") schema) [
  | some (string s) ↦ if is_allowed_type s then none else some (invalid_type pointer s)
  | some (sequence seq) ↦ first_invalid pointer seq
  | _ ↦ none
]
