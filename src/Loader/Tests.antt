-- ===== src/Loader/Tests.antt =====
-- Runs of the loader.
use chasm.Prelude.{◌≡◌, some, none, [], ◌∷◌, refl, true}
use chasm.Prelude.Result.{ok}
use chasm.Text.{
  Text, strip_prefix, split_once, unescape, replace_pair, get, insert, ascii, trim_start,
  starts_with, text_eq,
}
use chasm.OpenApi.{Spec, Operation, item}
use chasm.Loader.Yaml.{Yaml, Entries, value_at, string, mapping, end, entry}
use chasm.Loader.Pointers.{key_as_str, build_pointer_from_path, resolve_json_pointer}
use chasm.Loader.Pointers.Roundtrip.{at_path, resolve-build_pointer}
use chasm.Loader.Semantics.{
  validate_spec_semantics, check_dangling_refs, walk_for_refs, is_dangling, resolve_component_entry,
  check_duplicate_operation_ids, check_paths, check_operations, operations_in,
  check_invalid_schema_types,
}
use chasm.Loader.Schemas.{visit_schemas, walk_schema, visit_path_item, validate_schema_type}
use chasm.Loader.Normalize.{
  Loading, normalize_tree, top_down, rewrite_nullable, inject_header_schema_fallback_yaml,
  coerce_float_bounds, rewrite_exclusive_bounds, rewrite_exclusive_bound_pair, drop_invalid_items,
  inline_callback_refs_yaml, inline_path_item_refs_yaml,
}
use chasm.Loader.Load.{
  load_spec, accept_content, read_content, is_inline, reject_unsupported_openapi_version,
  reject_swagger_two, normalize_oas31_nullable, finish_load,
}
use chasm.Loader.Load.Exact.{IsLoadable, load_spec_iff}

abbrev pet_type : Entries
pet_type = entry (string (ascii "type")) (string (ascii "string")) end

-- A schema whose name has both characters that a pointer escapes.
abbrev document : Yaml
document = mapping (
    entry (string (ascii "components"))
      (mapping (
        entry (string (ascii "schemas"))
          (mapping (entry (string (ascii "a/b~c")) (mapping pet_type) end)) end))
      (entry (string (ascii "$ref")) (string (ascii "#/components/schemas/a~1b~0c")) end))

resolve-build_pointer_example :
    resolve_json_pointer document
      (build_pointer_from_path (ascii "components" ∷ ascii "schemas" ∷ ascii "a/b~c" ∷ []))
    ≡ at_path document (ascii "components" ∷ ascii "schemas" ∷ ascii "a/b~c" ∷ [])
resolve-build_pointer_example =
    resolve-build_pointer document (ascii "components") (ascii "schemas" ∷ ascii "a/b~c" ∷ [])
      (λ e. absurd (cc e))

abbrev read_pet : Operation
read_pet = record {
  operation_id = some (ascii "read");
  servers = [];
  security = none;
  parameters = [];
  request_body = none;
  responses = record { default = none; responses = [] };
  extensions = [];
}

abbrev two_operations : Spec
two_operations = record {
  servers = [];
  paths =
      (
        ascii "/pet",
        item (record {
          get = some read_pet;
          put = some (record read_pet { operation_id = some (ascii "write") });
          post = none;
          delete = none;
          options = none;
          head = none;
          patch = none;
          trace = none;
          servers = [];
          parameters = [];
        }),
      )
      ∷ [];
  components = none;
  security = none;
  extensions = [];
}

-- Every text is the document.
abbrev loading : Loading Spec
loading = record {
  parse_yaml = (λ t. some document);
  yaml_error = (λ t. []);
  render_json = (λ y. some []);
  json_error = (λ y. []);
  parse_spec = (λ t. some two_operations);
  spec_error = (λ t. []);
  file_size = (λ t. none);
  read_file = (λ t. none);
  file_error = (λ t. []);
  is_version = (λ t. true);
  replace_bounds = (λ f t. t);
  without = (λ es k. es);
  saturate = (λ t. none);
}

abbrev source_text : Text
source_text = ascii "openapi: 3.0.0"

accepts : accept_content loading source_text ≡ ok source_text
unfolding read_content is_inline trim_start starts_with reject_unsupported_openapi_version
    reject_swagger_two value_at text_eq
accepts = refl

normalises : normalize_oas31_nullable loading 10 source_text ≡ some (ok [])
unfolding normalize_oas31_nullable normalize_tree top_down rewrite_nullable value_at text_eq
    inject_header_schema_fallback_yaml coerce_float_bounds rewrite_exclusive_bounds
    rewrite_exclusive_bound_pair drop_invalid_items inline_callback_refs_yaml
    inline_path_item_refs_yaml
normalises = refl

sound : validate_spec_semantics two_operations document ≡ ok tt
unfolding validate_spec_semantics check_dangling_refs walk_for_refs value_at text_eq is_dangling
    strip_prefix split_once resolve_component_entry unescape replace_pair
    check_duplicate_operation_ids check_paths check_operations operations_in get insert
    check_invalid_schema_types visit_schemas walk_schema visit_path_item validate_schema_type
    build_pointer_from_path key_as_str
sound = refl

finishes : finish_load loading [] ≡ ok two_operations
unfolding finish_load
finishes = rw sound refl

loads : load_spec loading 10 source_text ≡ some (ok two_operations)
unfolding load_spec
loads = rw (load_spec, accepts, normalises, finishes) refl

load_spec_iff_example : IsLoadable loading 10 source_text two_operations
load_spec_iff_example = (load_spec_iff loading 10 source_text two_operations).0 loads
