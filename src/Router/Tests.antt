-- ===== src/Router/Tests.antt =====
-- Runs of the router, and the theorems at concrete inputs.
use chasm.Router.Outcome.{route_request_with_strict-Routes, Routes}
use chasm.Router.Servers.{
  rebase, push_unique, extract_path_from_url, expand_server_variables, expand_from, candidates_from,
  candidate_paths_for_servers_list,
}
use chasm.Router.{
  try_paths, try_candidates, synthesised_options, serving_operation, route_request_with_strict,
  operation, note_mismatch, note_match, not_found, method_not_allowed, is_better, conclude,
  candidate_paths_for_operation,
}
use chasm.Router.Template.{
  template_parts_from, split_template_parts, normalise_trailing_slash, match_template,
  match_segments, match_segment, match_parts, match_mixed_segment, decoded, decode_segment,
  count_literal_segments, count_literal_from, count_byte, byte_as_char, brace_name,
}
use chasm.Router.Methods.{
  text_le, sort_texts, slot, insert_sorted, get_operation, dedup, declared_methods, allow_methods,
  allow_header_for_path_item_with_strict, allow_header_for_path_item,
}
use chasm.Text.{
  trim_end_matches, to_ascii_uppercase, text_eq, strip_prefix, starts_with, split_once, split, join,
  insert, get, find, ends_with, contains, ascii, Text,
}
use chasm.Prelude.{◌≡◌, ◌∷◌, true, some, refl, none, false, [], Option}
use chasm.OpenApi.{item, Spec, Server, PathItem, Operation}

-- Opens what the runs compute with.
runs : Unit {0}
unfolding route_request_with_strict conclude try_paths try_candidates note_match is_better
    note_mismatch serving_operation candidate_paths_for_operation candidate_paths_for_servers_list
    candidates_from push_unique rebase extract_path_from_url expand_server_variables expand_from
    brace_name byte_as_char slot get_operation text_le insert_sorted sort_texts dedup
    declared_methods allow_methods allow_header_for_path_item_with_strict allow_header_for_path_item
    decode_segment normalise_trailing_slash template_parts_from split_template_parts match_parts
    match_mixed_segment match_segment count_byte decoded match_segments match_template
    count_literal_from count_literal_segments text_eq to_ascii_uppercase starts_with ends_with
    strip_prefix contains find split split_once trim_end_matches join get insert
runs = tt

abbrev plain : Text → Option Text
plain s = some s

abbrev op : Operation
op = record {
  servers = [];
  security = none;
  parameters = [];
  operation_id = none;
  request_body = none;
  responses = record { default = none; responses = [] };
  extensions = [];
}

abbrev get_only : PathItem
get_only = record {
  get = some op;
  put = none;
  post = none;
  delete = none;
  options = none;
  head = none;
  patch = none;
  trace = none;
  servers = [];
  parameters = [];
}

abbrev base : Server
base = record {
  url = ascii "https://{host}/v1/";
  variables = some ((ascii "host", record { default = ascii "x.org" }) ∷ []);
}

abbrev spec : Spec
spec = record {
  servers = base ∷ [];
  paths =
      (ascii "/pets/{id}", item get_only)
      ∷ (ascii "/pets/mine", item (record get_only { post = some op }))
      ∷ (ascii "/files/{name}.json", item get_only)
      ∷ [];
  components = none;
  security = none;
  extensions = [];
}

literal_wins :
    route_request_with_strict plain spec (ascii "get") (ascii "/v1/pets/mine/") false
    ≡ operation (record { operation = op; path_params = []; path_template = ascii "/pets/mine" })
unfolding runs
literal_wins = refl

param_run :
    route_request_with_strict plain spec (ascii "HEAD") (ascii "/v1/pets/7") false
    ≡ operation (record {
      operation = op;
      path_params = (ascii "id", ascii "7") ∷ [];
      path_template = ascii "/pets/{id}";
    })
unfolding runs
param_run = refl

mixed_run :
    route_request_with_strict plain spec (ascii "GET") (ascii "/files/a.json") true
    ≡ operation (record {
      operation = op;
      path_params = (ascii "name", ascii "a") ∷ [];
      path_template = ascii "/files/{name}.json";
    })
unfolding runs
mixed_run = refl

other_results :
    (route_request_with_strict plain spec (ascii "OPTIONS") (ascii "/pets/7") false
      ≡ synthesised_options (ascii "GET, HEAD"))
    × (route_request_with_strict plain spec (ascii "HEAD") (ascii "/pets/7") true
        ≡ method_not_allowed (ascii "GET"))
    × (route_request_with_strict plain spec (ascii "GET") (ascii "/nothing") true ≡ not_found)
unfolding runs
other_results = (refl, refl, refl)

route_request_with_strict-Routes_example :
    Routes plain spec
      (to_ascii_uppercase (ascii "get"))
      false
      (ascii "/v1/pets/mine/")
      spec.paths
      (route_request_with_strict plain spec (ascii "get") (ascii "/v1/pets/mine/") false)
route_request_with_strict-Routes_example =
    route_request_with_strict-Routes plain spec (ascii "get") (ascii "/v1/pets/mine/") false
