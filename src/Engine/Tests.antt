-- ===== src/Engine/Tests.antt =====
-- The theorems of the engine at concrete inputs.
use chasm.Engine.Body.Missing.{build_body-example_not_found_iff}
use chasm.Engine.Body.{example_key_exists, example_not_found, build_body}
use chasm.Engine.Negotiation.Laws.{negotiate_content_type_lem, Refused, Chosen}
use chasm.Engine.Negotiation.Best.{IsOrder}
use chasm.Security.{evaluate}
use chasm.Engine.Headers.{
  resolve_header_ref, pick_header_value, collect, collect_response_headers, is_filtered_header,
}
use chasm.Router.Template.{
  count_literal_segments, count_literal_from, match_template, match_segments, decoded, count_byte,
  match_segment, normalise_trailing_slash, decode_segment,
}
use chasm.Router.Methods.{get_operation, slot}
use chasm.Router.Servers.{candidates_from, candidate_paths_for_servers_list}
use chasm.Engine.Status.Laws.{resolve_status_and_response-error_iff, Resolves}
use chasm.Engine.Status.Answers.{Outcome}
use chasm.Engine.Status.Forced.{resolve_status_and_response-Outcome}
use chasm.Engine.Mock.Served.{mock-Served, Served, Preflighted}
use chasm.Engine.Mock.Directives.{respond-merge_directives}
use chasm.Prelude.Run.{done}
use chasm.Text.{
  is_char_boundary, eq_ignore_ascii_case, get, trim, strip_prefix, starts_with, ends_with, contains,
  split, split_once, before, join, insert, find, trim_end_matches, to_ascii_lowercase,
  to_ascii_uppercase, text_eq, Text, parse_uint, ascii,
}
use chasm.Prelude.Result.{err, ok}
use chasm.Engine.Status.Lowest.{lowest_2xx_response-LowestSuccess, LowestSuccess}
use chasm.Request.{find_header, MockRequest}
use chasm.Engine.Status.{
  first_resolved, scan_2xx, is_lower, lowest_2xx_response, response_at, resolve_response_ref,
  default_response, find_response_for_code, resolve_status_and_response,
}
use chasm.Engine.Status.{no_responses}
use chasm.Engine.Negotiation.{
  not_acceptable, selected, valid_keys, is_plausible_media_key, strip_media_params,
  strip_any_subtype, select_for_range, parse_params, parse_accept_entry, parse_ranges, insert_range,
  sort_ranges, try_ranges, negotiate_content_type, Quality,
}
use chasm.OpenApi.{MediaType, range, item, null, code, PathItem, Operation, Spec, Response}
use chasm.Prefer.{
  merge_query_over_header, strip_token_parameters, strip_prefix_ignore_ascii_case, set_code, branch,
  apply_part, apply_parts, from_prefer_header, from_query, from_request, PreferDirectives,
}
use chasm.Engine.Mock.{
  read_echo_flag, read_content_encoding, read_delay_ms, serve, check_request, check_credentials,
  answer, render, path_item_of, has_any_validation_target, validation_errors, respond, MockResponse,
  mock,
}
use chasm.Engine.Config.{merge_directives, default, MockConfig}
use chasm.Engine.Faker.{Services}
use chasm.Router.{
  candidate_paths_for_operation, serving_operation, note_mismatch, MatchedOperation, is_better,
  note_match, try_candidates, try_paths, conclude, route_request_with_strict,
}
use chasm.Prelude.{arith, List, ◌↔◌, ltb, ℕ, true, false, some, none, [], ◌∷◌, ◌≡◌, refl, ◌⊎◌}

runs : Unit {0}
unfolding route_request_with_strict conclude try_paths try_candidates note_match is_better
    note_mismatch serving_operation candidate_paths_for_operation candidate_paths_for_servers_list
    candidates_from slot get_operation decode_segment normalise_trailing_slash match_segment
    count_byte decoded match_segments match_template count_literal_from count_literal_segments
    text_eq to_ascii_uppercase to_ascii_lowercase starts_with ends_with strip_prefix contains find
    split split_once before trim trim_end_matches join get insert eq_ignore_ascii_case
    is_char_boundary parse_uint from_request from_query from_prefer_header apply_parts apply_part
    branch set_code strip_prefix_ignore_ascii_case strip_token_parameters merge_query_over_header
    find_header is_filtered_header resolve_response_ref find_response_for_code response_at
    lowest_2xx_response is_lower scan_2xx first_resolved resolve_status_and_response
    merge_directives validation_errors has_any_validation_target path_item_of render answer
    check_credentials check_request serve respond mock evaluate read_delay_ms read_content_encoding
    read_echo_flag collect_response_headers collect pick_header_value resolve_header_ref
runs = tt

negotiation_runs : Unit {0}
unfolding runs negotiate_content_type valid_keys is_plausible_media_key strip_media_params
    strip_any_subtype select_for_range parse_params parse_accept_entry parse_ranges insert_range
    sort_ranges try_ranges
negotiation_runs = tt

abbrev numbers : Quality
numbers = record {
  F64 = ℕ;
  parse = parse_uint 1000;
  one = 1000;
  is_positive = λ q. ltb 0 q;
  gt = λ p q. ltb q p;
}

abbrev services : Services
services = record {
  decode = some;
  to_string = λ v. [];
  generate = λ v o. ok v;
  generate_static = λ v o. ok v;
  validate = λ s t op ps r. [];
  schemas = λ s. ok null;
  quality = numbers;
}

abbrev empty : Response
empty = record { headers = []; content = []; extensions = [] }

abbrev op : Operation
op = record {
  servers = [];
  security = none;
  parameters = [];
  operation_id = none;
  request_body = none;
  responses = record {
    default = none;
    responses =
        (code 404, item empty)
        ∷ (code 204, item empty)
        ∷ (code 201, item empty)
        ∷ (range 2, item empty)
        ∷ [];
  };
  extensions = [];
}

abbrev get_only : PathItem
get_only = record {
  get = some op;
  put = none;
  post = none;
  delete = none;
  options = none;
  head = none;
  patch = none;
  trace = none;
  servers = [];
  parameters = [];
}

abbrev spec : Spec
spec = record {
  servers = [];
  paths = (ascii "/x", item get_only) ∷ [];
  components = none;
  security = none;
  extensions = [];
}

abbrev req : MockRequest
req = record {
  method = ascii "GET";
  path = ascii "/x";
  headers = (ascii "Prefer", ascii "code=404") ∷ [];
  query = [];
  body = none;
}

abbrev not_found_response : MockResponse
not_found_response = record {
  status = 404;
  content_type = [];
  body = null;
  headers = [];
  delay_ms = none;
  content_encoding = none;
  echo = false;
}

mock_run : mock services spec req default ≡ done (ok not_found_response)
unfolding runs
mock_run = refl

abbrev no_directives : PreferDirectives
no_directives = record {
  code = none;
  example = none;
  dynamic = none;
  seed = none;
  validate = none;
  security = none;
}

mock-Served_example :
    (d : PreferDirectives) × (from_request req.headers req.query ≡ done d)
    × (((allow : Text) × Preflighted services spec req default not_found_response allow)
        ⊎ ((matched : MatchedOperation) × Served services spec req default
              (merge_directives default d)
              not_found_response
              matched))
mock-Served_example = mock-Served services spec req default not_found_response mock_run

respond-merge_directives_example :
    respond services spec req default (
      merge_directives default
        (record no_directives { validate = some true; security = some false }))
    ≡ respond services spec req default (merge_directives default no_directives)
respond-merge_directives_example =
    respond-merge_directives services spec req default no_directives (some true) (some false)

lowest_2xx_response-LowestSuccess_example : LowestSuccess spec op 201 empty
unfolding runs
lowest_2xx_response-LowestSuccess_example = lowest_2xx_response-LowestSuccess spec op 201 empty refl

abbrev forced : MockConfig
forced = record default { force_code = some 218 }

-- The code 218 is not declared and its family is.
resolve_status_and_response-Outcome_example :
    (resolve_status_and_response spec op forced ≡ ok (218, empty))
    ↔ Outcome spec op 218 (ok (218, empty))
resolve_status_and_response-Outcome_example =
    resolve_status_and_response-Outcome spec op forced 218 (ok (218, empty)) refl

forced_run : resolve_status_and_response spec op forced ≡ ok (218, empty)
unfolding runs
forced_run = refl

resolve_status_and_response-error_iff_example :
    (resolve_status_and_response spec op default ≡ err no_responses)
    ↔ (no_responses ≡ no_responses)
      × (default_response spec op ≡ none)
      × ¬ Resolves spec op.responses.responses
resolve_status_and_response-error_iff_example =
    resolve_status_and_response-error_iff spec op default no_responses refl

numbers-IsOrder : IsOrder numbers
numbers-IsOrder = record {
  asym = λ a b p q h. ground (arith, h);
  trans = λ a b c p q r h k. ground (arith, h, k);
}

abbrev no_schema : MediaType
no_schema = record { schema = none; example = none; examples = [] }

-- A key that is no media type, and two that are.
abbrev offers : List (Text × MediaType)
offers =
    (ascii "undefined", no_schema)
    ∷ (ascii "application/json", no_schema)
    ∷ (ascii "text/html; charset=utf-8", no_schema)
    ∷ []

abbrev picky : MockRequest
picky = record req { headers = (ascii "Accept", ascii "application/json;q=200, text/*") ∷ [] }

negotiation_run :
    negotiate_content_type numbers offers picky ≡ selected (ascii "text/html; charset=utf-8")
unfolding negotiation_runs
negotiation_run = refl

negotiate_content_type_lem_example :
    ((ct : Text)
      → negotiate_content_type numbers offers picky ≡ selected ct
      → Chosen numbers numbers-IsOrder
          (valid_keys offers)
          (ascii "application/json;q=200, text/*")
          ct)
    × ((ks : List Text)
        → negotiate_content_type numbers offers picky ≡ not_acceptable ks
        → Refused numbers numbers-IsOrder
            (valid_keys offers)
            (ascii "application/json;q=200, text/*")
            ks)
unfolding runs
negotiate_content_type_lem_example =
    negotiate_content_type_lem numbers numbers-IsOrder offers picky
      (ascii "application/json;q=200, text/*") refl

abbrev naming : MockConfig
naming = record default { example_key = some (ascii "cat") }

build_body-example_not_found_iff_example :
    (build_body services spec (some no_schema) (ascii "application/json") naming req
      ≡ err (example_not_found (ascii "application/json") (ascii "cat")))
    ↔ (naming.ignore_examples ≡ false)
      × (naming.dynamic ≡ false)
      × (naming.example_key ≡ some (ascii "cat"))
      × (example_key_exists spec (some no_schema) (ascii "cat") ≡ false)
build_body-example_not_found_iff_example =
    build_body-example_not_found_iff services spec (some no_schema) req naming
      (ascii "application/json") (ascii "cat")
