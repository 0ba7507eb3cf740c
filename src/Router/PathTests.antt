-- ===== src/Router/PathTests.antt =====
-- The theorems on segments, base paths and the `Allow` header at concrete inputs.
use chasm.Text.{
  insert, get, split_once, contains, ends_with, starts_with, split, join, trim_end_matches, find,
  to_ascii_uppercase, text_eq, strip_prefix, Text, ascii,
}
use chasm.Router.Allow.{allow_methods_iff}
use chasm.Router.Methods.{
  declared_methods, dedup, sort_texts, insert_sorted, text_le, slot, allow_methods, get_operation,
}
use chasm.Router.{serving_operation}
use chasm.Router.Template.{
  match_mixed_segment, template_parts_from, byte_as_char, brace_name, literal, split_template_parts,
  param, match_parts,
}
use chasm.Router.Mixed.{match_mixed_segment_sound, match_parts-first_occurrence, Fits, unparse}
use chasm.Router.Servers.{
  candidates_from, expand_from, expand_server_variables, extract_path_from_url, push_unique, rebase,
  candidate_paths_for_servers_list,
}
use chasm.OpenApi.{Operation, PathItem, Server}
use chasm.Router.Bases.{candidate_paths_for_servers_list_iff, rebase_lem, Rebased, Member, IsProper}
use chasm.Prelude.{◌↔◌, ℕ, false, some, none, [], ◌∷◌, ◌++◌, ◌≡◌, ◌≢◌, refl, arith}

runs : Unit {0}
unfolding serving_operation rebase push_unique extract_path_from_url expand_server_variables
    expand_from brace_name byte_as_char slot get_operation text_le insert_sorted sort_texts dedup
    declared_methods allow_methods candidates_from candidate_paths_for_servers_list
    template_parts_from split_template_parts match_parts match_mixed_segment text_eq
    to_ascii_uppercase starts_with ends_with strip_prefix contains find split split_once
    trim_end_matches join get insert
runs = tt

-- `{name}.json` against `a.json`.
match_mixed_segment_sound_example :
    (unparse (split_template_parts (ascii "{name}.json")) ≡ ascii "{name}.json")
    × Fits
        (split_template_parts (ascii "{name}.json"))
        (ascii "a.json")
        []
        ((ascii "name", ascii "a") ∷ [])
unfolding runs
match_mixed_segment_sound_example =
    match_mixed_segment_sound (ascii "{name}.json") (ascii "a.json") []
      ((ascii "name", ascii "a") ∷ []) (ground arith) refl

-- `{name}.js` against `a.js.js`.
match_parts-first_occurrence_example :
    match_parts (param (ascii "name") ∷ literal (ascii ".js") ∷ []) (ascii "a.js.js") [] ≡ none
unfolding runs
match_parts-first_occurrence_example =
    match_parts-first_occurrence (ascii "name") (ascii ".js") (ascii "a.js.js") 1 [] refl (λ e. cc)

v1-IsProper : IsProper (ascii "/v1")
v1-IsProper = ((λ e. cc), (λ e. cc))

rebase_lem_example :
    (rebase (ascii "/v1") (ascii "/v1") ≡ ascii "/")
    × ((rest : Text) → rebase (ascii "/v1") (ascii "/v1" ++ b'/' ∷ rest) ≡ b'/' ∷ rest)
    × ((c : ℕ) (rest : Text)
        → c ≢ b'/'
        → rebase (ascii "/v1") (ascii "/v1" ++ c ∷ rest) ≡ b'/' ∷ c ∷ rest)
    × (strip_prefix (ascii "/pets") (ascii "/v1") ≡ none
        → rebase (ascii "/v1") (ascii "/pets") ≡ ascii "/pets")
rebase_lem_example = rebase_lem (ascii "/v1") (ascii "/pets") v1-IsProper

-- A base that ends inside a segment.
inside_a_segment : rebase (ascii "/v1") (ascii "/v1pets") ≡ ascii "/pets"
unfolding runs
inside_a_segment = refl

abbrev v1 : Server
v1 = record { url = ascii "https://x.org/v1"; variables = none }

candidate_paths_for_servers_list_iff_example :
    Member (ascii "/v1/pets") (candidate_paths_for_servers_list (v1 ∷ []) (ascii "/v1/pets"))
    ↔ Rebased (ascii "/v1/pets") (ascii "/v1/pets") (v1 ∷ [])
candidate_paths_for_servers_list_iff_example =
    candidate_paths_for_servers_list_iff v1 [] (ascii "/v1/pets") (ascii "/v1/pets")

-- The request's path itself is not a candidate.
no_fallback : candidate_paths_for_servers_list (v1 ∷ []) (ascii "/v1/pets") ≡ ascii "/pets" ∷ []
unfolding runs
no_fallback = refl

abbrev op : Operation
op = record {
  servers = [];
  security = none;
  parameters = [];
  operation_id = none;
  request_body = none;
  responses = record { default = none; responses = [] };
  extensions = [];
}

abbrev get_only : PathItem
get_only = record {
  get = some op;
  put = none;
  post = none;
  delete = none;
  options = none;
  head = none;
  patch = none;
  trace = none;
  servers = [];
  parameters = [];
}

allow_methods_iff_example :
    Member (ascii "HEAD") (allow_methods get_only false)
    ↔ serving_operation get_only (ascii "HEAD") false ≢ none
unfolding runs
allow_methods_iff_example = allow_methods_iff get_only false (ascii "HEAD") refl
