-- ===== src/Security/Tests.antt =====
-- Runs of the security evaluation, and the theorems at concrete inputs.
use mathlib.Core.List.{head?}
use chasm.Security.{
  www_authenticate_for, unquote, unauthorized, scan_requirements, scan_names, resolve_scheme_entry,
  refuse, note_scheme, note_declared, normalize_cookie_value, lookup_scheme, is_scheme_satisfied,
  has_authorization_prefix, find_cookie_in, find_cookie, evaluate, authorized,
}
use chasm.Security.Report.{is_known, evaluate-eq-unauthorized, challenge_of, all_names}
use chasm.Text.{
  trim, to_ascii_lowercase, text_eq, strip_prefix, starts_with, split_once, split, get,
  eq_ignore_ascii_case, ends_with, ascii, Text,
}
use chasm.Security.Credentials.{is_scheme_satisfied_iff, Presents}
use chasm.OpenApi.{
  reference, item, http, cookie, api_key, Spec, SecurityRequirement, Responses, Operation,
}
use chasm.Request.{find_header, MockRequest}
use chasm.Security.Authorized.{evaluate-eq-authorized_iff, IsAuthorized}
use chasm.Prelude.{◌≡◌, ◌≡◌, ◌∷◌, ◌↔◌, true, some, refl, or, none, find_first, [], Option, List}

-- Opens what the runs compute with.
runs : Unit {0}
unfolding evaluate scan_requirements scan_names refuse note_declared note_scheme lookup_scheme
    resolve_scheme_entry www_authenticate_for is_scheme_satisfied has_authorization_prefix
    find_cookie find_cookie_in normalize_cookie_value unquote find_header eq_ignore_ascii_case
    text_eq to_ascii_lowercase starts_with ends_with strip_prefix split split_once trim get
runs = tt

-- A decoder that leaves every text as it is.
abbrev plain : Text → Option Text
plain s = some s

abbrev no_responses : Responses
no_responses = record { default = none; responses = [] }

abbrev guarded : List SecurityRequirement → Operation
guarded rs = record {
  servers = [];
  security = some rs;
  parameters = [];
  operation_id = none;
  request_body = none;
  responses = no_responses;
  extensions = [];
}

abbrev spec : Spec
spec = record {
  servers = [];
  paths = [];
  components = some (record {
    security_schemes =
        (ascii "key", item (api_key cookie (ascii "k")))
        ∷ (ascii "tok", item (http (ascii "Bearer")))
        ∷ (ascii "ref", reference (ascii "#/components/securitySchemes/tok"))
        ∷ (ascii "odd", item (http (ascii "Digest")))
        ∷ [];
    responses = [];
    headers = [];
    examples = [];
    schemas = [];
    parameters = [];
    request_bodies = [];
  });
  security = none;
  extensions = [];
}

abbrev ask : Text → Text → MockRequest
ask name value = record {
  method = ascii "GET";
  path = ascii "/";
  headers = (name, value) ∷ [];
  query = [];
  body = none;
}

abbrev with_token : MockRequest
with_token = ask (ascii "AUTHORIZATION") (ascii " bearer  t ")

abbrev with_cookie : MockRequest
with_cookie = ask (ascii "Cookie") (ascii "a=b; k = \"v\"")

abbrev wanted : List SecurityRequirement
wanted = (ascii "none" ∷ ascii "key" ∷ []) ∷ (ascii "ref" ∷ []) ∷ []

token_run : evaluate plain spec with_token (guarded wanted) ≡ authorized
unfolding runs
token_run = refl

cookie_run : evaluate plain spec with_cookie (guarded wanted) ≡ unauthorized (ascii "key") none
unfolding runs
cookie_run = refl

ref_run :
    evaluate plain spec with_cookie (guarded ((ascii "ref" ∷ []) ∷ []))
    ≡ unauthorized (ascii "ref") (some (ascii "Bearer realm=\"ref\""))
unfolding runs
ref_run = refl

evaluate-eq-authorized_iff_example :
    (evaluate plain spec with_token (guarded wanted) ≡ authorized)
    ↔ IsAuthorized plain spec with_token (some wanted)
evaluate-eq-authorized_iff_example =
    evaluate-eq-authorized_iff plain spec with_token (guarded wanted)

evaluate-eq-unauthorized_example :
    (rs : List SecurityRequirement) × (◌≡◌ {A = Option (List SecurityRequirement)}
      (some wanted)
      (some rs))
    × (or (find_first (is_known plain spec with_cookie) (all_names rs)) (head? (all_names rs))
        ≡ some (ascii "key"))
    × (none
        ≡ challenge_of plain spec with_cookie
            (find_first (is_known plain spec with_cookie) (all_names rs)))
evaluate-eq-unauthorized_example =
    evaluate-eq-unauthorized plain spec with_cookie (guarded wanted) (ascii "key") none cookie_run

is_scheme_satisfied_iff_example :
    (is_scheme_satisfied plain (http (ascii "Digest")) (ask (ascii "authorization") []) ≡ true)
    ↔ Presents (ask (ascii "authorization") []) plain (http (ascii "Digest"))
is_scheme_satisfied_iff_example =
    is_scheme_satisfied_iff (ask (ascii "authorization") []) plain (http (ascii "Digest"))

-- Another `http` scheme is content with an empty header.
empty_digest :
    is_scheme_satisfied plain (http (ascii "Digest")) (ask (ascii "authorization") []) ≡ true
unfolding runs
empty_digest = refl
