-- ===== src/Server/Responses.antt =====
-- crates/chasm-server/src/main.rs: `handle_request_inner`, from the engine's answer to the response.
pub mod Bodyless
use chasm.Prelude.{
  drop, ℕ, Bool, true, false, not, ◌&&◌, ◌||◌, Option, some, none, is_some, List, [], ◌∷◌, ◌++◌,
  ◌==◌, leb, ltb, is_empty, unwrap_or, if◌then◌else◌,
}
use chasm.Prelude.Result.{Result, ok, err}
use chasm.Text.{
  Text, ascii, text_eq, before, find, split, split_once, starts_with, ends_with, ends_with_text,
  to_ascii_lowercase, trim, join,
}
use chasm.OpenApi.{Value, string}
use chasm.Request.{MockRequest, find_header}
use chasm.Engine.Config.{MockConfig}
use chasm.Engine.Mock.{MockResponse}
use chasm.Engine.Body.{MockError, unauthorized, method_not_allowed, validation_failed}
use chasm.OpenApi.{array}
use chasm.Server.Http.{Http, HttpResponse, remove_header, set_header, set_if_value}
use chasm.Server.Requests.{build_echo_envelope}
use chasm.Server.Problems.{problem_for_error, to_json, validation_errors_to_json}

unfoldable pub is_bodyless_status : ℕ → Bool
is_bodyless_status status =
    (leb 100 status && leb status 199) || status == 204 || status == 205 || status == 304

-- `s.contains(t)`.
abbrev pub has : Text → Text → Bool
has s t = is_some (find s t)

-- `trim` drops the white space in front too, which `trim_end` keeps.
abbrev pub trim_end : Text → Text
trim_end s = drop 1 (trim (b'x' ∷ s))

unfoldable pub with_utf8_charset : Text → Text
with_utf8_charset content_type =
    let main_lower = to_ascii_lowercase (trim (before b';' content_type)) in
    let is_json =
      text_eq main_lower (ascii "application/json")
      || (starts_with main_lower (ascii "application/")
          && (ends_with_text main_lower (ascii "+json") || has main_lower (ascii "/json"))) in
    let trimmed = trim_end content_type in
    if is_empty content_type
    then content_type
    else if has (to_ascii_lowercase content_type) (ascii "charset=")
    then content_type
    else if not is_json && not (starts_with main_lower (ascii "text/"))
    then content_type
    else if ends_with trimmed b';'
    then trimmed ++ ascii " charset=utf-8"
    else trimmed ++ ascii "; charset=utf-8"

unfoldable pub accepts_yaml : List Text → Bool
accepts_yaml [] = false
accepts_yaml (raw ∷ raws) =
    let token = to_ascii_lowercase (trim (before b';' raw)) in
    text_eq token (ascii "application/yaml")
    || text_eq token (ascii "application/x-yaml")
    || text_eq token (ascii "text/yaml")
    || accepts_yaml raws

unfoldable pub accept_prefers_yaml : Text → Bool
accept_prefers_yaml accept = accepts_yaml (split b',' accept)

unfoldable pub render_response_body : Http → Text → Value → Text
render_response_body http content_type body =
    let rendered = http.to_string body in
    if starts_with (to_ascii_lowercase (trim (before b';' content_type))) (ascii "text/")
    then (elim body [ string s ↦ s | _ ↦ rendered ])
    else rendered

unfoldable pub response_body_is_stable : MockConfig → Bool
response_body_is_stable cfg = not cfg.dynamic || is_some cfg.seed

unfoldable pub compute_etag : Http → Text → Text
compute_etag http body = 34 ∷ (http.hash body ++ (34 ∷ []))

-- `StatusCode::from_u16(status).unwrap_or(INTERNAL_SERVER_ERROR)`.
abbrev pub status_code : ℕ → ℕ
status_code status = if leb 100 status && ltb status 1000 then status else 500

unfoldable pub append_spec_headers :
    Http → List (Text × Text) → List (Text × Text) → List (Text × Text)
append_spec_headers http headers [] = headers
append_spec_headers http headers ((name, value) ∷ more) = elim (http.header_name name) [
  | none ↦ append_spec_headers http headers more
  | some n ↦
      append_spec_headers http (if http.is_value value then headers ++ (n, value) ∷ [] else headers)
        more
]

abbrev pub without_content : List (Text × Text) → List (Text × Text)
without_content headers =
    remove_header (remove_header headers (ascii "content-type")) (ascii "content-length")

-- The bytes of the body and the encoding that was applied; a codec that fails is left out.
unfoldable pub encode_body : Http → Option Text → Text → Text × Option Text
encode_body http none identity = (identity, none)
encode_body http (some token) identity = elim (http.compress token identity) [
  | some compressed ↦ (compressed, some token)
  | none ↦ (identity, none)
]

module _ (http : Http) (method : Text) where
  abbrev pub suppresses_body : MockResponse → Bool
  suppresses_body mr =
      is_bodyless_status mr.status
      || text_eq method (ascii "HEAD")
      || text_eq method (ascii "OPTIONS")
      || is_empty mr.content_type

  abbrev pub body_text : MockResponse → Value → Text
  body_text mr body =
      if suppresses_body mr then [] else render_response_body http mr.content_type body

  abbrev pub body_bytes : MockResponse → Value → Text × Option Text
  body_bytes mr body =
      if suppresses_body mr
      then ([], none)
      else encode_body http mr.content_encoding (body_text mr body)

  unfoldable pub etag_of : MockConfig → MockResponse → Value → Option Text
  etag_of cfg mr body =
      if response_body_is_stable cfg
        && ((leb 200 (status_code mr.status) && ltb (status_code mr.status) 300)
            && (not (is_empty mr.content_type) && not (is_some (body_bytes mr body).1)))
      then some (compute_etag http (body_text mr body))
      else none

  -- `304 Not Modified`.
  unfoldable pub not_modified : MockResponse → Text → HttpResponse
  not_modified mr tag = record {
    status = 304;
    headers =
        without_content
          (append_spec_headers http (set_if_value http [] (ascii "etag") tag) mr.headers);
    body = [];
  }

  -- What axum makes of the status, the content type and the bytes.
  abbrev pub into_response : MockResponse → Text → HttpResponse
  into_response mr bytes =
      let plain : HttpResponse = record {
        status = status_code mr.status;
        headers = http.byte_headers;
        body = bytes;
      } in
      if is_bodyless_status mr.status || is_empty mr.content_type
      then plain
      else if http.is_value (with_utf8_charset mr.content_type)
      then record plain {
        headers =
            set_header http.byte_headers (ascii "content-type") (with_utf8_charset mr.content_type);
      }
      else http.unencodable

  abbrev pub strip_content : MockResponse → List (Text × Text) → List (Text × Text)
  strip_content mr headers =
      if is_bodyless_status mr.status
      then without_content headers
      else if is_empty mr.content_type
      then remove_header headers (ascii "content-type")
      else headers

  abbrev pub set_option : Text → Option Text → List (Text × Text) → List (Text × Text)
  set_option name none headers = headers
  set_option name (some value) headers = set_if_value http headers name value

  unfoldable pub full_response : MockResponse → Text × Option Text → Option Text → HttpResponse
  full_response mr bytes etag =
      let resp = into_response mr bytes.0 in
      record resp {
        headers = set_option (ascii "etag") etag (
            set_option (ascii "content-encoding") bytes.1
              (strip_content mr (append_spec_headers http resp.headers mr.headers)));
      }

  abbrev pub is_same_tag : Option Text → Option Text → Bool
  is_same_tag (some tag) (some client) = text_eq client tag
  is_same_tag _ _ = false

  -- The engine's response; the delay has no counterpart.
  unfoldable pub serve_response : MockConfig → MockRequest → Text → MockResponse → HttpResponse
  serve_response cfg req raw mr =
      let body = if mr.echo then build_echo_envelope http req raw else mr.body in
      let etag = etag_of cfg mr body in
      if is_same_tag etag (find_header req (ascii "if-none-match"))
      then not_modified mr (unwrap_or etag [])
      else full_response mr (body_bytes mr body) etag

  -- The engine's error.
  unfoldable pub error_headers : MockError → List (Text × Text) → List (Text × Text)
  error_headers (unauthorized _ (some www)) headers =
      set_if_value http headers (ascii "www-authenticate") www
  error_headers (method_not_allowed _ _ allow) headers =
      set_if_value http headers (ascii "allow") allow
  error_headers (validation_failed errors) headers =
      set_if_value http headers (ascii "sl-violations")
        (http.to_string (array (validation_errors_to_json errors)))
  error_headers _ headers = headers

  unfoldable pub serve_error : Text → Text → MockError → HttpResponse
  serve_error path request_id e =
      let problem = problem_for_error e method path request_id in
      record {
        status = status_code problem.status;
        headers = error_headers e (
            set_header http.byte_headers (ascii "content-type")
              (with_utf8_charset (ascii "application/problem+json")));
        body = http.to_string (to_json problem);
      }

  abbrev pub is_sent : MockRequest → Text → Bool
  is_sent req name = elim (find_header req name) [ none ↦ false | some v ↦ not (is_empty v) ]

  -- `finalize_response`, its metrics left to `record_request`.
  unfoldable pub finalize_response : Text → MockRequest → HttpResponse → HttpResponse
  finalize_response request_id req resp =
      let vary =
        (if is_sent req (ascii "prefer") then ascii "Prefer" ∷ [] else [])
        ++ (if is_sent req (ascii "accept") then ascii "Accept" ∷ [] else []) in
      let headers = set_if_value http resp.headers (ascii "x-request-id") request_id in
      record resp {
        headers =
            if is_empty vary
            then headers
            else set_if_value http headers (ascii "vary") (join (ascii ", ") vary);
      }

  -- The response to what the engine answers.
  unfoldable pub respond_to :
      MockConfig → MockRequest → Text → Text → Result MockError MockResponse → HttpResponse
  respond_to cfg req raw request_id (ok mr) =
      finalize_response request_id req (serve_response cfg req raw mr)
  respond_to cfg req raw request_id (err e) =
      finalize_response request_id req (serve_error req.path request_id e)
