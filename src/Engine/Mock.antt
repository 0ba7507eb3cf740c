-- ===== src/Engine/Mock.antt =====
-- crates/chasm-engine/src/engine.rs: `mock`, the pipeline of a request.
pub mod Laws
pub mod Served
pub mod Directives
use chasm.Validation.Errors.{ValidationError}
use chasm.Prelude.{
  ℕ, Bool, true, false, not, ◌&&◌, ◌||◌, Option, some, none, or, is_some, is_empty, List, [], ◌∷◌,
  if◌then◌else◌,
}
use chasm.Prelude.Maybe.{◌>>=◌}
use chasm.Prelude.Run.{Run, done, panic}
use chasm.Prelude.Result.{Result, ok, err}
use chasm.Text.{Text, ascii, text_eq, get}
use chasm.OpenApi.{Spec, Operation, PathItem, Response, ReferenceOr, item, reference, Value, null}
use chasm.Request.{MockRequest}
use chasm.Prefer.{PreferDirectives, from_request}
use chasm.Security.{evaluate, SecurityResult, authorized, unauthorized}
use chasm.Router
use chasm.Router.{
  RouteMatch, MatchedOperation, operation, synthesised_options, not_found,
  route_request_with_strict,
}
use chasm.Engine.Config.{MockConfig, merge_directives}
use chasm.Engine.Faker.{Services}
use chasm.Engine.Status.{resolve_status_and_response, ResolveError, no_responses}
use chasm.Engine.Negotiation.{negotiate_content_type, lookup_media_type, selected, not_acceptable}
use chasm.Engine.Headers.{collect_response_headers}
use chasm.Engine.Body
use chasm.Engine.Body.{MockError, build_body}
use chasm.Engine.Values.{as_u64, as_bool, as_str}

pub record MockResponse : Type 0 where
  pub status : ℕ
  pub content_type : Text
  pub body : Value
  pub headers : List (Text × Text)
  pub delay_ms : Option ℕ
  pub content_encoding : Option Text
  pub echo : Bool

unfoldable pub read_delay_ms : Operation → Response → Option ℕ
read_delay_ms op response =
    (or (get op.extensions (ascii "x-chasm-delay-ms"))
      (get response.extensions (ascii "x-chasm-delay-ms")))
    >>= as_u64

unfoldable pub read_content_encoding : Response → Option Text
read_content_encoding response =
    elim (get response.extensions (ascii "x-chasm-content-encoding") >>= as_str) [
      | none ↦ none
      | some token ↦
          if text_eq token (ascii "gzip")
            || text_eq token (ascii "br")
            || text_eq token (ascii "zstd")
          then some token
          else none
    ]

unfoldable pub read_echo_flag : Operation → Bool
read_echo_flag op = elim (get op.extensions (ascii "x-chasm-echo") >>= as_bool) [
  | some b ↦ b
  | none ↦ false
]

unfoldable pub has_any_validation_target : Operation → Option PathItem → Bool
has_any_validation_target op path_item =
    not (is_empty op.parameters)
    || is_some op.request_body
    || elim path_item [ none ↦ false | some i ↦ not (is_empty i.parameters) ]

-- The path item of a template, unless it is a reference.
unfoldable pub path_item_of : Spec → Text → Option PathItem
path_item_of spec path_template = elim (get spec.paths path_template) [
  | some (item i) ↦ some i
  | _ ↦ none
]

-- The answer to a preflight request.
abbrev pub preflight : Text → MockResponse
preflight allow = record {
  status = 200;
  content_type = [];
  body = null;
  headers = (ascii "Allow", allow) ∷ [];
  delay_ms = none;
  content_encoding = none;
  echo = false;
}

unfoldable pub resolve_error : MockRequest → ResolveError → MockError
resolve_error req no_responses = Body.no_response_defined
resolve_error req (ResolveError.no_response_for_code n) =
    Body.no_response_for_code req.method req.path n

module _ (env : Services) (spec : Spec) (req : MockRequest) where
  unfoldable pub validation_errors : MatchedOperation → List ValidationError
  validation_errors matched =
      if has_any_validation_target matched.operation (path_item_of spec matched.path_template)
      then env.validate spec matched.path_template matched.operation matched.path_params req
      else []

  -- The response once its status and its definition are known.
  unfoldable pub render :
      MatchedOperation → MockConfig → ℕ → Response → Result MockError MockResponse
  render matched effective status response =
      let base : MockResponse = record {
        status = status;
        content_type = [];
        body = null;
        headers = collect_response_headers env spec effective response;
        delay_ms = read_delay_ms matched.operation response;
        content_encoding = read_content_encoding response;
        echo = false;
      } in
      if read_echo_flag matched.operation
      then ok (record base { content_type = ascii "application/json"; echo = true })
      else if is_empty response.content
      then ok base
      else elim (negotiate_content_type env.quality response.content req) [
        | not_acceptable acceptable ↦ err (Body.not_acceptable acceptable)
        | selected content_type ↦
            elim (build_body env spec (lookup_media_type response.content content_type) content_type
              effective req) [
                | err e ↦ err e
                | ok body ↦ ok (record base { content_type = content_type; body = body })
              ]
      ]

  -- What follows the checks of the request.
  unfoldable pub answer : MatchedOperation → MockConfig → Result MockError MockResponse
  answer matched effective = elim (resolve_status_and_response spec matched.operation effective) [
    | err e ↦ err (resolve_error req e)
    | ok (status, response) ↦ render matched effective status response
  ]

  -- The check of the credentials, unless it is off.
  unfoldable pub check_credentials : MockConfig → MatchedOperation → Option MockError
  check_credentials cfg matched =
      if cfg.check_security
      then (elim (evaluate env.decode spec req matched.operation) [
        | authorized ↦ none
        | unauthorized scheme www_authenticate ↦ some (Body.unauthorized scheme www_authenticate)
      ])
      else none

  -- The check of the request, which fails it only where errors are enforced.
  unfoldable pub check_request : MockConfig → MatchedOperation → Option MockError
  check_request cfg matched = elim (validation_errors matched) [
    | [] ↦ none
    | e ∷ es ↦ if cfg.errors then some (Body.validation_failed (e ∷ es)) else none
  ]

  -- The operation that the router found: both checks, then the answer.
  unfoldable pub serve : MockConfig → MockConfig → MatchedOperation → Result MockError MockResponse
  serve cfg effective matched =
      elim (or (check_credentials cfg matched) (check_request cfg matched)) [
        | some e ↦ err e
        | none ↦ answer matched effective
      ]

  -- `mock` after the merge of the directives: `cfg` is the caller's, `effective` the merged one.
  unfoldable pub respond : MockConfig → MockConfig → Result MockError MockResponse
  respond cfg effective =
      elim (route_request_with_strict env.decode spec req.method req.path
        cfg.strict_method_matching) [
          | operation matched ↦ serve cfg effective matched
          | synthesised_options allow ↦ ok (preflight allow)
          | Router.method_not_allowed allow ↦
              err (Body.method_not_allowed req.method req.path allow)
          | not_found ↦ err (Body.no_route req.method req.path)
        ]

  -- The parser of the directives may panic.
  unfoldable pub mock : MockConfig → Run (Result MockError MockResponse)
  mock cfg = elim (from_request req.headers req.query) [
    | panic ↦ panic
    | done directives ↦ done (respond cfg (merge_directives cfg directives))
  ]
