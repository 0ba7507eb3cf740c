-- ===== src/Server/Problems.antt =====
-- crates/chasm-server/src/main.rs: problem documents.
use chasm.Prelude.{ℕ, Option, some, none, List, [], ◌∷◌, ◌++◌}
use chasm.Text.{Text, ascii, decimal, join}
use chasm.OpenApi.{Value, Values, Members, string, number, array, object, pos_int, nil, cons, end}
use chasm.Engine.Values.{insert_field}
use chasm.Engine.Body.{
  MockError, no_route, method_not_allowed, generation, no_response_defined, no_response_for_code,
  not_acceptable, spec_serialization, validation_failed, unauthorized, example_not_found,
}
use chasm.Validation.Errors.{ValidationError, location_str, severity_str}

pub record ProblemJson : Type 0 where
  pub type_uri : Text
  pub title : Text
  pub status : ℕ
  pub detail : Text
  pub validation : Option Values
  pub instance_uri : Option Text

unfoldable pub to_json : ProblemJson → Value
to_json p =
    let base =
      insert_field
        (insert_field
          (insert_field (insert_field end (ascii "type") (string p.type_uri)) (ascii "title")
            (string p.title))
          (ascii "status") (number (pos_int p.status)))
        (ascii "detail") (string p.detail) in
    let validated : Members = elim p.validation [
      | none ↦ base
      | some vs ↦ insert_field base (ascii "validation") (array vs)
    ] in
    object (elim p.instance_uri [
      | none ↦ validated
      | some uri ↦ insert_field validated (ascii "instance") (string uri)
    ])

unfoldable pub instance_uri_for : Text → Text
instance_uri_for request_id = ascii "urn:chasm:request:" ++ request_id

unfoldable pub validation_errors_to_json : List ValidationError → Values
validation_errors_to_json [] = nil
validation_errors_to_json (e ∷ es) =
    cons
      (object (
        insert_field
          (insert_field
            (insert_field
              (insert_field end (ascii "location")
                (array (cons (string (location_str e.location)) (cons (string e.field) nil))))
              (ascii "severity") (string (severity_str e.severity)))
            (ascii "code") (string e.code))
          (ascii "message") (string e.message)))
      (validation_errors_to_json es)

abbrev pub error_uri : Text → Text
error_uri name = ascii "https://chasm.dev/errors#" ++ name

-- A problem without a list of validation errors.
abbrev pub problem : Text → Text → Text → ℕ → Text → ProblemJson
problem request_id type_name title status detail = record {
  type_uri = error_uri type_name;
  title = title;
  status = status;
  detail = detail;
  validation = none;
  instance_uri = some (instance_uri_for request_id);
}

unfoldable pub problem_for_error : MockError → Text → Text → Text → ProblemJson
problem_for_error (no_route _ _) method path id =
    problem id (ascii "NO_PATH_MATCHED_ERROR") (ascii "Route not resolved, no path matched") 404 (
      ascii "The route " ++ (method ++ (ascii " " ++ (path ++ ascii " wasn't found in the spec."))))
problem_for_error (method_not_allowed _ _ _) method path id =
    problem id (ascii "NO_METHOD_MATCHED_ERROR") (ascii "Route resolved, but no method matched") 405
      (ascii "The method " ++ (method ++ (ascii " is not allowed for " ++ (path ++ ascii "."))))
problem_for_error (generation m p source) method path id =
    problem id (ascii "NO_RESPONSE_RESPONSE_DEFINED") (ascii "Response body generation failed") 500
      (ascii "Failed to generate a response body for "
        ++ (m ++ (ascii " " ++ (p ++ (ascii ": " ++ source)))))
problem_for_error no_response_defined method path id =
    problem id (ascii "NO_RESPONSE_RESPONSE_DEFINED")
      (ascii "No response defined for the selected operation") 500
      (ascii "chasm cannot find a response definition matching the request")
problem_for_error (spec_serialization msg) method path id =
    problem id (ascii "NO_RESPONSE_RESPONSE_DEFINED")
      (ascii "No response defined for the selected operation") 500
      (ascii "Spec serialization error: " ++ msg)
problem_for_error (validation_failed errors) method path id =
    record (problem id (ascii "UNPROCESSABLE_ENTITY") (ascii "Invalid request") 422 (
      ascii
        "Your request is not valid and no HTTP validation response was found in the spec, so chasm is generating this error for you.")) {
          validation = some (validation_errors_to_json errors);
        }
problem_for_error (unauthorized _ _) method path id =
    problem id (ascii "UNAUTHORIZED") (ascii "Invalid security scheme used") 401 (
      ascii
        "Your request does not fullfil the security requirements and no HTTP unauthorized response was found in the spec, so chasm is generating this error for you.")
problem_for_error (example_not_found ct key) method path id =
    problem id (ascii "NOT_FOUND") (ascii "The server cannot find the requested content") 404 (
      ascii "Response for contentType: "
      ++ (ct ++ (ascii " and exampleKey: " ++ (key ++ ascii " does not exist."))))
problem_for_error (no_response_for_code m p code) method path id =
    problem id (ascii "NO_RESPONSE_DEFINED") (ascii "The server cannot find the requested content")
      404
      (ascii "The response code "
        ++ (decimal code
            ++ (ascii " is not defined for "
                ++ (m ++ (ascii " " ++ (p ++ ascii " in the spec."))))))
problem_for_error (not_acceptable acceptable) method path id =
    problem id (ascii "NOT_ACCEPTABLE")
      (ascii "The server cannot produce a representation for your accept header") 406
      (ascii "Available content types: " ++ (join (ascii ", ") acceptable ++ ascii "."))
