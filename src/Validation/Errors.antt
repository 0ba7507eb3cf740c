-- ===== src/Validation/Errors.antt =====
-- crates/chasm-engine/src/validation.rs: the entries of a validation report.
use chasm.Prelude.{◌++◌}
use chasm.Text.{Text, ascii}

pub data ValidationLocation : Type 0 where
  path query header body : ValidationLocation

pub data ValidationSeverity : Type 0 where
  error warning info : ValidationSeverity

pub record ValidationError : Type 0 where
  pub location : ValidationLocation
  pub field : Text
  pub message : Text
  pub code : Text
  pub severity : ValidationSeverity

unfoldable pub location_str : ValidationLocation → Text
location_str path = ascii "path"
location_str query = ascii "query"
location_str header = ascii "header"
location_str body = ascii "body"

unfoldable pub severity_str : ValidationSeverity → Text
severity_str error = ascii "Error"
severity_str warning = ascii "Warning"
severity_str info = ascii "Info"

-- `ValidationError::new`.
abbrev pub new : ValidationLocation → Text → Text → Text → ValidationError
new location field code message = record {
  location = location;
  field = field;
  message = message;
  code = code;
  severity = error;
}

abbrev pub type_error : ValidationLocation → Text → Text → ValidationError
type_error location field expected =
    new location field (ascii "type") (ascii "expected " ++ expected)
