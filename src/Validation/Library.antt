-- ===== src/Validation/Library.antt =====
-- What validation takes from elsewhere.
use chasm.Prelude.{Bool, Option}
use chasm.Prelude.Result.{Result}
use chasm.Text.{Text}
use chasm.OpenApi.{Number, Value}

-- `f64`: `Value::as_f64`, `str::parse`, `Number::from_f64`, `Display`, comparisons, arithmetic.
pub record Floats : Type 1 where
  pub F64 : Type 0
  pub of_number : Number → F64
  pub parse : Text → Option F64
  pub to_number : F64 → Option Number
  pub display : F64 → Text
  pub lt : F64 → F64 → Bool
  pub le : F64 → F64 → Bool
  pub eq : F64 → F64 → Bool
  pub sub : F64 → F64 → F64
  pub mul : F64 → F64 → F64
  pub div : F64 → F64 → F64
  pub rem : F64 → F64 → F64
  pub abs : F64 → F64
  pub max : F64 → F64 → F64
  pub zero : F64
  pub one : F64
  pub sixty_four : F64
  pub epsilon : F64

-- The `regex` crate (`none` for a pattern that does not compile), the parsers of `std::net` and
-- `serde_json::from_slice` with the text of its error.
pub record Library : Type 1 where
  pub floats : Floats
  pub compile : Text → Option (Text → Bool)
  pub is_ipv4 : Text → Bool
  pub is_ipv6 : Text → Bool
  pub from_slice : Text → Result Text Value
