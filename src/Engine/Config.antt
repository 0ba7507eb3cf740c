-- ===== src/Engine/Config.antt =====
-- crates/chasm-engine/src/engine.rs: the configuration, the override of it by a request's
-- directives, and the options that the faker is given.
use chasm.Prelude.{[], List, ℕ, Bool, true, false, Option, none, or, unwrap_or}
use chasm.Prelude.Maybe.{◌>>=◌}
use chasm.Text.{Text, ascii}
use chasm.OpenApi.{Value, Number, object}
use chasm.Prefer.{PreferDirectives}
use chasm.Engine.Values.{as_u64, as_bool, as_f64, field}

pub record MockConfig : Type 0 where
  pub dynamic : Bool
  pub ignore_examples : Bool
  pub seed : Option ℕ
  pub example_key : Option Text
  pub force_code : Option ℕ
  pub errors : Bool
  pub fill_properties : Option Bool
  pub strict_method_matching : Bool
  pub check_security : Bool

abbrev pub default : MockConfig
default = record {
  dynamic = false;
  ignore_examples = false;
  seed = none;
  example_key = none;
  force_code = none;
  errors = false;
  fill_properties = none;
  strict_method_matching = false;
  check_security = true;
}

unfoldable pub merge_directives : MockConfig → PreferDirectives → MockConfig
merge_directives cfg directives = record cfg {
  dynamic = unwrap_or directives.dynamic cfg.dynamic;
  seed = or directives.seed cfg.seed;
  force_code = or directives.code cfg.force_code;
  example_key = or directives.example cfg.example_key;
  errors = unwrap_or directives.validate cfg.errors;
  check_security = unwrap_or directives.security cfg.check_security;
}

-- The fields of the faker's options that the engine sets or that `generate_static` reads; the
-- others keep their defaults.
pub record GenerateOptions : Type 0 where
  pub seed : Option ℕ
  pub max_depth : ℕ
  pub always_fake_optionals : Bool
  pub optionals_probability : Option Number
  pub use_default_value : Bool
  pub use_examples_value : Bool
  pub required_only : Bool
  pub fail_on_invalid_type : Bool
  pub fail_on_invalid_format : Bool
  pub min_items : Option ℕ
  pub max_items : Option ℕ
  pub external_refs : List (Text × Value)
  pub fill_properties : Bool
  pub output_transform : Option (Value → Value → Value)

abbrev pub default_options : GenerateOptions
default_options = record {
  seed = none;
  max_depth = 5;
  always_fake_optionals = false;
  optionals_probability = none;
  use_default_value = false;
  use_examples_value = false;
  required_only = false;
  fail_on_invalid_type = true;
  fail_on_invalid_format = false;
  min_items = none;
  max_items = none;
  external_refs = [];
  fill_properties = true;
  output_transform = none;
}

-- A document's settings; `v as usize` loses nothing where `usize` has 64 bits.
unfoldable pub apply_jsf_config : GenerateOptions → Value → GenerateOptions
apply_jsf_config opts (object map) = record opts {
  min_items = or (field map (ascii "minItems") >>= as_u64) opts.min_items;
  max_items = or (field map (ascii "maxItems") >>= as_u64) opts.max_items;
  optionals_probability =
      or (field map (ascii "optionalsProbability") >>= as_f64) opts.optionals_probability;
  always_fake_optionals =
      unwrap_or (field map (ascii "alwaysFakeOptionals") >>= as_bool) opts.always_fake_optionals;
  use_default_value =
      unwrap_or (field map (ascii "useDefaultValue") >>= as_bool) opts.use_default_value;
  use_examples_value =
      unwrap_or (field map (ascii "useExamplesValue") >>= as_bool) opts.use_examples_value;
  required_only = unwrap_or (field map (ascii "requiredOnly") >>= as_bool) opts.required_only;
  fill_properties = unwrap_or (field map (ascii "fillProperties") >>= as_bool) opts.fill_properties;
  fail_on_invalid_type =
      unwrap_or (field map (ascii "failOnInvalidTypes") >>= as_bool) opts.fail_on_invalid_type;
  fail_on_invalid_format =
      unwrap_or (field map (ascii "failOnInvalidFormat") >>= as_bool) opts.fail_on_invalid_format;
  seed = or (field map (ascii "random") >>= as_u64) opts.seed;
}
apply_jsf_config opts _ = opts
