-- ===== src/Prefer.antt =====
-- crates/chasm-engine/src/prefer.rs: the directives of the `Prefer` header and of the query.
-- A header or query map is the list of its entries in the order of iteration, keys unique.
pub mod Precedence
pub mod Order
pub mod Panics
pub mod Roundtrip
mod Tests
use chasm.Prelude.{
  ℕ, ◌^◌, ◌-◌, ◌≤◌, ◌≡◌, Bool, true, false, Option, some, none, List, [], ◌∷◌, length, take, drop,
  leb, ◌||◌, or, find_first, if◌then◌else◌, String,
}
use chasm.Prelude.Run.{Run, done, panic, ◌>>=◌}
use chasm.Text.{
  get, Text, ascii, text_eq, to_ascii_lowercase, eq_ignore_ascii_case, is_char_boundary, split,
  before, trim, parse_uint,
}

pub record PreferDirectives : Type 0 where
  pub code : Option ℕ
  pub example : Option Text
  pub dynamic : Option Bool
  pub seed : Option ℕ
  pub validate : Option Bool
  pub security : Option Bool

abbrev pub default : PreferDirectives
default = record {
  code = none;
  example = none;
  dynamic = none;
  seed = none;
  validate = none;
  security = none;
}

abbrev pub max_u16 : ℕ
max_u16 = 2 ^ 16 - 1

abbrev pub max_u64 : ℕ
max_u64 = 2 ^ 64 - 1

-- The slice `s[..prefix.len()]` panics inside a character.
unfoldable pub strip_prefix_ignore_ascii_case : Text → Text → Run (Option Text)
strip_prefix_ignore_ascii_case s prefix =
    let n = length prefix in
    if leb n (length s)
    then (if is_char_boundary s n
        then done (if eq_ignore_ascii_case (take n s) prefix then some (drop n s) else none)
        else panic)
    else done none

unfoldable pub strip_token_parameters : Text → Text
strip_token_parameters value = trim (before b';' value)

abbrev is_one_of : Text → Text → Text → Text → Bool
is_one_of s a b c = text_eq s a || text_eq s b || text_eq s c

unfoldable pub parse_bool : Text → Option Bool
parse_bool s =
    let l = to_ascii_lowercase s in
    if is_one_of l (ascii "true") (ascii "1") (ascii "yes")
    then some true
    else if is_one_of l (ascii "false") (ascii "0") (ascii "no")
    then some false
    else none

-- `if let Ok(n) = … { out.code = Some(n); }`
unfoldable pub set_code : Option ℕ → PreferDirectives → PreferDirectives
set_code none out = out
set_code (some n) out = record out { code = some n }

unfoldable pub set_seed : Option ℕ → PreferDirectives → PreferDirectives
set_seed none out = out
set_seed (some n) out = record out { seed = some n }

-- A branch of the `else if let` ladder.
unfoldable pub branch :
    Run (Option Text) → (Text → PreferDirectives) → Run PreferDirectives → Run PreferDirectives
branch m hit miss = do stripped ← m; elim stripped [ some rest ↦ done (hit rest) | none ↦ miss ]

-- One round of the loop of `from_prefer_header`, for a trimmed part.
unfoldable pub apply_part : Text → PreferDirectives → Run PreferDirectives
apply_part part out =
    branch (strip_prefix_ignore_ascii_case part (ascii "code="))
      (λ rest. set_code (parse_uint max_u16 (strip_token_parameters rest)) out)
      (branch (strip_prefix_ignore_ascii_case part (ascii "example="))
        (λ rest. record out { example = some (strip_token_parameters rest) })
        (branch (strip_prefix_ignore_ascii_case part (ascii "dynamic="))
          (λ rest. record out { dynamic = parse_bool (strip_token_parameters rest) })
          (branch (strip_prefix_ignore_ascii_case part (ascii "seed="))
            (λ rest. set_seed (parse_uint max_u64 (strip_token_parameters rest)) out)
            (branch (strip_prefix_ignore_ascii_case part (ascii "validate="))
              (λ rest. record out { validate = parse_bool (strip_token_parameters rest) })
              (branch (strip_prefix_ignore_ascii_case part (ascii "security="))
                (λ rest. record out { security = parse_bool (strip_token_parameters rest) })
                (done out))))))

-- The loop, from any intermediate value.
unfoldable pub apply_parts : List Text → PreferDirectives → Run PreferDirectives
apply_parts [] out = done out
apply_parts (part ∷ parts) out = do out' ← apply_part (trim part) out; apply_parts parts out'

unfoldable pub from_prefer_header : Text → Run PreferDirectives
from_prefer_header value = apply_parts (split b',' value) default

unfoldable pub from_query : List (Text × Text) → PreferDirectives
from_query query = record {
  code = elim (get query (ascii "__code")) [ none ↦ none | some v ↦ parse_uint max_u16 v ];
  example = get query (ascii "__example");
  dynamic = elim (get query (ascii "__dynamic")) [ none ↦ none | some v ↦ parse_bool v ];
  seed = elim (get query (ascii "__seed")) [ none ↦ none | some v ↦ parse_uint max_u64 v ];
  validate = elim (get query (ascii "__validate")) [ none ↦ none | some v ↦ parse_bool v ];
  security = elim (get query (ascii "__security")) [ none ↦ none | some v ↦ parse_bool v ];
}

unfoldable pub merge_query_over_header : PreferDirectives → PreferDirectives → PreferDirectives
merge_query_over_header header query = record {
  code = or query.code header.code;
  example = or query.example header.example;
  dynamic = or query.dynamic header.dynamic;
  seed = or query.seed header.seed;
  validate = or query.validate header.validate;
  security = or query.security header.security;
}

unfoldable pub from_request : List (Text × Text) → List (Text × Text) → Run PreferDirectives
from_request headers query = do
  header ← elim (find_first (λ e. eq_ignore_ascii_case e.0 (ascii "prefer")) headers) [
    | none ↦ done default
    | some e ↦ from_prefer_header e.1
  ]
  done (merge_query_over_header header (from_query query))
