-- ===== src/Prefer/Tests.antt =====
-- Runs of the parser, and the theorems at concrete inputs.
use mathlib.Core.Path.{subst}
use chasm.Prefer.Order.{from_prefer_header-append}
use chasm.Prefer.Panics.{from_prefer_header-ascii, round, from_prefer_header-panic}
use chasm.Prefer.Precedence.{from_request-IsCombined, IsCombined, Lists}
use mathlib.Core.List.{foldl}
use chasm.Prefer.Roundtrip.{
  IsPlain, from_prefer_header-to_prefer_header, to_prefer_header, IsPrintable,
}
use chasm.Prelude.{All, arith, false, ◌++◌, ◌≡◌, refl, some, true, [], ◌∷◌}
use chasm.Prelude.Run.{◌>>=◌, done}
use chasm.Text.{
  Text, get, ascii, eq_ignore_ascii_case, is_char_boundary, text_eq, to_ascii_lowercase, split,
  before, trim, parse_uint, decimal,
}
use chasm.Prefer.{
  panic, PreferDirectives, default, from_prefer_header, from_request, from_query, apply_parts,
  apply_part, branch, set_code, set_seed, strip_prefix_ignore_ascii_case, strip_token_parameters,
  parse_bool, merge_query_over_header,
}

-- Opens what the runs compute with.
runs : Unit {0}
unfolding from_request from_query from_prefer_header apply_parts apply_part branch set_code set_seed
    strip_prefix_ignore_ascii_case strip_token_parameters parse_bool get merge_query_over_header
    eq_ignore_ascii_case is_char_boundary text_eq to_ascii_lowercase split before trim parse_uint
runs = tt

header_run :
    from_prefer_header (ascii "CODE=404; x=1, foo,dynamic=Yes ,seed=+7,code=70000")
    ≡ done (record default { code = some 404; dynamic = some true; seed = some 7 })
unfolding runs
header_run = refl

request_run :
    from_request
      ((ascii "pREFER", ascii "validate=0,example= a b ") ∷ [])
      ((ascii "__validate", ascii "TRUE") ∷ [])
    ≡ done (record default { validate = some true; example = some (ascii "a b") })
unfolding runs
request_run = refl

abbrev directives : PreferDirectives
directives = record default {
  code = some 404;
  example = some (ascii "fido");
  security = some false;
}

fido-IsPlain : All IsPlain (ascii "fido")
fido-IsPlain = omega arith

directives-IsPrintable : IsPrintable directives
directives-IsPrintable = record {
  code = λ n e. ground arith;
  seed = λ n e. cc;
  example = λ v e. let p : ascii "fido" ≡ v = (cc) in subst (All IsPlain) p fido-IsPlain;
}

from_prefer_header-to_prefer_header_example :
    from_prefer_header (to_prefer_header directives) ≡ done directives
from_prefer_header-to_prefer_header_example =
    from_prefer_header-to_prefer_header directives directives-IsPrintable

from_prefer_header-append_example :
    from_prefer_header (ascii "code=200,code=404")
    ≡ (from_prefer_header (ascii "code=200") >>= apply_parts (split b',' (ascii "code=404")))
from_prefer_header-append_example = from_prefer_header-append (ascii "code=200") (ascii "code=404")

from_prefer_header-ascii_example :
    from_prefer_header (ascii "code=1") ≡ done (foldl round default (split b',' (ascii "code=1")))
from_prefer_header-ascii_example = from_prefer_header-ascii (ascii "code=1") (omega arith)

-- `abcdé` in UTF-8.
abbrev accented : Text
accented = ascii "abcd" ++ 0xC3 ∷ 0xA9 ∷ []

from_prefer_header-panic_example : from_prefer_header accented ≡ panic
unfolding before trim is_char_boundary
from_prefer_header-panic_example = from_prefer_header-panic accented (omega arith) refl

-- The query asks for another code and for a seed.
abbrev asked : PreferDirectives
asked = record default { code = some 503; seed = some 7 }

asked-Lists : Lists ((ascii "__seed", ascii "7") ∷ (ascii "__code", ascii "503") ∷ []) asked
unfolding get decimal text_eq
asked-Lists = record {
  code = refl;
  example = refl;
  dynamic = refl;
  seed = refl;
  validate = refl;
  security = refl;
}

from_request-IsCombined_example :
    (out : PreferDirectives) × (from_request
        ((ascii "Accept", []) ∷ (ascii "Prefer", to_prefer_header directives) ∷ [])
        ((ascii "__seed", ascii "7") ∷ (ascii "__code", ascii "503") ∷ [])
      ≡ done out)
    × IsCombined asked directives out
unfolding to_ascii_lowercase
from_request-IsCombined_example =
    from_request-IsCombined ((ascii "Accept", []) ∷ []) []
      ((ascii "__seed", ascii "7") ∷ (ascii "__code", ascii "503") ∷ []) (ascii "Prefer") directives
      asked ((λ e. ground arith), tt) refl directives-IsPrintable (λ n e. ground arith)
      (λ n e. ground arith) asked-Lists
