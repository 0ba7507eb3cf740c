-- ===== src/Prefer/Roundtrip.antt =====
-- A header printed from directives is parsed back to them.
use chasm.Prelude.{
  append-nil, All-append, ◌∙◌, ap, ℕ, ◌≤◌, ◌<◌, ◌≡◌, ◌≢◌, refl, Bool, true, false, Option, some,
  none, List, [], ◌∷◌, ◌++◌, arith, All,
}
use chasm.Prelude.Run.{done}
use chasm.Text.{split, Text, ascii, trim, join, parse_uint, decimal, to_ascii_lowercase, text_eq}
use chasm.Text.Trim.Laws.{IsGraph, trim-graph}
use chasm.Text.Search.Laws.{Lacks, split-join, before-Lacks}
use chasm.Text.Number.Laws.{parse_uint-decimal, IsDigit, decimal-IsDigit}
use chasm.Prefer.{
  apply_parts, from_prefer_header, default, PreferDirectives, max_u16, max_u64,
  strip_token_parameters, parse_bool, set_code, set_seed, apply_part,
}
use chasm.Prefer.Panics.{apply_ci, apply_part-ascii}

-- A printable byte that separates nothing in the header.
abbrev pub IsPlain : ℕ → Type 0
IsPlain c = (33 ≤ c) × (c < 127) × (c ≢ b',') × (c ≢ b';')

abbrev pub show_bool : Bool → Text
show_bool true = ascii "true"
show_bool false = ascii "false"

abbrev pub part_of : Text → Option Text → List Text
part_of name none = []
part_of name (some v) = (name ++ v) ∷ []

abbrev pub shown {ℓ} : {A : Type ℓ} → (A → Text) → Option A → Option Text
shown f none = none
shown f (some a) = some (f a)

-- One part for each directive that is set.
abbrev pub parts_of : PreferDirectives → List Text
parts_of d =
    part_of (ascii "code=") (shown decimal d.code)
    ++ (part_of (ascii "example=") d.example
        ++ (part_of (ascii "dynamic=") (shown show_bool d.dynamic)
            ++ (part_of (ascii "seed=") (shown decimal d.seed)
                ++ (part_of (ascii "validate=") (shown show_bool d.validate)
                    ++ part_of (ascii "security=") (shown show_bool d.security)))))

abbrev pub to_prefer_header : PreferDirectives → Text
to_prefer_header d = join (ascii ",") (parts_of d)

-- The numbers fit their types, and the name of the example is plain.
pub record IsPrintable (d : PreferDirectives) : Type 0 where
  pub code : (n : ℕ) → d.code ≡ some n → n ≤ max_u16
  pub seed : (n : ℕ) → d.seed ≡ some n → n ≤ max_u64
  pub example : (e : Text) → d.example ≡ some e → All IsPlain e

module _ {P Q : ℕ → Type 0} (f : (c : ℕ) → P c → Q c) where
  All-map : (s : Text) → All P s → All Q s
  All-map [] h = tt
  All-map (c ∷ s) (p, h) = (f c p, All-map s h)

plain→ascii : (c : ℕ) → IsPlain c → c < 128
plain→ascii c h = omega arith

plain→graph : (c : ℕ) → IsPlain c → IsGraph c
plain→graph c h = omega arith

digit→plain : (c : ℕ) → IsDigit c → IsPlain c
digit→plain c h = omega arith

decimal-IsPlain : (n : ℕ) → All IsPlain (decimal n)
decimal-IsPlain n = All-map digit→plain (decimal n) (decimal-IsDigit n)

show_bool-IsPlain : (b : Bool) → All IsPlain (show_bool b)
show_bool-IsPlain true = omega arith
show_bool-IsPlain false = omega arith

strip_token_parameters-plain : (s : Text) → All IsPlain s → strip_token_parameters s ≡ s
unfolding strip_token_parameters
strip_token_parameters-plain s h =
    rw (before-Lacks b';' s (All-map (λ c p. p.3) s h)) (trim-graph s (All-map plain→graph s h))

-- A plain part is applied as it stands.
apply_plain :
    (part : Text) (out : PreferDirectives)
    → All IsPlain part
    → apply_part (trim part) out ≡ done (apply_ci part out)
apply_plain part out h =
    rw (trim-graph part (All-map plain→graph part h))
      (apply_part-ascii part out (All-map plain→ascii part h))

pub parse_bool-show_bool : (b : Bool) → parse_bool (show_bool b) ≡ some b
unfolding parse_bool to_ascii_lowercase text_eq
parse_bool-show_bool true = refl
parse_bool-show_bool false = refl

module _ (v : Text) (out : PreferDirectives) (h : All IsPlain v) where
  code_part :
      (n : ℕ)
      → parse_uint max_u16 v ≡ some n
      → apply_ci (ascii "code=" ++ v) out ≡ record out { code = some n }
  unfolding apply_ci set_code
  code_part n e = rw (strip_token_parameters-plain v h, e)

  seed_part :
      (n : ℕ)
      → parse_uint max_u64 v ≡ some n
      → apply_ci (ascii "seed=" ++ v) out ≡ record out { seed = some n }
  unfolding apply_ci set_seed
  seed_part n e = rw (strip_token_parameters-plain v h, e)

  example_part : apply_ci (ascii "example=" ++ v) out ≡ record out { example = some v }
  unfolding apply_ci
  example_part = rw (strip_token_parameters-plain v h)

  dynamic_part :
      (b : Bool)
      → parse_bool v ≡ some b
      → apply_ci (ascii "dynamic=" ++ v) out ≡ record out { dynamic = some b }
  unfolding apply_ci
  dynamic_part b e = rw (strip_token_parameters-plain v h, e)

  validate_part :
      (b : Bool)
      → parse_bool v ≡ some b
      → apply_ci (ascii "validate=" ++ v) out ≡ record out { validate = some b }
  unfolding apply_ci
  validate_part b e = rw (strip_token_parameters-plain v h, e)

  security_part :
      (b : Bool)
      → parse_bool v ≡ some b
      → apply_ci (ascii "security=" ++ v) out ≡ record out { security = some b }
  unfolding apply_ci
  security_part b e = rw (strip_token_parameters-plain v h, e)

-- The parts of one directive, applied to a value where it is not set.
module _ (rest : List Text) (out : PreferDirectives) where
  code_parts :
      (o : Option ℕ)
      → ((n : ℕ) → o ≡ some n → n ≤ max_u16)
      → out.code ≡ none
      → apply_parts (part_of (ascii "code=") (shown decimal o) ++ rest) out
        ≡ apply_parts rest (record out { code = o })
  unfolding apply_parts
  code_parts none h e = ap (λ c. apply_parts rest (record out { code = c })) e
  code_parts (some n) h e = rw (
    apply_plain (ascii "code=" ++ decimal n) out
        (All-append IsPlain (ascii "code=") _ (omega arith) (decimal-IsPlain n)),
    code_part (decimal n) out (decimal-IsPlain n) n (parse_uint-decimal max_u16 n (h n refl)),
  )

  seed_parts :
      (o : Option ℕ)
      → ((n : ℕ) → o ≡ some n → n ≤ max_u64)
      → out.seed ≡ none
      → apply_parts (part_of (ascii "seed=") (shown decimal o) ++ rest) out
        ≡ apply_parts rest (record out { seed = o })
  unfolding apply_parts
  seed_parts none h e = ap (λ c. apply_parts rest (record out { seed = c })) e
  seed_parts (some n) h e = rw (
    apply_plain (ascii "seed=" ++ decimal n) out
        (All-append IsPlain (ascii "seed=") _ (omega arith) (decimal-IsPlain n)),
    seed_part (decimal n) out (decimal-IsPlain n) n (parse_uint-decimal max_u64 n (h n refl)),
  )

  example_parts :
      (o : Option Text)
      → ((v : Text) → o ≡ some v → All IsPlain v)
      → out.example ≡ none
      → apply_parts (part_of (ascii "example=") o ++ rest) out
        ≡ apply_parts rest (record out { example = o })
  unfolding apply_parts
  example_parts none h e = ap (λ c. apply_parts rest (record out { example = c })) e
  example_parts (some v) h e = rw (
    apply_plain (ascii "example=" ++ v) out
        (All-append IsPlain (ascii "example=") _ (omega arith) (h v refl)),
    example_part v out (h v refl),
  )

  dynamic_parts :
      (o : Option Bool)
      → out.dynamic ≡ none
      → apply_parts (part_of (ascii "dynamic=") (shown show_bool o) ++ rest) out
        ≡ apply_parts rest (record out { dynamic = o })
  unfolding apply_parts
  dynamic_parts none e = ap (λ c. apply_parts rest (record out { dynamic = c })) e
  dynamic_parts (some b) e = rw (
    apply_plain (ascii "dynamic=" ++ show_bool b) out
        (All-append IsPlain (ascii "dynamic=") _ (omega arith) (show_bool-IsPlain b)),
    dynamic_part (show_bool b) out (show_bool-IsPlain b) b (parse_bool-show_bool b),
  )

  validate_parts :
      (o : Option Bool)
      → out.validate ≡ none
      → apply_parts (part_of (ascii "validate=") (shown show_bool o) ++ rest) out
        ≡ apply_parts rest (record out { validate = o })
  unfolding apply_parts
  validate_parts none e = ap (λ c. apply_parts rest (record out { validate = c })) e
  validate_parts (some b) e = rw (
    apply_plain (ascii "validate=" ++ show_bool b) out
        (All-append IsPlain (ascii "validate=") _ (omega arith) (show_bool-IsPlain b)),
    validate_part (show_bool b) out (show_bool-IsPlain b) b (parse_bool-show_bool b),
  )

  security_parts :
      (o : Option Bool)
      → out.security ≡ none
      → apply_parts (part_of (ascii "security=") (shown show_bool o) ++ rest) out
        ≡ apply_parts rest (record out { security = o })
  unfolding apply_parts
  security_parts none e = ap (λ c. apply_parts rest (record out { security = c })) e
  security_parts (some b) e = rw (
    apply_plain (ascii "security=" ++ show_bool b) out
        (All-append IsPlain (ascii "security=") _ (omega arith) (show_bool-IsPlain b)),
    security_part (show_bool b) out (show_bool-IsPlain b) b (parse_bool-show_bool b),
  )

part_of-Lacks :
    (name : Text) (o : Option Text)
    → All IsPlain name
    → ((v : Text) → o ≡ some v → All IsPlain v)
    → All (Lacks b',') (part_of name o)
part_of-Lacks name none h k = tt
part_of-Lacks name (some v) h k =
    (All-map (λ c p. p.2) (name ++ v) (All-append IsPlain name v h (k v refl)), tt)

shown-IsPlain {ℓ} :
    {A : Type ℓ} (f : A → Text) (o : Option A) (v : Text)
    → ((a : A) → All IsPlain (f a))
    → shown f o ≡ some v
    → All IsPlain v
shown-IsPlain f none v h e = cc
shown-IsPlain f (some a) v h e = let p : f a ≡ v = cc in rw p at (h a)

parts_of-Lacks : (d : PreferDirectives) → IsPrintable d → All (Lacks b',') (parts_of d)
parts_of-Lacks d h =
    All-append _ _ _ (part_of-Lacks (ascii "code=") _ (omega arith) (number d.code)) (
      All-append _ _ _ (part_of-Lacks (ascii "example=") _ (omega arith) h.example) (
        All-append _ _ _ (part_of-Lacks (ascii "dynamic=") _ (omega arith) (flag d.dynamic)) (
          All-append _ _ _ (part_of-Lacks (ascii "seed=") _ (omega arith) (number d.seed)) (
            All-append _ _ _ (part_of-Lacks (ascii "validate=") _ (omega arith) (flag d.validate))
              (part_of-Lacks (ascii "security=") _ (omega arith) (flag d.security))))))
  where
    number : (o : Option ℕ) (v : Text) → shown decimal o ≡ some v → All IsPlain v
    number o v = shown-IsPlain decimal o v decimal-IsPlain

    flag : (o : Option Bool) (v : Text) → shown show_bool o ≡ some v → All IsPlain v
    flag o v = shown-IsPlain show_bool o v show_bool-IsPlain

apply_parts-nil : (out : PreferDirectives) → apply_parts [] out ≡ done out
unfolding apply_parts
apply_parts-nil out = refl

-- The loop over a joined header runs over what was joined.
apply_parts-join :
    (ps : List Text)
    → All (Lacks b',') ps
    → apply_parts (split b',' (join (ascii ",") ps)) default ≡ apply_parts ps default
apply_parts-join [] h = nothing
  where
    nothing : apply_parts (split b',' (join (ascii ",") [])) default ≡ apply_parts [] default
    nothing =
        unfold apply_parts split join in rw (apply_plain [] default tt) (unfold apply_ci in refl)
apply_parts-join (p ∷ ps) h = rw (split-join b',' p ps h)

-- Directives whose numbers fit their types and whose example name is plain are read back from the
-- header that lists them, one part for each directive that is set.
pub from_prefer_header-to_prefer_header :
    (d : PreferDirectives) → IsPrintable d → from_prefer_header (to_prefer_header d) ≡ done d
unfolding from_prefer_header
from_prefer_header-to_prefer_header d h =
    apply_parts-join (parts_of d) (parts_of-Lacks d h)
    ∙ code_parts _ default d.code h.code refl
    ∙ example_parts _ _ d.example h.example refl
    ∙ dynamic_parts _ _ d.dynamic refl
    ∙ seed_parts _ _ d.seed h.seed refl
    ∙ validate_parts _ _ d.validate refl
    ∙ rw (← append-nil (part_of (ascii "security=") (shown show_bool d.security)))
        (security_parts [] _ d.security refl)
    ∙ apply_parts-nil _
