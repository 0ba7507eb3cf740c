-- ===== src/Prefer/Precedence.antt =====
-- A request's directives: those of the query before those of the header.
use chasm.Prelude.{
  ◌↔◌, ℕ, ◌≤◌, ◌≡◌, ◌≢◌, refl, true, Option, some, none, List, [], ◌∷◌, ◌++◌, inl, inr, Bool-cases,
  find_first, All,
}
use chasm.Prelude.Run.{done}
use chasm.Text.{Text, ascii, get, parse_uint, decimal, eq_ignore_ascii_case, to_ascii_lowercase}
use chasm.Text.Laws.{text_eq_iff}
use chasm.Text.Number.Laws.{parse_uint-decimal}
use chasm.Prefer.{
  PreferDirectives, max_u16, max_u64, parse_bool, from_query, merge_query_over_header, from_request,
  or,
}
use chasm.Prefer.Roundtrip.{
  show_bool, shown, to_prefer_header, IsPrintable, parse_bool-show_bool,
  from_prefer_header-to_prefer_header,
}

-- The query has the directives that are set, each printed under its key, and no other directive.
pub record Lists (query : List (Text × Text)) (d : PreferDirectives) : Type 0 where
  pub code : get query (ascii "__code") ≡ shown decimal d.code
  pub example : get query (ascii "__example") ≡ d.example
  pub dynamic : get query (ascii "__dynamic") ≡ shown show_bool d.dynamic
  pub seed : get query (ascii "__seed") ≡ shown decimal d.seed
  pub validate : get query (ascii "__validate") ≡ shown show_bool d.validate
  pub security : get query (ascii "__security") ≡ shown show_bool d.security

-- The value is the first option's where it has one, and otherwise what the second option is.
abbrev pub Prefers {ℓ} : {A : Type ℓ} → Option A → Option A → Option A → Type ℓ
Prefers first second out = ((a : _) → first ≡ some a → out ≡ some a) × (first ≡ none → out ≡ second)

pub record IsCombined (query header out : PreferDirectives) : Type 0 where
  pub code : Prefers query.code header.code out.code
  pub example : Prefers query.example header.example out.example
  pub dynamic : Prefers query.dynamic header.dynamic out.dynamic
  pub seed : Prefers query.seed header.seed out.seed
  pub validate : Prefers query.validate header.validate out.validate
  pub security : Prefers query.security header.security out.security

read_number :
    (limit : ℕ) (o : Option ℕ)
    → ((n : ℕ) → o ≡ some n → n ≤ limit)
    → elim (shown decimal o) [ none ↦ none | some v ↦ parse_uint limit v ] ≡ o
read_number limit none h = refl
read_number limit (some n) h = parse_uint-decimal limit n (h n refl)

read_flag : (o : Option _) → elim (shown show_bool o) [ none ↦ none | some v ↦ parse_bool v ] ≡ o
read_flag none = refl
read_flag (some b) = parse_bool-show_bool b

from_query-Lists :
    (query : List (Text × Text)) (q : PreferDirectives)
    → ((n : ℕ) → q.code ≡ some n → n ≤ max_u16)
    → ((n : ℕ) → q.seed ≡ some n → n ≤ max_u64)
    → Lists query q
    → from_query query ≡ q
unfolding from_query
from_query-Lists query q code seed l =
    rw
      (
        l.code,
        l.example,
        l.dynamic,
        l.seed,
        l.validate,
        l.security,
        read_number max_u16 q.code code,
        read_number max_u64 q.seed seed,
        read_flag q.dynamic,
        read_flag q.validate,
        read_flag q.security,
      )
      refl

merge-IsCombined : (h q : PreferDirectives) → IsCombined q h (merge_query_over_header h q)
unfolding merge_query_over_header
merge-IsCombined h q = record {
  code = pick q.code h.code;
  example = pick q.example h.example;
  dynamic = pick q.dynamic h.dynamic;
  seed = pick q.seed h.seed;
  validate = pick q.validate h.validate;
  security = pick q.security h.security;
}
  where
    pick : {A : Type 0} (first second : Option A) → Prefers first second (or first second)
    pick none second = ((λ a e. cc), (λ e. refl))
    pick (some a) second = ((λ b e. e), (λ e. cc))

is_prefer_iff :
    (s : Text)
    → (eq_ignore_ascii_case s (ascii "prefer") ≡ true) ↔ (to_ascii_lowercase s ≡ ascii "prefer")
unfolding eq_ignore_ascii_case to_ascii_lowercase
is_prefer_iff s = text_eq_iff (to_ascii_lowercase s) (ascii "prefer")

find_prefer :
    (front back : List (Text × Text)) (name value : Text)
    → All (λ e. to_ascii_lowercase e.0 ≢ ascii "prefer") front
    → to_ascii_lowercase name ≡ ascii "prefer"
    → find_first (λ e. eq_ignore_ascii_case e.0 (ascii "prefer")) (front ++ (name, value) ∷ back)
      ≡ some (name, value)
find_prefer [] back name value h e = rw ((is_prefer_iff name).1 e) refl
find_prefer (f ∷ front) back name value (n, h) e =
    elim (Bool-cases (eq_ignore_ascii_case f.0 (ascii "prefer"))) [
      | inl y ↦ absurd (n ((is_prefer_iff f.0).0 y))
      | inr o ↦ rw o (find_prefer front back name value h e)
    ]

-- Where the first `Prefer` header of a request, whatever the case of the name's letters, is
-- printed from directives whose numbers fit their types and whose example name is plain, and the
-- query lists directives whose numbers fit their types, and no other directives, each directive
-- of the query is the request's, and where the query lacks it the request's is the header's.
pub from_request-IsCombined :
    (front back query : List (Text × Text)) (name : Text) (h q : PreferDirectives)
    → All (λ e. to_ascii_lowercase e.0 ≢ ascii "prefer") front
    → to_ascii_lowercase name ≡ ascii "prefer"
    → IsPrintable h
    → ((n : ℕ) → q.code ≡ some n → n ≤ max_u16)
    → ((n : ℕ) → q.seed ≡ some n → n ≤ max_u64)
    → Lists query q
    → (out : PreferDirectives) × (from_request (front ++ (name, to_prefer_header h) ∷ back) query
        ≡ done out)
      × IsCombined q h out
unfolding from_request
from_request-IsCombined front back query name h q others here ph code seed l = (
  merge_query_over_header h q,
  rw
      (
        find_prefer front back name (to_prefer_header h) others here,
        from_prefer_header-to_prefer_header h ph,
        from_query-Lists query q code seed l,
      )
      refl,
  merge-IsCombined h q,
)
