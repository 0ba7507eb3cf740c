-- ===== src/Engine/Headers/Laws.antt =====
-- The header lines of a response.
use chasm.Prelude.{
  All-append, false, Option, some, none, List, [], ◌∷◌, ◌++◌, ◌≡◌, inl, inr, All, Bool-cases,
}
use chasm.Engine.Headers.{
  Response, collect_response_headers, pick_header_value, ◌>>=◌, resolve_header_ref, object, array,
  string, number, bool, cons, Header, ReferenceOr, MockConfig, Value, Values, is_filtered_header,
  header_entries, collect, header_lines,
}
use chasm.OpenApi.{nil, null, Spec}
use chasm.Text.{Text}
use chasm.Engine.Faker.{Services}

-- No line has a name that the server computes itself.
abbrev pub Sendable : List (Text × Text) → Type 0
Sendable = All (λ l. is_filtered_header l.0 ≡ false)

module _ (env : Services) (spec : Spec) where
  header_lines-Sendable :
      (name : Text) (vs : Values)
      → is_filtered_header name ≡ false
      → Sendable (header_lines env name vs)
  unfolding header_lines
  header_lines-Sendable name nil h = tt
  header_lines-Sendable name (cons v vs) h = (h, header_lines-Sendable name vs h)

  header_entries-Sendable :
      (name : Text) (v : Value)
      → is_filtered_header name ≡ false
      → Sendable (header_entries env name v)
  unfolding header_entries
  header_entries-Sendable name null h = (h, tt)
  header_entries-Sendable name (bool b) h = (h, tt)
  header_entries-Sendable name (number n) h = (h, tt)
  header_entries-Sendable name (string s) h = (h, tt)
  header_entries-Sendable name (array vs) h = header_lines-Sendable name vs h
  header_entries-Sendable name (object m) h = (h, tt)

  collect-Sendable :
      (cfg : MockConfig) (headers : List (Text × ReferenceOr Header))
      → Sendable (collect env spec cfg headers)
  unfolding collect
  collect-Sendable cfg [] = tt
  collect-Sendable cfg ((name, r) ∷ headers) = elim (Bool-cases (is_filtered_header name)) [
    | inl q ↦ rw q (collect-Sendable cfg headers)
    | inr q ↦ rw q (
        go (resolve_header_ref spec r >>= pick_header_value env spec cfg) q
          (collect-Sendable cfg headers))
  ]
    where
      go :
          (o : Option Value)
          → is_filtered_header name ≡ false
          → Sendable (collect env spec cfg headers)
          → Sendable (elim o as (λ _. List (Text × Text)) [
            | none ↦ collect env spec cfg headers
            | some v ↦ header_entries env name v ++ collect env spec cfg headers
          ])
      go none q ih = ih
      go (some v) q ih =
          All-append _ (header_entries env name v) _ (header_entries-Sendable name v q) ih

  pub collect_response_headers-Sendable :
      (cfg : MockConfig) (response : Response)
      → Sendable (collect_response_headers env spec cfg response)
  unfolding collect_response_headers
  collect_response_headers-Sendable cfg response = collect-Sendable cfg response.headers
