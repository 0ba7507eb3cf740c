-- ===== src/Server/Metrics.antt =====
-- crates/chasm-server/src/main.rs: counters and histograms. Each atomic step is one update; the
-- counts are of u64 and wrap.
pub mod Counts
pub mod Histogram
use chasm.Prelude.{
  ℕ, Bool, ◌&&◌, Option, some, none, List, [], ◌∷◌, ◌++◌, map, ◌+◌, ◌%◌, ◌^◌, ◌==◌, length,
  if◌then◌else◌,
}
use chasm.Text.{Text, ascii, text_eq, to_ascii_uppercase, get, insert}
use chasm.Validation.Errors.{ValidationError, location_str}

-- Method, route and status.
abbrev pub RequestKey : Type 0
RequestKey = Text × Text × ℕ

abbrev pub same_key : RequestKey → RequestKey → Bool
same_key a b = text_eq a.0 b.0 && (text_eq a.1 b.1 && a.2 == b.2)

-- `fetch_add(1)`.
abbrev pub bump : ℕ → ℕ
bump n = (n + 1) % 2 ^ 64

-- The counter of a key goes up by one, from zero where there is none.
unfoldable pub count_key : List (RequestKey × ℕ) → RequestKey → List (RequestKey × ℕ)
count_key [] key = (key, bump 0) ∷ []
count_key ((k, n) ∷ counters) key =
    let rest = count_key counters key in
    if same_key k key then (k, bump n) ∷ counters else (k, n) ∷ rest

unfoldable pub record_request : List (RequestKey × ℕ) → Text → Text → ℕ → List (RequestKey × ℕ)
record_request counters method route status =
    count_key counters (to_ascii_uppercase method, route, status)

-- The histogram of a method; `S` is the type of durations and sums.
pub record HistogramSeries (S : Type 0) : Type 0 where
  pub buckets : List ℕ
  pub count : ℕ
  pub sum : S

-- `f64`: addition, `<=`, zero and the number that a literal of the source stands for.
pub record Durations : Type 1 where
  pub S : Type 0
  pub add : S → S → S
  pub le : S → S → Bool
  pub zero : S
  pub literal : Text → S

module _ (d : Durations) where
  -- In seconds.
  abbrev pub histogram_buckets : List d.S
  histogram_buckets =
      map (λ t. d.literal (ascii t))
        ("0.005" ∷ "0.01" ∷ "0.05" ∷ "0.1" ∷ "0.5" ∷ "1.0" ∷ "5.0" ∷ [])

  abbrev pub zeros : List d.S → List ℕ
  zeros [] = []
  zeros (b ∷ bs) = 0 ∷ zeros bs

  unfoldable pub new_series : HistogramSeries d.S
  new_series = record { buckets = zeros histogram_buckets; count = 0; sum = d.zero }

  -- Each bucket whose bound is not below the duration counts it.
  unfoldable pub bump_buckets : d.S → List d.S → List ℕ → List ℕ
  bump_buckets seconds (b ∷ bs) (n ∷ ns) =
      (if d.le seconds b then bump n else n) ∷ bump_buckets seconds bs ns
  bump_buckets seconds _ ns = ns

  unfoldable pub observe : d.S → HistogramSeries d.S → HistogramSeries d.S
  observe seconds series = record {
    buckets = bump_buckets seconds histogram_buckets series.buckets;
    count = bump series.count;
    sum = d.add series.sum seconds;
  }

  unfoldable pub record_duration :
      List (Text × HistogramSeries d.S) → Text → d.S → List (Text × HistogramSeries d.S)
  record_duration table method seconds =
      let upper = to_ascii_uppercase method in
      insert table upper
        (observe seconds (elim (get table upper) [ none ↦ new_series | some series ↦ series ]))

unfoldable pub escape_label_value : Text → Text
escape_label_value [] = []
escape_label_value (c ∷ s) =
    let rest = escape_label_value s in
    if c == 92
    then 92 ∷ 92 ∷ rest
    else if c == 34
    then 92 ∷ 34 ∷ rest
    else if c == 10
    then 92 ∷ b'n' ∷ rest
    else c ∷ rest
