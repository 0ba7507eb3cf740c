-- ===== src/Server/Metrics/Histogram.antt =====
-- The histograms of durations, one for each method, count durations.
use chasm.Prelude.{
  sym, ◌∙◌, length, ℕ, ◌≡◌, ◌+◌, ◌%◌, ◌^◌, List, [], ◌∷◌, map, Option, some, none, refl, arith, inl,
  inr, ap, Bool-cases, if◌then◌else◌,
}
use chasm.Text.{Text, get, text_eq, to_ascii_uppercase}
use chasm.Text.Laws.{text_eq_iff}
use chasm.Text.Dict.Laws.{get-insert}
use chasm.Server.Metrics.{
  HistogramSeries, Durations, bump, new_series, bump_buckets, observe, record_duration,
  histogram_buckets,
}

module _ (d : Durations) where
  -- The recordings of a list, each a method and a duration, one after the other.
  abbrev pub record_durations :
      List (Text × HistogramSeries d.S) → List (Text × d.S) → List (Text × HistogramSeries d.S)
  record_durations table [] = table
  record_durations table (r ∷ rs) = record_durations (record_duration d table r.0 r.1) rs

  -- The durations that are recorded under a method in upper case, in their order.
  abbrev pub durations_of : Text → List (Text × d.S) → List d.S
  durations_of name [] = []
  durations_of name (r ∷ rs) =
      let rest = durations_of name rs in
      if text_eq (to_ascii_uppercase r.0) name then r.1 ∷ rest else rest

  -- How many durations are at most a bound.
  abbrev pub within : d.S → List d.S → ℕ
  within b [] = 0
  within b (s ∷ ss) = (if d.le s b then 1 else 0) + within b ss

  -- The durations added one after the other.
  abbrev pub total : d.S → List d.S → d.S
  total x [] = x
  total x (s ∷ ss) = total (d.add x s) ss

  abbrev series_at : (d.S → ℕ) → ℕ → d.S → HistogramSeries d.S
  series_at tally n x = record {
    buckets = map (λ b. tally b % 2 ^ 64) (histogram_buckets d);
    count = n % 2 ^ 64;
    sum = x;
  }

  -- What a method's histogram says of its durations: how many are at most each bound of
  -- `histogram_buckets`, how many there are, and their sum.
  abbrev pub summary : List d.S → HistogramSeries d.S
  summary ss = series_at (λ b. within b ss) (length ss) (total d.zero ss)

  abbrev pub summary_of : List d.S → Option (HistogramSeries d.S)
  summary_of [] = none
  summary_of (s ∷ ss) = some (summary (s ∷ ss))

  zero_add : (n : ℕ) → 0 + n ≡ n
  zero_add n = omega arith

  add_zero : (n : ℕ) → n + 0 ≡ n
  add_zero n = omega arith

  bump-mod : (n : ℕ) → bump (n % 2 ^ 64) ≡ (1 + n) % 2 ^ 64
  bump-mod n = omega arith

  bump_buckets-map :
      (s : d.S) (tally : d.S → ℕ) (bs : List d.S)
      → bump_buckets d s bs (map (λ b. tally b % 2 ^ 64) bs)
        ≡ map (λ b. ((if d.le s b then 1 else 0) + tally b) % 2 ^ 64) bs
  unfolding bump_buckets
  bump_buckets-map s tally [] = refl
  bump_buckets-map s tally (b ∷ bs) = elim (Bool-cases (d.le s b)) [
    | inl y ↦ rw (bump_buckets-map s tally bs, y, bump-mod (tally b)) refl
    | inr o ↦ rw (bump_buckets-map s tally bs, o, zero_add (tally b)) refl
  ]

  abbrev observe_all : HistogramSeries d.S → List d.S → HistogramSeries d.S
  observe_all series [] = series
  observe_all series (s ∷ ss) = observe_all (observe d s series) ss

  observe-series_at :
      (s : d.S) (tally : d.S → ℕ) (n : ℕ) (x : d.S)
      → observe d s (series_at tally n x)
        ≡ series_at (λ b. (if d.le s b then 1 else 0) + tally b) (1 + n) (d.add x s)
  unfolding observe
  observe-series_at s tally n x =
      rw (bump_buckets-map s tally (histogram_buckets d), bump-mod n) refl

  observe_all-series_at :
      (ss : List d.S) (tally : d.S → ℕ) (n : ℕ) (x : d.S)
      → observe_all (series_at tally n x) ss
        ≡ series_at (λ b. within b ss + tally b) (length ss + n) (total x ss)
  observe_all-series_at [] tally n x =
      sym (λ i. series_at (λ b. zero_add (tally b) i) (zero_add n i) x)
  observe_all-series_at (s ∷ ss) tally n x =
      let swap : (b : d.S)
          → within b ss + ((if d.le s b then 1 else 0) + tally b) ≡ within b (s ∷ ss) + tally b =
        λ b. omega arith in
      let ih =
        observe_all-series_at ss (λ b. (if d.le s b then 1 else 0) + tally b) (1 + n) (d.add x s) in
      let lengths : length ss + (1 + n) ≡ length (s ∷ ss) + n = omega arith in
      rw (observe-series_at s tally n x)
        (ih ∙ (λ i. series_at (λ b. swap b i) (lengths i) (total (d.add x s) ss)))

  extend : Option (HistogramSeries d.S) → List d.S → Option (HistogramSeries d.S)
  extend (some series) ss = some (observe_all series ss)
  extend none [] = none
  extend none (s ∷ ss) = some (observe_all (observe d s (new_series d)) ss)

  extend-nil : (o : Option (HistogramSeries d.S)) → extend o [] ≡ o
  unfolding extend
  extend-nil (some series) = refl
  extend-nil none = refl

  extend-cons :
      (o : Option (HistogramSeries d.S)) (s : d.S) (ss : List d.S)
      → extend (some (observe d s (elim o [ none ↦ new_series d | some series ↦ series ]))) ss
        ≡ extend o (s ∷ ss)
  unfolding extend
  extend-cons (some series) s ss = refl
  extend-cons none s ss = refl

  get-record_durations :
      (table : List (Text × HistogramSeries d.S)) (rs : List (Text × d.S)) (name : Text)
      → get (record_durations table rs) name ≡ extend (get table name) (durations_of name rs)
  get-record_durations table [] name = sym (extend-nil (get table name))
  get-record_durations table (r ∷ rs) name =
      let upper = to_ascii_uppercase r.0 in
      let series : HistogramSeries d.S = elim (get table upper) [
        | none ↦ new_series d
        | some found ↦ found
      ] in
      let ih = get-record_durations (record_duration d table r.0 r.1) rs name in
      let step : get (record_duration d table r.0 r.1) name
          ≡ (if text_eq upper name then some (observe d r.1 series) else get table name) =
        unfold record_duration in get-insert table upper name (observe d r.1 series) in
      elim (Bool-cases (text_eq upper name)) [
        | inl y ↦
            let same : upper ≡ name = (text_eq_iff upper name).0 y in
            rw (ih, step, y, same) (extend-cons (get table name) r.1 (durations_of name rs))
        | inr o ↦ rw (ih, step, o) refl
      ]

  extend-eq-summary_of : (ss : List d.S) → extend none ss ≡ summary_of ss
  unfolding extend new_series get
  extend-eq-summary_of [] = refl
  extend-eq-summary_of (s ∷ ss) = ap some (
      observe_all-series_at (s ∷ ss) (λ b. 0) 0 d.zero ∙ (λ i.
        series_at (λ b. add_zero (within b (s ∷ ss)) i) (add_zero (length (s ∷ ss)) i)
          (total d.zero (s ∷ ss))))

  -- After any sequence of recordings from no histograms, each a method and a duration, there is no
  -- histogram for a method in upper case that has no recording, and otherwise the histogram has
  -- for each bound of `HISTOGRAM_BUCKETS` the number of the method's durations that are at most
  -- the bound, the number of its durations as the count, both modulo 2^64, and their sum.
  pub get-record_durations-nil :
      (rs : List (Text × d.S)) (name : Text)
      → get (record_durations [] rs) name ≡ summary_of (durations_of name rs)
  unfolding get
  get-record_durations-nil rs name =
      get-record_durations [] rs name ∙ extend-eq-summary_of (durations_of name rs)
