-- ===== src/Server/Metrics/Counts.antt =====
-- The counters of requests count requests.
use mathlib.Core.Bool.{false≢true, and-eq-true_iff}
use chasm.Prelude.{
  sym, ◌∙◌, ◌==◌, ◌&&◌, ℕ, true, false, ◌≡◌, ◌<◌, ◌+◌, ◌%◌, ◌^◌, List, [], ◌∷◌, refl, arith, inl,
  inr, Bool-cases, if◌then◌else◌, ==_iff,
}
use chasm.Text.{Text, to_ascii_uppercase, text_eq}
use chasm.Text.Laws.{text_eq_refl, text_eq_iff}
use chasm.Server.Metrics.{RequestKey, same_key, bump, count_key, record_request}

-- The value of a key's counter, zero where there is none.
abbrev pub count_of : List (RequestKey × ℕ) → RequestKey → ℕ
count_of [] key = 0
count_of ((k, n) ∷ counters) key = if same_key k key then n else count_of counters key

-- The requests of a list, each a method, a route and a status, recorded one after the other.
abbrev pub record_all : List (RequestKey × ℕ) → List (Text × Text × ℕ) → List (RequestKey × ℕ)
record_all counters [] = counters
record_all counters (r ∷ rs) = record_all (record_request counters r.0 r.1 r.2) rs

abbrev pub occurrences : RequestKey → List (Text × Text × ℕ) → ℕ
occurrences key [] = 0
occurrences key (r ∷ rs) =
    (if same_key (to_ascii_uppercase r.0, r.1, r.2) key then 1 else 0) + occurrences key rs

same_key_sound : (a b : RequestKey) → same_key a b ≡ true → a ≡ b
same_key_sound (m, r, s) (m', r', s') h =
    let p = (and-eq-true_iff (text_eq m m') (text_eq r r' && s == s')).0 h in
    let q = (and-eq-true_iff (text_eq r r') (s == s')).0 p.1 in
    let em = (text_eq_iff m m').0 p.0 in
    let er = (text_eq_iff r r').0 q.0 in let es = (==_iff s s').0 q.1 in rw (em, er, es) refl

same_key_refl : (a : RequestKey) → same_key a a ≡ true
same_key_refl (m, r, s) = rw (text_eq_refl m, text_eq_refl r) ((==_iff s s).1 refl)

apart :
    (j key k : RequestKey) → same_key j key ≡ false → same_key j k ≡ true → same_key key k ≡ false
apart j key k o q = elim (Bool-cases (same_key key k)) [
  | inl z ↦
      let same : j ≡ key = same_key_sound j k q ∙ sym (same_key_sound key k z) in
      let no : same_key j j ≡ false = rw (← same) at o in
      absurd (false≢true (sym no ∙ same_key_refl j))
  | inr z ↦ z
]

count_of-count_key :
    (counters : List (RequestKey × ℕ)) (key k : RequestKey)
    → count_of (count_key counters key) k
      ≡ (if same_key key k then bump (count_of counters k) else count_of counters k)
unfolding count_key
count_of-count_key [] key k = refl
count_of-count_key ((j, n) ∷ counters) key k = elim (Bool-cases (same_key j key)) [
  | inl y ↦ let same : j ≡ key = same_key_sound j key y in rw (y, ← same) (ground arith)
  | inr o ↦ elim (Bool-cases (same_key j k)) [
    | inl q ↦ rw (o, q, apart j key k o q) refl
    | inr q ↦ rw (o, q) (count_of-count_key counters key k)
  ]
]

count_of-record_all :
    (counters : List (RequestKey × ℕ)) (rs : List (Text × Text × ℕ)) (k : RequestKey)
    → count_of counters k < 2 ^ 64
    → count_of (record_all counters rs) k ≡ (count_of counters k + occurrences k rs) % 2 ^ 64
count_of-record_all counters [] k h = omega arith
count_of-record_all counters (r ∷ rs) k h =
    let key : RequestKey = (to_ascii_uppercase r.0, r.1, r.2) in
    let step = count_of-count_key counters key k in
    elim (Bool-cases (same_key key k)) [
      | inl y ↦
          let now : count_of (record_request counters r.0 r.1 r.2) k
              ≡ (count_of counters k + 1) % 2 ^ 64 =
            unfold record_request in (rw y at step) in
          let ih = count_of-record_all (record_request counters r.0 r.1 r.2) rs k (omega arith) in
          rw (ih, now, y) (omega arith)
      | inr o ↦
          let now : count_of (record_request counters r.0 r.1 r.2) k ≡ count_of counters k =
            unfold record_request in (rw o at step) in
          let ih = count_of-record_all (record_request counters r.0 r.1 r.2) rs k (omega arith) in
          rw (ih, now, o) (omega arith)
    ]

-- After any sequence of requests is recorded from no counters, the counter of a method in upper
-- case, a route and a status is the number of the requests with them, modulo 2^64.
pub count_of-record_all-nil :
    (rs : List (Text × Text × ℕ)) (k : RequestKey)
    → count_of (record_all [] rs) k ≡ occurrences k rs % 2 ^ 64
count_of-record_all-nil rs k = let h = count_of-record_all [] rs k (omega arith) in omega arith
