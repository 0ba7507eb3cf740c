-- ===== src/Router/Outcome.antt =====
-- What the router returns, on every branch, as a relation between the document's paths and the
-- outcome.
use chasm.Text.Laws.{text_eq_iff}
use native.Mathlib.Nat.{le_trans}
use chasm.Router.Selection.{try_candidates-eq-settle, settle, first_match}
use chasm.Router.Template.{count_literal_segments}
use chasm.Router.Methods.{allow_header_for_path_item_with_strict, allow_header_for_path_item}
use chasm.Text.{to_ascii_uppercase, text_eq, ascii, Text}
use chasm.OpenApi.{Operation, reference, item, Spec, PathItem}
use chasm.Router.{
  note_mismatch, search_start, route_request_with_strict, try_paths, conclude, is_better,
  note_match, synthesised_options, serving_operation, operation, not_found, method_not_allowed,
  candidate_paths_for_operation, Search, RouteMatch, MatchedOperation,
}
use Prim.Native.Nat.{suc-le-suc}
use chasm.Prelude.{
  not, ◌&&◌, inr, inl, ltb, append-nil, Bool-cases, if◌then◌else◌, arith, sym, ◌⊎◌, ◌≤◌, ◌≢◌, ◌≡◌,
  ◌∷◌, ◌∙◌, ℕ, true, some, refl, or, none, is_some, false, append_assoc, ap, [], Option, List, Bool,
  All-append, All, ◌<◌, ◌++◌,
}
use chasm.Router.Entries.{Entry, Split, All-imp, extend, at_end}

module _ (decode : Text → Option Text) (spec : Spec) (upper : Text) (strict : Bool)
    (path : Text) where
  -- The parameters with which a candidate path of an item matches its template.
  abbrev pub bindings : Text → PathItem → Option (List (Text × Text))
  bindings template i =
      first_match decode template (candidate_paths_for_operation spec i upper path)

  -- The path matches and an operation serves the method.
  pub Hit : ℕ → MatchedOperation → Entry → Type 0
  Hit n m (template, reference r) = ⊥
  Hit n m (template, item i) =
      (bindings template i ≡ some m.path_params)
      × (serving_operation i upper strict ≡ some m.operation)
      × (n ≡ count_literal_segments template)
      × (m.path_template ≡ template)

  -- The path matches the item and no operation serves the method.
  pub Mismatch : PathItem → Entry → Type 0
  Mismatch i (template, reference r) = ⊥
  Mismatch i (template, item j) =
      (i ≡ j) × (bindings template j ≢ none) × (serving_operation j upper strict ≡ none)

  abbrev pub NoHit : Entry → Type 0
  NoHit e = (n : ℕ) (m : MatchedOperation) → ¬ Hit n m e

  abbrev pub NoMismatch : Entry → Type 0
  NoMismatch e = (i : PathItem) → ¬ Mismatch i e

  -- Every hit here has fewer literal segments than `n`, or at most `n`.
  abbrev pub Below : ℕ → Entry → Type 0
  Below n e = (k : ℕ) (m : MatchedOperation) → Hit k m e → k < n

  abbrev pub AtMost : ℕ → Entry → Type 0
  AtMost n e = (k : ℕ) (m : MatchedOperation) → Hit k m e → k ≤ n

  -- The first of the hits with the most literal segments.
  abbrev pub IsBest : List Entry → ℕ → MatchedOperation → Type 0
  IsBest es n m = Split (Hit n m) (Below n) (AtMost n) es

  -- The first path item that matches the path alone.
  abbrev pub IsFirstMismatch : List Entry → PathItem → Type 0
  IsFirstMismatch es i = Split (Mismatch i) NoMismatch (λ _. Unit) es

  -- The four outcomes.
  pub data Routes (es : List Entry) : RouteMatch → Type 0 where
    served : {n : ℕ} {m : MatchedOperation} → IsBest es n m → Routes es (operation m)
    preflight :
        (i : PathItem)
        → All NoHit es
        → IsFirstMismatch es i
        → upper ≡ ascii "OPTIONS"
        → strict ≡ false
        → Routes es (synthesised_options (allow_header_for_path_item i))
    refused :
        (i : PathItem)
        → All NoHit es
        → IsFirstMismatch es i
        → (upper ≢ ascii "OPTIONS") ⊎ (strict ≡ true)
        → Routes es (method_not_allowed (allow_header_for_path_item_with_strict i strict))
    missing : All NoHit es → All NoMismatch es → Routes es not_found

  abbrev BestOf : List Entry → Option (ℕ × MatchedOperation) → Type 0
  BestOf es none = All NoHit es
  BestOf es (some (n, m)) = IsBest es n m

  abbrev FirstOf : List Entry → Option PathItem → Type 0
  FirstOf es none = All NoMismatch es
  FirstOf es (some i) = IsFirstMismatch es i

  -- What the search knows of the entries that it has seen.
  record Knows (es : List Entry) (st : Search) : Type 0 where
    best : BestOf es st.best
    first : FirstOf es st.best_path_item
    flag : st.method_not_allowed_seen ≡ is_some st.best_path_item

  module _ (es : List Entry) (e : Entry) where
    BestOf-nohit :
        (o : Option (ℕ × MatchedOperation)) → NoHit e → BestOf es o → BestOf (es ++ e ∷ []) o
    BestOf-nohit none h b = All-append NoHit es (e ∷ []) b (h, tt)
    BestOf-nohit (some (n, m)) h b = extend es e (λ k m' hit. absurd (h k m' hit)) b

    FirstOf-nomismatch :
        (o : Option PathItem) → NoMismatch e → FirstOf es o → FirstOf (es ++ e ∷ []) o
    FirstOf-nomismatch none h f = All-append NoMismatch es (e ∷ []) f (h, tt)
    FirstOf-nomismatch (some i) h f = extend es e tt f

    FirstOf-Mismatch :
        (o : Option PathItem) (i : PathItem)
        → Mismatch i e
        → FirstOf es o
        → FirstOf (es ++ e ∷ []) (or o (some i))
    FirstOf-Mismatch none i h f = at_end es e h f
    FirstOf-Mismatch (some j) i h f = extend es e tt f

  Hit-unique : (e : Entry) (j k : ℕ) (m m' : MatchedOperation) → Hit j m e → Hit k m' e → j ≡ k
  unfolding Hit
  Hit-unique (template, reference r) j k m m' h h' = elim h [ ]
  Hit-unique (template, item i) j k m m' h h' = h.2 ∙ sym h'.2

  -- A better hit leaves every hit before it below.
  IsBest-Below :
      (es : List Entry) (j k : ℕ) (m : MatchedOperation) → IsBest es j m → j < k → All (Below k) es
  IsBest-Below es j k m b lt = rw b.whole (
      All-append (Below k) b.before (b.here ∷ b.after)
        (All-imp (λ e f i m' h. le_trans (f i m' h) (omega arith)) b.before b.earlier)
        (
          λ i m' h. rw (Hit-unique b.here i j m' m h b.holds) lt,
          All-imp (λ e f i m' h. le_trans (suc-le-suc (f i m' h)) lt) b.after b.later,
        ))

  BestOf-Hit :
      (es : List Entry) (e : Entry) (o : Option (ℕ × MatchedOperation)) (n : ℕ)
      (m : MatchedOperation)
      → Hit n m e
      → BestOf es o
      → BestOf (es ++ e ∷ []) (if is_better o n then some (n, m) else o)
  unfolding is_better
  BestOf-Hit es e none n m h b = at_end es e h (All-imp (λ x f k m' g. absurd (f k m' g)) es b)
  BestOf-Hit es e (some (k, m')) n m h b = elim (Bool-cases (ltb k n)) [
    | inl lt ↦ rw lt (at_end es e h (IsBest-Below es k n m' b (ground arith)))
    | inr le ↦
        rw le (extend es e (λ j x g. let same = Hit-unique e j n x m g h in ground (arith, same)) b)
  ]

  best-note_match :
      (n : ℕ) (m : MatchedOperation) (st : Search)
      → (note_match n m st).best ≡ (if is_better st.best n then some (n, m) else st.best)
  unfolding note_match
  best-note_match n m st = elim (Bool-cases (is_better st.best n)) [ inl e ↦ rw e | inr e ↦ rw e ]

  item-note_match :
      (n : ℕ) (m : MatchedOperation) (st : Search)
      → (note_match n m st).best_path_item ≡ st.best_path_item
  unfolding note_match
  item-note_match n m st = elim (Bool-cases (is_better st.best n)) [ inl e ↦ rw e | inr e ↦ rw e ]

  flag-note_match :
      (n : ℕ) (m : MatchedOperation) (st : Search)
      → (note_match n m st).method_not_allowed_seen ≡ st.method_not_allowed_seen
  unfolding note_match
  flag-note_match n m st = elim (Bool-cases (is_better st.best n)) [ inl e ↦ rw e | inr e ↦ rw e ]

  settle-Knows :
      (es : List Entry) (template : Text) (i : PathItem) (b : Option (List (Text × Text)))
      (s : Option Operation) (st : Search)
      → bindings template i ≡ b
      → serving_operation i upper strict ≡ s
      → Knows es st
      → Knows (es ++ (template, item i) ∷ []) (settle decode upper strict template i b s st)
  unfolding settle Hit Mismatch note_mismatch
  settle-Knows es template i none s st p q k = record {
    best = BestOf-nohit es _ st.best (λ n m h. cc (h.0, p)) k.best;
    first = FirstOf-nomismatch es _ st.best_path_item (λ j h. h.1 p) k.first;
    flag = k.flag;
  }
  settle-Knows es template i (some params) none st p q k = record {
    best = BestOf-nohit es _ st.best (λ n m h. cc (h.1, q)) k.best;
    first = FirstOf-Mismatch es _ st.best_path_item i (refl, (λ e. cc (e, p)), q) k.first;
    flag = go st.best_path_item;
  }
    where
      go : (o : Option PathItem) → true ≡ is_some (or o (some i))
      go none = refl
      go (some j) = refl
  settle-Knows es template i (some params) (some op) st p q k = record {
    best =
        rw best-note_match (BestOf-Hit es (template, item i) st.best _ _ (p, q, refl, refl) k.best);
    first =
        rw item-note_match (FirstOf-nomismatch es _ st.best_path_item (λ j h. cc (h.2, q)) k.first);
    flag = rw (flag-note_match, item-note_match) k.flag;
  }

  skip-Knows :
      (es : List Entry) (template r : Text) (st : Search)
      → Knows es st
      → Knows (es ++ (template, reference r) ∷ []) st
  unfolding Hit Mismatch
  skip-Knows es template r st k = record {
    best = BestOf-nohit es _ st.best (λ n m h. h) k.best;
    first = FirstOf-nomismatch es _ st.best_path_item (λ j h. h) k.first;
    flag = k.flag;
  }

  try_paths-item :
      (template : Text) (i : PathItem) (es : List Entry) (st : Search)
      → try_paths decode upper strict spec path ((template, item i) ∷ es) st
        ≡ try_paths decode upper strict spec path es (
            settle decode upper strict template i
              (bindings template i)
              (serving_operation i upper strict)
              st)
  unfolding try_paths
  try_paths-item template i es st = ap (try_paths decode upper strict spec path es) (
      try_candidates-eq-settle decode upper strict template i
        (candidate_paths_for_operation spec i upper path) st)

  try_paths-reference :
      (template r : Text) (es : List Entry) (st : Search)
      → try_paths decode upper strict spec path ((template, reference r) ∷ es) st
        ≡ try_paths decode upper strict spec path es st
  unfolding try_paths
  try_paths-reference template r es st = refl

  try_paths-nil : (st : Search) → try_paths decode upper strict spec path [] st ≡ st
  unfolding try_paths
  try_paths-nil st = refl

  try_paths-Knows :
      (es es' : List Entry) (st : Search)
      → Knows es st
      → Knows (es ++ es') (try_paths decode upper strict spec path es' st)
  try_paths-Knows es [] st k = rw (append-nil es, try_paths-nil st) k
  try_paths-Knows es ((template, reference r) ∷ es') st k =
      rw
        (
          ← append_assoc es ((template, reference r) ∷ []) es',
          try_paths-reference template r es' st,
        )
        (try_paths-Knows (es ++ (template, reference r) ∷ []) es' st
          (skip-Knows es template r st k))
  try_paths-Knows es ((template, item i) ∷ es') st k =
      rw (← append_assoc es ((template, item i) ∷ []) es', try_paths-item template i es' st)
        (try_paths-Knows (es ++ (template, item i) ∷ []) es' _
          (settle-Knows es template i _ _ st refl refl k))

  conclude-Routes :
      (es : List Entry) (o : Option (ℕ × MatchedOperation)) (f : Option PathItem) (g : Bool)
      → BestOf es o
      → FirstOf es f
      → g ≡ is_some f
      → Routes es (
          conclude upper strict
            (record { best = o; best_path_item = f; method_not_allowed_seen = g }))
  unfolding conclude
  conclude-Routes es (some (n, m)) f g b k e = served b
  conclude-Routes es none none g b k e =
      rw e (elim (Bool-cases (text_eq upper (ascii "OPTIONS") && not strict && false)) [
        | inl x ↦ rw x (missing b k)
        | inr x ↦ rw x (missing b k)
      ])
  conclude-Routes es none (some i) g b k e =
      rw e (elim (Bool-cases (text_eq upper (ascii "OPTIONS") && not strict && true)) [
        | inl x ↦
            rw x
              (preflight i b k (ground (arith, text_eq_iff upper (ascii "OPTIONS"))) (ground arith))
        | inr x ↦ rw x (refused i b k (ground (arith, text_eq_iff upper (ascii "OPTIONS"))))
      ])

  Knows-start : Knows [] search_start
  Knows-start = record { best = tt; first = tt; flag = refl }

-- Whatever the request, the router's outcome is one of these. An operation: the item of the first
-- path, among those that match the request's path and serve its method, with the most literal
-- segments. A preflight answer, to `OPTIONS` outside strict mode, or else a refusal of the method:
-- no path serves the request, and the header lists the methods of the first path that matches.
-- Not found: no path matches.
pub route_request_with_strict-Routes :
    (decode : Text → Option Text) (spec : Spec) (method path : Text) (strict : Bool)
    → Routes decode spec
        (to_ascii_uppercase method)
        strict
        path
        spec.paths
        (route_request_with_strict decode spec method path strict)
unfolding route_request_with_strict
route_request_with_strict-Routes decode spec method path strict =
    let upper = to_ascii_uppercase method in
    let k =
      try_paths-Knows decode spec upper strict path [] spec.paths search_start
        (Knows-start decode spec upper strict path) in
    conclude-Routes decode spec upper strict path spec.paths _ _ _ k.best k.first k.flag
