-- ===== src/Server/Requests/Query.antt =====
-- What the engine sees of the query string.
use chasm.Prelude.{
  ◌∙◌, true, false, ◌≡◌, Option, some, none, List, [], ◌∷◌, ◌++◌, refl, if◌then◌else◌, Bool-cases,
  inl, inr, ap, is_empty, unwrap_or,
}
use chasm.Text.{Text, ascii, get, insert, text_eq, split, split_once}
use chasm.Text.Laws.{text_eq_iff}
use chasm.Text.Dict.Laws.{get-insert}
use chasm.Server.Requests.{decode_part, add_pair, add_pairs, extract_query}
use chasm.Server.Requests.Merge.{beside, extend, merged, extend-none}

module _ (decode : Text → Option Text) where
  abbrev pub key_of : Text → Text
  key_of pair = decode_part decode (unwrap_or (split_once b'=' pair) (pair, [])).0

  abbrev pub value_of : Text → Text
  value_of pair = decode_part decode (unwrap_or (split_once b'=' pair) (pair, [])).1

  -- The decoded values of a key, in order; an empty pair has no key.
  abbrev pub values_under : Text → List Text → List Text
  values_under k [] = []
  values_under k (p ∷ ps) =
      if is_empty p
      then values_under k ps
      else if text_eq (key_of p) k
      then value_of p ∷ values_under k ps
      else values_under k ps

  joined : Option Text → Text → Text
  joined o v = elim o [ none ↦ v | some existing ↦ existing ++ (b',' ∷ v) ]

  joined-beside : (o : Option Text) (v : Text) → joined o v ≡ beside (ascii ",") false o v
  joined-beside none v = unfold joined in refl
  joined-beside (some w) v = unfold joined in refl

  add_pair-insert :
      (out : List (Text × Text)) (p : Text)
      → is_empty p ≡ false
      → add_pair decode out p ≡ insert out (key_of p) (joined (get out (key_of p)) (value_of p))
  unfolding add_pair joined
  add_pair-insert out p h = rw h refl

  add_pair-empty :
      (out : List (Text × Text)) (p : Text) → is_empty p ≡ true → add_pair decode out p ≡ out
  unfolding add_pair
  add_pair-empty out p h = rw h refl

  get-add_pairs :
      (out : List (Text × Text)) (ps : List Text) (k : Text)
      → get (add_pairs decode out ps) k ≡ extend (ascii ",") false (get out k) (values_under k ps)
  unfolding add_pairs
  get-add_pairs out [] k = refl
  get-add_pairs out (p ∷ ps) k =
      let ih = get-add_pairs (add_pair decode out p) ps k in
      elim (Bool-cases (is_empty p)) [
        | inl e ↦ rw (ih, add_pair-empty out p e, e) refl
        | inr e ↦
            let v = joined (get out (key_of p)) (value_of p) in
            elim (Bool-cases (text_eq (key_of p) k)) [
              | inl y ↦
                  let same : key_of p ≡ k = (text_eq_iff (key_of p) k).0 y in
                  let here : v ≡ beside (ascii ",") false (get out k) (value_of p) =
                    joined-beside (get out (key_of p)) (value_of p)
                    ∙ ap (λ x. beside (ascii ",") false (get out x) (value_of p)) same in
                  rw (ih, add_pair-insert out p e, get-insert out (key_of p) k v, e, y, here) refl
              | inr n ↦ rw (ih, add_pair-insert out p e, get-insert out (key_of p) k v, e, n) refl
            ]
      ]

  -- The engine sees under a key of the query string the values of the pairs whose decoded key it
  -- is, decoded and joined by commas in their order, and nothing where there are none; empty pairs
  -- are passed over.
  pub get-extract_query :
      (query k : Text)
      → get (extract_query decode query) k
        ≡ merged (ascii ",") false (values_under k (split b'&' query))
  unfolding extract_query get
  get-extract_query query k =
      get-add_pairs [] (split b'&' query) k
      ∙ extend-none (ascii ",") false (values_under k (split b'&' query))
