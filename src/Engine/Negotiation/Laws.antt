-- ===== src/Engine/Negotiation/Laws.antt =====
-- What the negotiation answers to an `Accept` header.
use chasm.Engine.Negotiation.Best.{
  ArePositive, parse_ranges-ArePositive, sort_ranges-All_onto, sort_ranges-Any, Any-map,
  sort_ranges-IsSorted,
}
use mathlib.Core.Path.{subst}
use chasm.Engine.Negotiation.Accept.{CoversNone}
use chasm.Engine.Negotiation.Best.{
  try_ranges-eq-none, sort_ranges-All, try_ranges_sound, BestFor, IsOrder,
}
use chasm.Engine.Negotiation.{
  valid_keys, not_acceptable, selected, ContentNegotiation, find_header, ascii, sort_ranges,
  MockRequest, split, try_ranges, MediaType, parse_ranges, Text, negotiate_content_type, Quality,
}
use chasm.Prelude.{
  Option, some, none, is_empty, List, [], ◌∷◌, if◌then◌else◌, ◌≡◌, ◌≢◌, refl, ◌⊎◌, inl, inr, All,
  Any,
}
use chasm.Prelude.{Any}

module _ (quality : Quality) (order : IsOrder quality) where
  -- The ranges that a header offers.
  abbrev pub offered : Text → List (Text × quality.F64)
  offered accept = parse_ranges quality (split b',' accept)

  -- Of the keys that can be media types one is chosen which the best of the ranges that cover any
  -- key covers, or `application/json` where there is no such key.
  abbrev pub Chosen : List Text → Text → Text → Type 0
  Chosen keys accept ct =
      (Any (BestFor quality keys ct (offered accept)) (offered accept) × Any (λ k. k ≡ ct) keys)
      ⊎ ((keys ≡ []) × (ct ≡ ascii "application/json"))

  -- The keys are refused, of which there is one, where no range covers any.
  abbrev pub Refused : List Text → Text → List Text → Type 0
  Refused keys accept ks =
      (ks ≡ keys) × (keys ≢ []) × All (λ e. CoversNone e.0 keys) (offered accept)

  positive : (accept : Text) → ArePositive quality (offered accept)
  positive accept = parse_ranges-ArePositive quality (split b',' accept)

  try_ranges-Chosen :
      (keys : List Text) (accept ct : Text)
      → try_ranges quality keys (sort_ranges quality (offered accept)) ≡ some ct
      → Chosen keys accept ct
  try_ranges-Chosen keys accept ct e =
      let (b, m) =
        try_ranges_sound quality order keys (sort_ranges quality (offered accept)) ct
          (sort_ranges-All_onto quality _ (offered accept) (positive accept))
          (sort_ranges-IsSorted quality order (offered accept) (positive accept)) e in
      inl (
        Any-map quality (BestFor quality keys ct (sort_ranges quality (offered accept)))
            (BestFor quality keys ct (offered accept)) (offered accept)
            (λ f p. (p.0, sort_ranges-All quality _ (offered accept) p.1))
            (sort_ranges-Any quality _ (offered accept) b),
        m,
      )

  decided :
      (keys : List Text) (accept : Text) (o : Option Text)
      → try_ranges quality keys (sort_ranges quality (offered accept)) ≡ o
      → (c : ContentNegotiation)
      → (elim o as (λ _. ContentNegotiation) [
        | some ct ↦ selected ct
        | none ↦ if is_empty keys then selected (ascii "application/json") else not_acceptable keys
      ])
        ≡ c
      → ((ct : Text) → c ≡ selected ct → Chosen keys accept ct)
        × ((ks : List Text) → c ≡ not_acceptable ks → Refused keys accept ks)
  decided keys accept (some x) q c e = (
    (λ ct h.
        let i : x ≡ ct = cc in subst (Chosen keys accept) i (try_ranges-Chosen keys accept x q)),
    (λ ks h. cc),
  )
  decided [] accept none q c e = ((λ ct h. inr (refl, cc)), (λ ks h. cc))
  decided (k ∷ keys) accept none q c e = (
    (λ ct h. cc),
    (λ ks h. (
      cc,
      (λ n. cc),
      sort_ranges-All quality _ (offered accept)
          (try_ranges-eq-none quality (k ∷ keys) (sort_ranges quality (offered accept)) q),
    )),
  )

-- Where an `Accept` header is given and the qualities above zero are ordered, the media type that is selected
-- is a plausible key covered by a range of which no better one covers any key, or `application/json`
-- where no key is plausible; and a refusal lists the plausible keys, of which there is one and none
-- of them covered by a range of a quality above zero.
pub negotiate_content_type_lem :
    (quality : Quality) (order : IsOrder quality) (content : List (Text × MediaType))
    (req : MockRequest) (accept : Text)
    → find_header req (ascii "accept") ≡ some accept
    → ((ct : Text)
        → negotiate_content_type quality content req ≡ selected ct
        → Chosen quality order (valid_keys content) accept ct)
      × ((ks : List Text)
          → negotiate_content_type quality content req ≡ not_acceptable ks
          → Refused quality order (valid_keys content) accept ks)
unfolding negotiate_content_type
negotiate_content_type_lem quality order content req accept h =
    rw (negotiate_content_type, h) (decided quality order (valid_keys content) accept _ refl _ refl)
