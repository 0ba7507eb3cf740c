-- ===== src/Server/Requests/Merge.antt =====
-- Values that come one after the other under one key.
use chasm.Prelude.{
  ◌∙◌, Bool, true, false, ◌≡◌, Option, some, none, List, [], ◌∷◌, ◌++◌, refl, if◌then◌else◌, ap,
  append_assoc,
}
use chasm.Text.{Text, join}

module _ (sep : Text) (first : Bool) where
  -- A value beside the one that is there: left out, or joined to it.
  abbrev pub beside : Option Text → Text → Text
  beside none v = v
  beside (some w) v = if first then w else w ++ (sep ++ v)

  abbrev pub extend : Option Text → List Text → Option Text
  extend o [] = o
  extend o (v ∷ vs) = extend (some (beside o v)) vs

  -- The first of the values, or all of them joined in order; none of no values.
  abbrev pub merged : List Text → Option Text
  merged [] = none
  merged (v ∷ vs) = some (if first then v else join sep (v ∷ vs))

join-append :
    (sep w v : Text) (vs : List Text)
    → join sep ((w ++ (sep ++ v)) ∷ vs) ≡ w ++ (sep ++ join sep (v ∷ vs))
unfolding join
join-append sep w v [] = refl
join-append sep w v (u ∷ vs) =
    append_assoc w (sep ++ v) (sep ++ join sep (u ∷ vs))
    ∙ ap (λ t. w ++ t) (append_assoc sep v (sep ++ join sep (u ∷ vs)))

extend-some :
    (sep : Text) (first : Bool) (w : Text) (vs : List Text)
    → extend sep first (some w) vs ≡ some (if first then w else join sep (w ∷ vs))
extend-some sep true w [] = refl
extend-some sep false w [] = unfold join in refl
extend-some sep true w (v ∷ vs) = extend-some sep true w vs
extend-some sep false w (v ∷ vs) =
    extend-some sep false (w ++ (sep ++ v)) vs ∙ (unfold join in ap some (join-append sep w v vs))

pub extend-none :
    (sep : Text) (first : Bool) (vs : List Text) → extend sep first none vs ≡ merged sep first vs
extend-none sep first [] = refl
extend-none sep first (v ∷ vs) = extend-some sep first v vs
