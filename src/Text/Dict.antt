-- ===== src/Text/Dict.antt =====
-- Maps keyed by texts, as association lists.
pub mod Laws
use chasm.Prelude.{Option, some, none, List, [], ◌∷◌, if◌then◌else◌}
use chasm.Text.Ascii.{Text, text_eq}

module _ {ℓ} {V : Type ℓ} where
  -- The map's `get`.
  unfoldable pub get : List (Text × V) → Text → Option V
  get [] k = none
  get ((j, v) ∷ m) k = if text_eq j k then some v else get m k

  -- `HashMap::insert`, which replaces the value of a key that is there.
  unfoldable pub insert : List (Text × V) → Text → V → List (Text × V)
  insert [] k v = (k, v) ∷ []
  insert ((j, w) ∷ m) k v = if text_eq j k then (j, v) ∷ m else (j, w) ∷ insert m k v
