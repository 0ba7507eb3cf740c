-- ===== src/Text/Dict/Laws.antt =====
-- Laws of the maps.
use chasm.Text.Laws.{text_eq_iff}
use chasm.Text.{text_eq, insert, get, Text}
use chasm.Prelude.{if◌then◌else◌, ◌≡◌, ◌∷◌, some, refl, arith, [], List}

module _ {ℓ} {V : Type ℓ} where
  pub get-insert :
      (m : List (Text × V)) (k j : Text) (v : V)
      → get (insert m k v) j ≡ (if text_eq k j then some v else get m j)
  unfolding get insert
  get-insert [] k j v = refl
  get-insert ((i, w) ∷ m) k j v =
      ground (arith, text_eq_iff i k, text_eq_iff i j, text_eq_iff k j, get-insert m k j v)
