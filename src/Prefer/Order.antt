-- ===== src/Prefer/Order.antt =====
-- The order of parts and of sources.
use chasm.Prelude.{◌≡◌, refl, List, [], ◌∷◌, ◌++◌}
use chasm.Prelude.Run.{Run, done, panic, ◌>>=◌}
use chasm.Text.{Text, split, trim}
use chasm.Text.Search.Laws.{split-append}
use chasm.Prefer.{PreferDirectives, default, apply_part, apply_parts, from_prefer_header}

>>=_assoc :
    (m : Run PreferDirectives) (f g : PreferDirectives → Run PreferDirectives)
    → (m >>= f >>= g) ≡ (m >>= λ d. f d >>= g)
>>=_assoc (done d) f g = refl
>>=_assoc panic f g = refl

apply_parts-append :
    (xs ys : List Text) (out : PreferDirectives)
    → apply_parts (xs ++ ys) out ≡ (apply_parts xs out >>= apply_parts ys)
unfolding apply_parts
apply_parts-append [] ys out = refl
apply_parts-append (x ∷ xs) ys out = go (apply_part (trim x) out) (apply_parts-append xs ys)
  where
    go :
        (m : Run PreferDirectives)
        → ((out' : PreferDirectives)
            → apply_parts (xs ++ ys) out' ≡ (apply_parts xs out' >>= apply_parts ys))
        → (m >>= apply_parts (xs ++ ys)) ≡ (m >>= apply_parts xs >>= apply_parts ys)
    go (done out') r = r out'
    go panic r = refl

-- Two header values folded into one by a comma act as the first followed by the second: the parts
-- of the second are applied to what the first gave, and a panic of the first is a panic.
pub from_prefer_header-append :
    (a b : Text)
    → from_prefer_header (a ++ b',' ∷ b) ≡ (from_prefer_header a >>= apply_parts (split b',' b))
unfolding from_prefer_header
from_prefer_header-append a b =
    rw (split-append b',' a b) (apply_parts-append (split b',' a) (split b',' b) default)
