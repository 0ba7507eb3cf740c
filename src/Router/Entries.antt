-- ===== src/Router/Entries.antt =====
-- The entries of a document's paths: a member with what stands before and behind it.
use chasm.Text.{Text}
use chasm.OpenApi.{ReferenceOr, PathItem}
use chasm.Prelude.{◌≡◌, ◌∷◌, ◌∙◌, refl, append_assoc, ap, [], List, All-append, All, ◌++◌}

abbrev pub Entry : Type 0
Entry = Text × ReferenceOr PathItem

-- A member with what stands before and behind it.
pub record Split (P : Entry → Type 0) (B : Entry → Type 0) (A : Entry → Type 0) (es : List Entry)
    : Type 0 where
  pub before : List Entry
  pub here : Entry
  pub after : List Entry
  pub whole : es ≡ before ++ here ∷ after
  pub holds : P here
  pub earlier : All B before
  pub later : All A after

module _ {P Q : Entry → Type 0} (f : (e : Entry) → P e → Q e) where
  pub All-imp : (es : List Entry) → All P es → All Q es
  All-imp [] h = tt
  All-imp (e ∷ es) (p, h) = (f e p, All-imp es h)

module _ {P B A : Entry → Type 0} (es : List Entry) where
  -- One more entry behind a split.
  pub extend : (e : Entry) → A e → Split P B A es → Split P B A (es ++ e ∷ [])
  extend e a s = record {
    before = s.before;
    here = s.here;
    after = s.after ++ e ∷ [];
    whole = ap (λ l. l ++ e ∷ []) s.whole ∙ append_assoc s.before (s.here ∷ s.after) (e ∷ []);
    holds = s.holds;
    earlier = s.earlier;
    later = All-append A s.after (e ∷ []) s.later (a, tt);
  }

  -- The last entry is the one.
  pub at_end : (e : Entry) → P e → All B es → Split P B A (es ++ e ∷ [])
  at_end e p h = record {
    before = es;
    here = e;
    after = [];
    whole = refl;
    holds = p;
    earlier = h;
    later = tt;
  }
