-- ===== src/Validation/Checked.antt =====
-- A computation on fuel: it returns, it panics, or its fuel runs out.

pub data Checked (A : Type 0) : Type 0 where
  done : A → Checked A
  panicked : Checked A
  exhausted : Checked A

infixl 5 ◌>>=◌
abbrev pub ◌>>=◌ : {A B : Type 0} → Checked A → (A → Checked B) → Checked B
done a >>= f = f a
panicked >>= f = panicked
exhausted >>= f = exhausted

-- The fuel was enough.
abbrev pub Ends : {A : Type 0} → Checked A → Type 0
Ends (done a) = Unit
Ends panicked = Unit
Ends exhausted = ⊥
