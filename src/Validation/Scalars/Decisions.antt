-- ===== src/Validation/Scalars/Decisions.antt =====
-- crates/chasm-engine/src/validation.rs: the checks of an integer, one by one.
use mathlib.Core.Path.{ap₂}
use Prim.Native.Nat.{◌∣◌}
use native.Mathlib.Nat.{dvd_iff_mod-eq-zero}
use chasm.Prelude.{
  sym, ap, ℕ, suc, Bool, true, false, not, ◌&&◌, ◌≤◌, ◌≡◌, ◌+◌, ◌-◌, ◌%◌, ◌^◌, ◌==◌, ◌++◌, ◌↔◌, ◌⊎◌,
  Option, some, none, List, [], ◌∷◌, Any, arith, inl, inr, Bool-cases, ==_iff, refl, if◌then◌else◌,
}
use chasm.Prelude.Int.{ℤ, pos, negsuc, ◌≤ℤ◌, leb_ℤ, ltb_ℤ, eq_ℤ, nat_abs, pos_part, neg_part}
use chasm.Text.{Text}
use chasm.OpenApi.{IntegerType}
use chasm.Validation.Errors.{ValidationError, ValidationLocation}
use chasm.Validation.Checked.{done}
use chasm.Validation.Scalars.{
  unless, is_listed, is_allowed, fits_i32, rem_overflows, check_bounds, check_multiple,
}

pub eq_ℤ_iff : (a b : ℤ) → (eq_ℤ a b ≡ true) ↔ (a ≡ b)
eq_ℤ_iff (pos a) (pos b) = (λ h. ap pos (ground arith), λ h. ground arith)
eq_ℤ_iff (pos a) (negsuc b) = (λ h. absurd (ground arith), λ h. absurd (ground arith))
eq_ℤ_iff (negsuc a) (pos b) = (λ h. absurd (ground arith), λ h. absurd (ground arith))
eq_ℤ_iff (negsuc a) (negsuc b) = (λ h. ap negsuc (ground arith), λ h. ground arith)

-- No enumeration, or one that has the number.
abbrev pub IsListed : List (Option ℤ) → ℤ → Type 0
IsListed os n = (os ≡ []) ⊎ Any (λ o. o ≡ some n) os

abbrev pub IsAbove : Bool → Option ℤ → ℤ → Type 0
IsAbove exclusive none n = Unit {0}
IsAbove true (some m) n = suc (pos_part m + neg_part n) ≤ pos_part n + neg_part m
IsAbove false (some m) n = m ≤ℤ n

abbrev pub IsBelow : Bool → Option ℤ → ℤ → Type 0
IsBelow exclusive none n = Unit {0}
IsBelow true (some m) n = suc (pos_part n + neg_part m) ≤ pos_part m + neg_part n
IsBelow false (some m) n = n ≤ℤ m

abbrev pub IsMultiple : Option ℤ → ℤ → Type 0
IsMultiple none n = Unit {0}
IsMultiple (some m) n = (m ≡ pos 0) ⊎ (nat_abs m ∣ nat_abs n)

abbrev pub IsInRange : Bool → ℤ → Type 0
IsInRange false n = Unit {0}
IsInRange true n = (negsuc (2 ^ 31 - 1) ≤ℤ n) × (n ≤ℤ pos (2 ^ 31 - 1))

pub listed_iff :
    (n : ℤ) (os : List (Option ℤ)) → (is_listed (eq_ℤ n) os ≡ true) ↔ Any (λ o. o ≡ some n) os
listed_iff n [] = (λ h. absurd (ground arith), λ h. absurd h)
listed_iff n (none ∷ os) = (
  λ h. inr ((listed_iff n os).0 h),
  λ h. elim h [ inl e ↦ absurd (ground arith) | inr r ↦ (listed_iff n os).1 r ],
)
listed_iff n (some m ∷ os) = (
  λ h. elim (Bool-cases (eq_ℤ n m)) [
    | inl y ↦ inl (ap some (sym ((eq_ℤ_iff n m).0 y)))
    | inr k ↦ inr ((listed_iff n os).0 (rw k at h))
  ],
  λ h. elim h [
    | inl e ↦ let same : n ≡ m = cc in let y = (eq_ℤ_iff n m).1 same in rw y refl
    | inr r ↦
        let y = (listed_iff n os).1 r in
        elim (Bool-cases (eq_ℤ n m)) [ inl k ↦ rw k refl | inr k ↦ rw (k, y) refl ]
  ],
)

pub range_iff : (int32 : Bool) (n : ℤ) → ((int32 && not (fits_i32 n)) ≡ false) ↔ IsInRange int32 n
range_iff false n = (λ h. tt, λ h. refl)
range_iff true (pos n) = (λ h. ground arith, λ h. ground arith)
range_iff true (negsuc n) = (λ h. ground arith, λ h. ground arith)

pub allowed_iff : (n : ℤ) (os : List (Option ℤ)) → (is_allowed (eq_ℤ n) os ≡ true) ↔ IsListed os n
allowed_iff n [] = (λ h. inl refl, λ h. refl)
allowed_iff n (o ∷ os) = (
  λ h. inr ((listed_iff n (o ∷ os)).0 h),
  λ h. elim h [ inl e ↦ absurd (ground arith) | inr r ↦ (listed_iff n (o ∷ os)).1 r ],
)

pub unless_iff : (b : Bool) (e : ValidationError) → (unless b e ≡ []) ↔ (b ≡ true)
unless_iff true e = (λ h. refl, λ h. refl)
unless_iff false e = (λ h. absurd (ground arith), λ h. absurd (ground arith))

pub append-eq-nil : (xs ys : List ValidationError) → xs ++ ys ≡ [] → (xs ≡ []) × (ys ≡ [])
append-eq-nil [] ys h = (refl, h)
append-eq-nil (x ∷ xs) ys h = absurd (ground arith)

pub done-unless_iff : (b : Bool) (e : ValidationError) → (done (unless b e) ≡ done []) ↔ (b ≡ true)
done-unless_iff true e = (λ h. refl, λ h. refl)
done-unless_iff false e = (λ h. absurd (ground arith), λ h. absurd (ground arith))

pub minimum_iff :
    (exclusive : Bool) (o : Option ℤ) (n : ℤ) (entry : ℤ → ValidationError)
    → ((elim o [
      | none ↦ []
      | some m ↦ unless (if exclusive then ltb_ℤ m n else leb_ℤ m n) (entry m)
    ])
        ≡ [])
      ↔ IsAbove exclusive o n
minimum_iff exclusive none n entry = (λ h. tt, λ h. refl)
minimum_iff true (some m) n entry =
    (λ h. let b = (unless_iff _ _).0 h in ground arith, λ h. (unless_iff _ _).1 (ground arith))
minimum_iff false (some m) n entry =
    (λ h. let b = (unless_iff _ _).0 h in ground arith, λ h. (unless_iff _ _).1 (ground arith))

pub maximum_iff :
    (exclusive : Bool) (o : Option ℤ) (n : ℤ) (entry : ℤ → ValidationError)
    → ((elim o [
      | none ↦ []
      | some m ↦ unless (if exclusive then ltb_ℤ n m else leb_ℤ n m) (entry m)
    ])
        ≡ [])
      ↔ IsBelow exclusive o n
maximum_iff exclusive none n entry = (λ h. tt, λ h. refl)
maximum_iff true (some m) n entry =
    (λ h. let b = (unless_iff _ _).0 h in ground arith, λ h. (unless_iff _ _).1 (ground arith))
maximum_iff false (some m) n entry =
    (λ h. let b = (unless_iff _ _).0 h in ground arith, λ h. (unless_iff _ _).1 (ground arith))

-- The remainder does not overflow.
abbrev pub overflows : Option ℤ → ℤ → Bool
overflows none n = false
overflows (some m) n = rem_overflows n m

pub mod_iff : (a b : ℕ) → ((a % b == 0) ≡ true) ↔ (b ∣ a)
mod_iff a b = (
  λ h. (dvd_iff_mod-eq-zero b).1 ((==_iff (a % b) 0).0 h),
  λ h. (==_iff (a % b) 0).1 ((dvd_iff_mod-eq-zero b).0 h),
)

module _ (location : ValidationLocation) (f : Text) where
  pub remainder_iff :
      (m : Option ℤ) (n : ℤ)
      → overflows m n ≡ false
      → (check_multiple location f m n ≡ done []) ↔ IsMultiple m n
  unfolding check_multiple
  remainder_iff none n h = (λ e. tt, λ e. refl)
  remainder_iff (some m) n h = elim (Bool-cases (eq_ℤ m (pos 0))) [
    | inl y ↦ rw y (λ e. inl ((eq_ℤ_iff m (pos 0)).0 y), λ e. refl)
    | inr k ↦
        rw (k, h)
          (
            (λ e. inr ((mod_iff (nat_abs n) (nat_abs m)).0 ((done-unless_iff _ _).0 e))),
            (λ e. elim e [
              | inl z ↦ absurd (ground (arith, (eq_ℤ_iff m (pos 0)).1 z))
              | inr q ↦ ((done-unless_iff _ _).1 ((mod_iff (nat_abs n) (nat_abs m)).1 q))
            ]),
          )
  ]

  pub bounds_iff :
      (it : IntegerType) (n : ℤ)
      → (check_bounds location f it n ≡ [])
        ↔ (IsAbove it.exclusive_minimum it.minimum n × IsBelow it.exclusive_maximum it.maximum n)
  unfolding check_bounds
  bounds_iff it n = (
    (λ h.
        let p = append-eq-nil _ _ h in
        (
          (minimum_iff it.exclusive_minimum it.minimum n _).0 p.0,
          (maximum_iff it.exclusive_maximum it.maximum n _).0 p.1,
        )),
    (λ h.
        ap₂ (λ xs ys. xs ++ ys) ((minimum_iff it.exclusive_minimum it.minimum n _).1 h.0)
          ((maximum_iff it.exclusive_maximum it.maximum n _).1 h.1)),
  )
