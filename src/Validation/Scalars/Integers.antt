-- ===== src/Validation/Scalars/Integers.antt =====
-- crates/chasm-engine/src/validation.rs: what the checks of an integer decide.
use mathlib.Core.Bool.{and-eq-true_iff}
use chasm.Prelude.{
  ap, Bool, true, false, not, ◌&&◌, ◌≡◌, ◌-◌, ◌^◌, ◌++◌, ◌↔◌, Option, some, none, List, [], arith,
  inl, inr, Bool-cases, refl,
}
use chasm.Prelude.Int.{ℤ, pos, negsuc, eq_ℤ}
use chasm.Text.{Text}
use chasm.OpenApi.{IntegerType}
use chasm.Validation.Errors.{ValidationError, ValidationLocation}
use chasm.Validation.Checked.{exhausted, Checked, done, panicked, ◌>>=◌}
use chasm.Validation.Scalars.{
  is_allowed, fits_i32, rem_overflows, check_bounds, check_multiple, validate_integer,
}
use chasm.Validation.Scalars.Decisions.{
  IsListed, IsAbove, IsBelow, IsMultiple, IsInRange, overflows, eq_ℤ_iff, range_iff, allowed_iff,
  append-eq-nil, remainder_iff, bounds_iff,
}

-- What an integer schema asks of a number.
abbrev pub Meets : IntegerType → ℤ → Type 0
Meets it n =
    IsInRange it.is_int32 n
    × IsListed it.enumeration n
    × IsMultiple it.multiple_of n
    × IsAbove it.exclusive_minimum it.minimum n
    × IsBelow it.exclusive_maximum it.maximum n

not-false : (b : Bool) → (not b ≡ false) → b ≡ true
not-false true h = refl
not-false false h = absurd (ground arith)

after-eq-done :
    (m : Checked (List ValidationError)) (bs : List ValidationError)
    → (m >>= (λ es. done (bs ++ es))) ≡ done []
    → (m ≡ done []) × (bs ≡ [])
after-eq-done (done es) bs h =
    let all : bs ++ es ≡ [] = cc in let p = append-eq-nil bs es all in (ap done p.1, p.0)
after-eq-done panicked bs h = absurd (ground arith)
after-eq-done exhausted bs h = absurd (ground arith)

after-eq-panicked :
    (m : Checked (List ValidationError)) (bs : List ValidationError)
    → (m >>= (λ es. done (bs ++ es))) ≡ panicked
    → m ≡ panicked
after-eq-panicked (done es) bs h = absurd (ground arith)
after-eq-panicked panicked bs h = refl
after-eq-panicked exhausted bs h = absurd (ground arith)

abbrev pub i64_min : ℤ
i64_min = negsuc (2 ^ 63 - 1)

check_multiple-eq-panicked :
    (location : ValidationLocation) (f : Text) (m : Option ℤ) (n : ℤ)
    → check_multiple location f m n ≡ panicked
    → (m ≡ some (negsuc 0)) × (n ≡ i64_min)
unfolding check_multiple
check_multiple-eq-panicked location f none n h = absurd (ground arith)
check_multiple-eq-panicked location f (some m) n h = elim (Bool-cases (eq_ℤ m (pos 0))) [
  | inl y ↦ absurd (ground (arith, rw y at h))
  | inr k ↦ elim (Bool-cases (rem_overflows n m)) [
    | inl o ↦
        let p = (and-eq-true_iff (eq_ℤ n i64_min) (eq_ℤ m (negsuc 0))).0 o in
        (ap some ((eq_ℤ_iff m (negsuc 0)).0 p.1), (eq_ℤ_iff n i64_min).0 p.0)
    | inr o ↦ absurd (ground (arith, rw (k, o) at h))
  ]
]

check_multiple-panics :
    (location : ValidationLocation) (f : Text) (n : ℤ) (m : Option ℤ)
    → m ≡ some (negsuc 0)
    → n ≡ i64_min
    → check_multiple location f m n ≡ panicked
unfolding check_multiple
check_multiple-panics location f n m e k = rw (e, k) refl

module _ (location : ValidationLocation) (f : Text) (it : IntegerType) (n : ℤ)
    (safe : overflows it.multiple_of n ≡ false) where
  validate_integer_sound : validate_integer location f it n ≡ done [] → Meets it n
  unfolding validate_integer
  validate_integer_sound h = elim (Bool-cases (it.is_int32 && not (fits_i32 n))) [
    | inl y ↦ absurd (ground (arith, rw y at h))
    | inr r ↦ elim (Bool-cases (not (is_allowed (eq_ℤ n) it.enumeration))) [
      | inl y ↦ absurd (ground (arith, rw (r, y) at h))
      | inr a ↦
          let p =
            after-eq-done (check_multiple location f it.multiple_of n)
              (check_bounds location f it n) (rw (r, a) at h) in
          let b = (bounds_iff location f it n).0 p.1 in
          (
            (range_iff it.is_int32 n).0 r,
            (allowed_iff n it.enumeration).0 (not-false _ a),
            (remainder_iff location f it.multiple_of n safe).0 p.0,
            b.0,
            b.1,
          )
    ]
  ]

  validate_integer_complete : Meets it n → validate_integer location f it n ≡ done []
  unfolding validate_integer
  validate_integer_complete h =
      let r = (range_iff it.is_int32 n).1 h.0 in
      let a = (allowed_iff n it.enumeration).1 h.1 in
      let m = (remainder_iff location f it.multiple_of n safe).1 h.2 in
      let b = (bounds_iff location f it n).1 (h.3, h.4) in rw (r, a, m, b) refl

-- Where the remainder does not overflow, the checks of an integer report nothing exactly when the
-- number is in the range of `int32` if that is its format, is one of the enumeration if there is
-- one, is a multiple of `multipleOf` if that is there and not zero, and keeps the bounds, strictly
-- where they are exclusive.
pub validate_integer_iff :
    (location : ValidationLocation) (f : Text) (it : IntegerType) (n : ℤ)
    → overflows it.multiple_of n ≡ false
    → (validate_integer location f it n ≡ done []) ↔ Meets it n
validate_integer_iff location f it n safe =
    (validate_integer_sound location f it n safe, validate_integer_complete location f it n safe)

-- When the remainder is computed at all, and overflows.
abbrev pub Overflows : IntegerType → ℤ → Type 0
Overflows it n =
    IsInRange it.is_int32 n
    × IsListed it.enumeration n
    × (it.multiple_of ≡ some (negsuc 0))
    × (n ≡ i64_min)

-- The checks of an integer panic exactly at the least `i64` under `multipleOf: -1`, where the
-- format is not `int32` and the enumeration, if there is one, has the number.
pub validate_integer-eq-panicked_iff :
    (location : ValidationLocation) (f : Text) (it : IntegerType) (n : ℤ)
    → (validate_integer location f it n ≡ panicked) ↔ Overflows it n
unfolding validate_integer
validate_integer-eq-panicked_iff location f it n = (
  (λ h. elim (Bool-cases (it.is_int32 && not (fits_i32 n))) [
    | inl y ↦ absurd (ground (arith, rw y at h))
    | inr r ↦ elim (Bool-cases (not (is_allowed (eq_ℤ n) it.enumeration))) [
      | inl y ↦ absurd (ground (arith, rw (r, y) at h))
      | inr a ↦
          let p =
            check_multiple-eq-panicked location f it.multiple_of n
              (after-eq-panicked _ (check_bounds location f it n) (rw (r, a) at h)) in
          (
            (range_iff it.is_int32 n).0 r,
            (allowed_iff n it.enumeration).0 (not-false _ a),
            p.0,
            p.1,
          )
    ]
  ]),
  (λ h.
      rw
        (
          (range_iff it.is_int32 n).1 h.0,
          (allowed_iff n it.enumeration).1 h.1,
          check_multiple-panics location f n it.multiple_of h.2 h.3,
        )
        refl),
)
