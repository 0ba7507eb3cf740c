-- ===== src/Validation/Scalars.antt =====
-- crates/chasm-engine/src/validation.rs: `validate_value` at strings, numbers and Booleans.
pub mod Decisions
pub mod Integers
use chasm.Prelude.{
  ◌-◌, ℕ, Bool, true, false, not, ◌&&◌, ◌||◌, Option, some, none, List, [], ◌∷◌, ◌++◌, ◌%◌, ◌^◌,
  ltb, leb, ◌==◌, length, is_empty, suc, if◌then◌else◌,
}
use chasm.Prelude.Int.{ℤ, pos, negsuc, leb_ℤ, ltb_ℤ, eq_ℤ, nat_abs}
use chasm.Text.{Text, ascii, text_eq, decimal}
use chasm.OpenApi.{StringType, IntegerType, NumberType, Number}
use chasm.Validation.Errors.{ValidationError, ValidationLocation, new}
use chasm.Validation.Library.{Floats, Library}
use chasm.Validation.Checked.{Checked, done, panicked, ◌>>=◌}
use chasm.Validation.Formats.{validate_format, check_pattern}
use chasm.Validation.Equality.{float_eq, passes_strict_multiple_of_check}

-- One check: an entry where it fails.
abbrev pub unless : Bool → ValidationError → List ValidationError
unless true e = []
unless false e = e ∷ []

-- `s.chars().count()`: the bytes that continue no character.
unfoldable pub char_count : Text → ℕ
char_count [] = 0
char_count (c ∷ s) = let n = char_count s in if leb 128 c && ltb c 192 then n else suc n

abbrev pub decimal_ℤ : ℤ → Text
decimal_ℤ (pos n) = decimal n
decimal_ℤ (negsuc n) = b'-' ∷ decimal (suc n)

-- Whether an option of an enumeration is there and equal.
abbrev pub is_listed {ℓ} : {A : Type ℓ} → (A → Bool) → List (Option A) → Bool
is_listed p [] = false
is_listed p (none ∷ os) = is_listed p os
is_listed p (some a ∷ os) = p a || is_listed p os

-- `enumeration.is_empty() || allowed`.
abbrev pub is_allowed {ℓ} : {A : Type ℓ} → (A → Bool) → List (Option A) → Bool
is_allowed p os = is_empty os || is_listed p os

module _ (lib : Library) (location : ValidationLocation) (field : Text) where
  unfoldable pub validate_string : StringType → Text → List ValidationError
  validate_string st s =
      if not (is_allowed (text_eq s) st.enumeration)
      then new location field (ascii "enum") (ascii "value '" ++ (s ++ ascii "' not in enum")) ∷ []
      else (elim st.min_length [
        | none ↦ []
        | some n ↦
            unless (leb n (char_count s)) (
              new location field (ascii "minLength") (ascii "length below minLength " ++ decimal n))
      ])
        ++ ((elim st.max_length [
          | none ↦ []
          | some n ↦ unless (leb (char_count s) n) (
              new location field (ascii "maxLength") (ascii "length above maxLength " ++ decimal n))
        ])
            ++ ((elim st.pattern [ none ↦ [] | some p ↦ check_pattern lib s p location field ])
                ++ (elim st.format [
                  | none ↦ []
                  | some f ↦ validate_format lib s f location field
                ])))

abbrev pub below_message : Text → Text → Text
below_message n min = ascii "value " ++ (n ++ (ascii " below minimum " ++ min))

abbrev pub above_message : Text → Text → Text
above_message n max = ascii "value " ++ (n ++ (ascii " above maximum " ++ max))

abbrev pub multiple_message : Text → Text → Text
multiple_message n m = ascii "value " ++ (n ++ (ascii " is not a multiple of " ++ m))

abbrev pub fits_i32 : ℤ → Bool
fits_i32 (pos n) = ltb n (2 ^ 31)
fits_i32 (negsuc n) = ltb n (2 ^ 31)

-- `n % multiple` panics where the quotient overflows: the least `i64` by -1.
abbrev pub rem_overflows : ℤ → ℤ → Bool
rem_overflows n m = eq_ℤ n (negsuc (2 ^ 63 - 1)) && eq_ℤ m (negsuc 0)

module _ (location : ValidationLocation) (field : Text) where
  -- The bounds of an integer, in the order of the code.
  unfoldable pub check_bounds : IntegerType → ℤ → List ValidationError
  check_bounds it n =
      (elim it.minimum [
        | none ↦ []
        | some min ↦ unless (if it.exclusive_minimum then ltb_ℤ min n else leb_ℤ min n) (
            new location field
              (if it.exclusive_minimum then ascii "exclusiveMinimum" else ascii "minimum")
              (below_message (decimal_ℤ n) (decimal_ℤ min)))
      ])
      ++ (elim it.maximum [
        | none ↦ []
        | some max ↦ unless (if it.exclusive_maximum then ltb_ℤ n max else leb_ℤ n max) (
            new location field
              (if it.exclusive_maximum then ascii "exclusiveMaximum" else ascii "maximum")
              (above_message (decimal_ℤ n) (decimal_ℤ max)))
      ])

  -- The remainder of magnitudes is zero exactly when that of the integers is.
  unfoldable pub check_multiple : Option ℤ → ℤ → Checked (List ValidationError)
  check_multiple none n = done []
  check_multiple (some m) n =
      if eq_ℤ m (pos 0)
      then done []
      else if rem_overflows n m
      then panicked
      else done (
          unless (nat_abs n % nat_abs m == 0) (
            new location field (ascii "multipleOf") (multiple_message (decimal_ℤ n) (decimal_ℤ m))))

  unfoldable pub validate_integer : IntegerType → ℤ → Checked (List ValidationError)
  validate_integer it n =
      if it.is_int32 && not (fits_i32 n)
      then done (
          new location field (ascii "format") (
            ascii "value "
            ++ (decimal_ℤ n ++ ascii " is outside the int32 range [-2147483648, 2147483647]"))
          ∷ [])
      else if not (is_allowed (eq_ℤ n) it.enumeration)
      then done (
          new location field (ascii "enum")
            (ascii "value " ++ (decimal_ℤ n ++ ascii " not in enum"))
          ∷ [])
      else (do es ← check_multiple it.multiple_of n; done (check_bounds it n ++ es))

  unfoldable pub validate_boolean : List (Option Bool) → Bool → List ValidationError
  validate_boolean enumeration b = unless (is_allowed (λ x. if x then b else not b) enumeration) (
      new location field (ascii "enum")
        (ascii "value " ++ ((if b then ascii "true" else ascii "false") ++ ascii " not in enum")))

module _ (floats : Floats) (location : ValidationLocation) (field : Text) where
  unfoldable pub validate_number : NumberType → floats.F64 → List ValidationError
  validate_number nt n =
      let shown = floats.display n in
      if not (is_allowed (λ x. float_eq floats (floats.of_number x) n) nt.enumeration)
      then new location field (ascii "enum") (ascii "value " ++ (shown ++ ascii " not in enum"))
        ∷ []
      else (elim nt.minimum [
        | none ↦ []
        | some min ↦
            let x = floats.of_number min in
            unless (if nt.exclusive_minimum then floats.lt x n else floats.le x n) (
              new location field
                (if nt.exclusive_minimum then ascii "exclusiveMinimum" else ascii "minimum")
                (below_message shown (floats.display x)))
      ])
        ++ ((elim nt.maximum [
          | none ↦ []
          | some max ↦
              let x = floats.of_number max in
              unless (if nt.exclusive_maximum then floats.lt n x else floats.le n x) (
                new location field
                  (if nt.exclusive_maximum then ascii "exclusiveMaximum" else ascii "maximum")
                  (above_message shown (floats.display x)))
        ])
            ++ (elim nt.multiple_of [
              | none ↦ []
              | some m ↦
                  let x = floats.of_number m in
                  unless (floats.eq x floats.zero || passes_strict_multiple_of_check floats n x) (
                    new location field (ascii "multipleOf")
                      (multiple_message shown (floats.display x)))
            ]))
