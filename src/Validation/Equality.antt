-- ===== src/Validation/Equality.antt =====
-- Equality of `serde_json` values, and what validation does with numbers.
use chasm.Prelude.{Bool, true, false, ◌&&◌, ◌||◌, not, ◌==◌}
use chasm.Text.{text_eq}
use chasm.OpenApi.{
  Number, pos_int, neg_int, float, Value, Values, Members, null, bool, number, string, array,
  object, nil, cons, end, member,
}
use chasm.Validation.Library.{Floats}

abbrev bool_eq : Bool → Bool → Bool
bool_eq true b = b
bool_eq false b = not b

module _ (floats : Floats) where
  unfoldable pub number_eq : Number → Number → Bool
  number_eq (pos_int m) (pos_int n) = m == n
  number_eq (neg_int m) (neg_int n) = m == n
  number_eq (float s) (float t) =
      floats.eq (floats.of_number (float s)) (floats.of_number (float t))
  number_eq _ _ = false

  unfoldable mutual
    unfolding number_eq

    pub value_eq : Value → Value → Bool
    value_eq null null = true
    value_eq (bool a) (bool b) = bool_eq a b
    value_eq (number m) (number n) = number_eq m n
    value_eq (string s) (string t) = text_eq s t
    value_eq (array vs) (array ws) = values_eq vs ws
    value_eq (object m) (object n) = members_eq m n
    value_eq _ _ = false

    pub values_eq : Values → Values → Bool
    values_eq nil nil = true
    values_eq (cons v vs) (cons w ws) = value_eq v w && values_eq vs ws
    values_eq _ _ = false

    pub members_eq : Members → Members → Bool
    members_eq end end = true
    members_eq (member j v m) (member k w n) = text_eq j k && (value_eq v w && members_eq m n)
    members_eq _ _ = false

  -- Whether a value stands again among others.
  unfoldable pub occurs : Value → Values → Bool
  occurs v nil = false
  occurs v (cons w ws) = value_eq v w || occurs v ws

  unfoldable pub has_duplicate_json_values : Values → Bool
  has_duplicate_json_values nil = false
  has_duplicate_json_values (cons v vs) = occurs v vs || has_duplicate_json_values vs

  unfoldable pub float_eq : floats.F64 → floats.F64 → Bool
  float_eq a b = floats.le (floats.abs (floats.sub a b)) (
      floats.mul
        (floats.mul floats.epsilon
          (floats.max (floats.max (floats.abs a) (floats.abs b)) floats.one))
        floats.sixty_four)

  unfoldable pub passes_strict_multiple_of_check : floats.F64 → floats.F64 → Bool
  passes_strict_multiple_of_check value multiple_of =
      let remainder = floats.rem (floats.div value multiple_of) floats.one in
      floats.lt (floats.abs remainder) floats.epsilon
      || floats.lt (floats.abs (floats.sub floats.one (floats.abs remainder))) floats.epsilon
