-- ===== src/Faker/Strings.antt =====
-- crates/chasm-faker/src/ref_resolver.rs: the strings of a schema, of which its references are some.
use chasm.Text.Laws.{text_eq_iff}
use chasm.Prelude.Maybe.{◌>>=◌}
use chasm.Router.Methods.{text_le}
use chasm.Prelude.{
  refl, ◌||◌, arith, Bool, unwrap_or, or, true, Option, some, none, List, [], ◌∷◌, ◌++◌, ◌≡◌,
  Bool-cases, inl, inr,
}
use chasm.Text.{Text, text_eq}
use chasm.OpenApi.{
  null, number, bool, Value, Values, Members, string, array, object, nil, cons, end, member,
}
use chasm.Engine.Values.{field, insert_field, append_values}
use chasm.Faker.RefResolver.{any_text}

unfoldable mutual
  pub strings : Value → List Text
  strings (string s) = s ∷ []
  strings (array vs) = strings_of_items vs
  strings (object m) = strings_of_members m
  strings _ = []

  pub strings_of_items : Values → List Text
  strings_of_items nil = []
  strings_of_items (cons v vs) = strings v ++ strings_of_items vs

  pub strings_of_members : Members → List Text
  strings_of_members end = []
  strings_of_members (member k v m) = strings v ++ strings_of_members m

-- A predicate at the value, if there is one.
module _ {A : Type 0} (P : A → Type 0) where
  abbrev pub Given : Option A → Type 0
  Given none = Unit {0}
  Given (some a) = P a

  pub Given-or : (o p : Option A) → Given o → Given p → Given (or o p)
  Given-or none p h k = k
  Given-or (some a) p h k = h

  pub Given-unwrap_or : (o : Option A) (d : A) → Given o → P d → P (unwrap_or o d)
  Given-unwrap_or none d h k = k
  Given-unwrap_or (some a) d h k = h

pub Given->>= :
    {A B : Type 0} (P : A → Type 0) (Q : B → Type 0) (o : Option A) (f : A → Option B)
    → Given P o
    → ((a : A) → P a → Given Q (f a))
    → Given Q (o >>= f)
Given->>= P Q none f h k = tt
Given->>= P Q (some a) f h k = k a h

module _ (names : List Text) where
  unfoldable mutual
    pub Within : Value → Type 0
    Within (string s) = any_text (text_eq s) names ≡ true
    Within (array vs) = WithinItems vs
    Within (object m) = WithinMembers m
    Within _ = Unit

    pub WithinItems : Values → Type 0
    WithinItems nil = Unit
    WithinItems (cons v vs) = Within v × WithinItems vs

    pub WithinMembers : Members → Type 0
    WithinMembers end = Unit
    WithinMembers (member k v m) = Within v × WithinMembers m

  pub Within-field : (m : Members) (k : Text) → WithinMembers m → Given Within (field m k)
  unfolding field WithinMembers
  Within-field end k h = tt
  Within-field (member j v m) k (p, h) = elim (Bool-cases (text_eq j k)) [
    | inl y ↦ rw y p
    | inr n ↦ rw n (Within-field m k h)
  ]

  pub Within-append :
      (vs ws : Values) → WithinItems vs → WithinItems ws → WithinItems (append_values vs ws)
  unfolding append_values WithinItems
  Within-append nil ws h k = k
  Within-append (cons v vs) ws (p, h) k = (p, Within-append vs ws h k)

  pub Within-insert :
      (m : Members) (k : Text) (v : Value)
      → WithinMembers m
      → Within v
      → WithinMembers (insert_field m k v)
  unfolding insert_field WithinMembers
  Within-insert end k v h p = (p, tt)
  Within-insert (member j w m) k v (q, h) p = elim (Bool-cases (text_eq j k)) [
    | inl y ↦ rw y (p, h)
    | inr n ↦ elim (Bool-cases (text_le k j)) [
      | inl y ↦ rw (n, y) (p, (q, h))
      | inr z ↦ rw (n, z) (q, Within-insert m k v h p)
    ]
  ]

any_text-append :
    (p : Text → Bool) (xs ys : List Text) → any_text p (xs ++ ys) ≡ (any_text p xs || any_text p ys)
any_text-append p [] ys = refl
any_text-append p (x ∷ xs) ys = ground (arith, any_text-append p xs ys)

abbrev pub Includes : List Text → List Text → Type 0
Includes xs names = (t : Text) → any_text (text_eq t) xs ≡ true → any_text (text_eq t) names ≡ true

module _ (xs ys names : List Text) (h : Includes (xs ++ ys) names) where
  pub Includes-left : Includes xs names
  Includes-left t e = h t (rw (any_text-append (text_eq t) xs ys) (ground arith))

  pub Includes-right : Includes ys names
  Includes-right t e = h t (rw (any_text-append (text_eq t) xs ys) (ground arith))

mutual
  unfolding strings strings_of_items strings_of_members Within WithinItems WithinMembers

  pub Within-strings : (names : List Text) (v : Value) → Includes (strings v) names → Within names v
  Within-strings names (string s) h = h s (ground (arith, text_eq_iff s s))
  Within-strings names (array vs) h = Within-items names vs h
  Within-strings names (object m) h = Within-members names m h
  Within-strings names (null) h = tt
  Within-strings names (bool b) h = tt
  Within-strings names (number n) h = tt

  Within-items :
      (names : List Text) (vs : Values)
      → Includes (strings_of_items vs) names
      → WithinItems names vs
  Within-items names nil h = tt
  Within-items names (cons v vs) h = (
    Within-strings names v (Includes-left (strings v) (strings_of_items vs) names h),
    Within-items names vs (Includes-right (strings v) (strings_of_items vs) names h),
  )

  Within-members :
      (names : List Text) (m : Members)
      → Includes (strings_of_members m) names
      → WithinMembers names m
  Within-members names end h = tt
  Within-members names (member k v m) h = (
    Within-strings names v (Includes-left (strings v) (strings_of_members m) names h),
    Within-members names m (Includes-right (strings v) (strings_of_members m) names h),
  )
