-- ===== src/Router/Allow.antt =====
-- What the `Allow` header lists.
use chasm.Router.Bases.{Member}
use mathlib.Core.Path.{subst}
use chasm.Text.Laws.{text_eq_iff}
use chasm.Router.{serving_operation}
use chasm.Router.Methods.{allow_methods, slot, get_operation, declared_methods}
use chasm.Text.{ascii, to_ascii_uppercase, text_eq, Text}
use chasm.OpenApi.{Operation, PathItem}
use chasm.Prelude.{
  ◌↔◌, ◌&&◌, if◌then◌else◌, not, ◌||◌, some, is_some, Option, ◌≢◌, ◌≡◌, ◌∷◌, true, sym, refl, none,
  inr, inl, false, [], List, Bool-cases, Bool, Any,
}
use chasm.Router.Listed.{
  pick, Picked, pick_sound, pick_complete, sort_texts_sound, sort_texts_complete, dedup_sound,
  dedup_complete,
}

-- An operation with nothing, or another one, behind it.
kept :
    (o d : Option Operation)
    → is_some o ≡ true
    → (elim o as (λ _. Option Operation) [ some op ↦ some op | none ↦ d ]) ≢ none
kept (some op) d e = λ q. cc
kept none d e = cc

given :
    (o : Option Operation)
    → (elim o as (λ _. Option Operation) [ some op ↦ some op | none ↦ none ]) ≢ none
    → is_some o ≡ true
given (some op) n = refl
given none n = absurd (n refl)

module _ (i : PathItem) (strict : Bool) where
  table : List (Text × Bool)
  table =
      (ascii "GET", is_some i.get)
      ∷ (ascii "PUT", is_some i.put)
      ∷ (ascii "POST", is_some i.post)
      ∷ (ascii "DELETE", is_some i.delete)
      ∷ (ascii "OPTIONS", is_some i.options)
      ∷ (ascii "HEAD", is_some i.head || (not strict && is_some i.get))
      ∷ (ascii "PATCH", is_some i.patch)
      ∷ (ascii "TRACE", is_some i.trace)
      ∷ []

  Serves : Text → Type 0
  Serves m = serving_operation i m strict ≢ none

  head_kept :
      (o g : Option Operation) (b : Bool)
      → (is_some o || (not b && is_some g)) ≡ true
      → (elim o as (λ _. Option Operation) [ some op ↦ some op | none ↦ if not b then g else none ])
        ≢ none
  head_kept (some op) g b e = λ q. cc
  head_kept none (some op) false e = λ q. cc
  head_kept none (some op) true e = cc
  head_kept none none false e = cc
  head_kept none none true e = cc

  head_given :
      (o g : Option Operation) (b : Bool)
      → (elim o as (λ _. Option Operation) [ some op ↦ some op | none ↦ if not b then g else none ])
        ≢ none
      → (is_some o || (not b && is_some g)) ≡ true
  head_given (some op) g b n = refl
  head_given none (some op) false n = refl
  head_given none (some op) true n = absurd (n refl)
  head_given none none false n = absurd (n refl)
  head_given none none true n = absurd (n refl)

  Picked-Serves : (m : Text) → Picked m table → Serves m
  unfolding Serves table serving_operation get_operation slot text_eq to_ascii_uppercase
  Picked-Serves m (inl (b, e)) = subst Serves e (kept i.get none b)
  Picked-Serves m (inr (inl (b, e))) = subst Serves e (kept i.put none b)
  Picked-Serves m (inr (inr (inl (b, e)))) = subst Serves e (kept i.post none b)
  Picked-Serves m (inr (inr (inr (inl (b, e))))) = subst Serves e (kept i.delete none b)
  Picked-Serves m (inr (inr (inr (inr (inl (b, e)))))) = subst Serves e (kept i.options none b)
  Picked-Serves m (inr (inr (inr (inr (inr (inl (b, e))))))) =
      subst Serves e (head_kept i.head i.get strict b)
  Picked-Serves m (inr (inr (inr (inr (inr (inr (inl (b, e)))))))) =
      subst Serves e (kept i.patch none b)
  Picked-Serves m (inr (inr (inr (inr (inr (inr (inr (inl (b, e))))))))) =
      subst Serves e (kept i.trace none b)
  Picked-Serves m (inr (inr (inr (inr (inr (inr (inr (inr x)))))))) = elim x [ ]

  -- The names that a path item has slots for.
  abbrev Known : Text → Type 0
  Known m = Any (λ e. e.0 ≡ m) table

  Serves-Known : (m : Text) → to_ascii_uppercase m ≡ m → Serves m → Known m
  unfolding Serves table serving_operation get_operation slot
  Serves-Known m u n = elim (Bool-cases (text_eq m (ascii "GET"))) [
    | inl q0 ↦ (inl (sym ((text_eq_iff m _).0 q0)))
    | inr q0 ↦ elim (Bool-cases (text_eq m (ascii "PUT"))) [
      | inl q1 ↦ (inr (inl (sym ((text_eq_iff m _).0 q1))))
      | inr q1 ↦ elim (Bool-cases (text_eq m (ascii "POST"))) [
        | inl q2 ↦ (inr (inr (inl (sym ((text_eq_iff m _).0 q2)))))
        | inr q2 ↦ elim (Bool-cases (text_eq m (ascii "DELETE"))) [
          | inl q3 ↦ (inr (inr (inr (inl (sym ((text_eq_iff m _).0 q3))))))
          | inr q3 ↦ elim (Bool-cases (text_eq m (ascii "OPTIONS"))) [
            | inl q4 ↦ (inr (inr (inr (inr (inl (sym ((text_eq_iff m _).0 q4)))))))
            | inr q4 ↦ elim (Bool-cases (text_eq m (ascii "HEAD"))) [
              | inl q5 ↦ (inr (inr (inr (inr (inr (inl (sym ((text_eq_iff m _).0 q5))))))))
              | inr q5 ↦ elim (Bool-cases (text_eq m (ascii "PATCH"))) [
                | inl q6 ↦ (inr (inr (inr (inr (inr (inr (inl (sym ((text_eq_iff m _).0 q6)))))))))
                | inr q6 ↦ elim (Bool-cases (text_eq m (ascii "TRACE"))) [
                  | inl q7 ↦
                      (inr (inr (inr (inr (inr (inr (inr (inl (sym ((text_eq_iff m _).0 q7))))))))))
                  | inr q7 ↦ absurd (
                      n (
                        rw (
                          serving_operation, get_operation, u, slot, q0, q1, q2, q3, q4, q5, q6, q7,
                          q5,
                        )))
                ]
              ]
            ]
          ]
        ]
      ]
    ]
  ]

  Known-Picked : (m : Text) → Known m → Serves m → Picked m table
  unfolding Serves table serving_operation get_operation slot text_eq to_ascii_uppercase
  Known-Picked m (inl e) n = (inl (given i.get (subst Serves (sym e) n), e))
  Known-Picked m (inr (inl e)) n = (inr (inl (given i.put (subst Serves (sym e) n), e)))
  Known-Picked m (inr (inr (inl e))) n =
      (inr (inr (inl (given i.post (subst Serves (sym e) n), e))))
  Known-Picked m (inr (inr (inr (inl e)))) n =
      (inr (inr (inr (inl (given i.delete (subst Serves (sym e) n), e)))))
  Known-Picked m (inr (inr (inr (inr (inl e))))) n =
      (inr (inr (inr (inr (inl (given i.options (subst Serves (sym e) n), e))))))
  Known-Picked m (inr (inr (inr (inr (inr (inl e)))))) n =
      (inr
        (inr (inr (inr (inr (inl (head_given i.head i.get strict (subst Serves (sym e) n), e)))))))
  Known-Picked m (inr (inr (inr (inr (inr (inr (inl e))))))) n =
      (inr (inr (inr (inr (inr (inr (inl (given i.patch (subst Serves (sym e) n), e))))))))
  Known-Picked m (inr (inr (inr (inr (inr (inr (inr (inl e)))))))) n =
      (inr (inr (inr (inr (inr (inr (inr (inl (given i.trace (subst Serves (sym e) n), e)))))))))
  Known-Picked m (inr (inr (inr (inr (inr (inr (inr (inr x)))))))) n = elim x [ ]

  declared_methods-pick : declared_methods i strict ≡ pick table
  unfolding declared_methods pick table
  declared_methods-pick = refl

-- The methods that the `Allow` header lists are exactly the names in upper case that the path item
-- serves, in strict mode or out of it: `HEAD` also where only `GET` is given, outside strict mode.
pub allow_methods_iff :
    (path_item : PathItem) (strict : Bool) (method : Text)
    → to_ascii_uppercase method ≡ method
    → Member method (allow_methods path_item strict)
      ↔ serving_operation path_item method strict ≢ none
unfolding allow_methods Serves
allow_methods_iff i strict m u = (
  λ h. Picked-Serves i strict m (
      pick_sound m (table i strict) (
        subst (Member m) (declared_methods-pick i strict)
          (sort_texts_sound m _ (dedup_sound m _ h)))),
  λ n. dedup_complete m _ (
      sort_texts_complete m _ (
        subst (Member m) (sym (declared_methods-pick i strict)) (
          pick_complete m (table i strict)
            (Known-Picked i strict m (Serves-Known i strict m u n) n)))),
)
