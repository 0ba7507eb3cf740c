-- ===== src/Validation/Values/Depth.antt =====
-- How deep the arrays and objects of a value nest.
use Prim.Native.Nat.{max}
use native.Mathlib.Nat.{le-max_left, le-max_right, le_trans}
use chasm.Prelude.{ℕ, suc, ◌≤◌, ◌≡◌, some, arith, inl, inr, Bool-cases}
use chasm.Text.{Text, text_eq}
use chasm.OpenApi.{Value, Values, Members, array, object, nil, cons, end, member}
use chasm.Engine.Values.{field}

unfoldable mutual
  pub depth : Value → ℕ
  depth (array vs) = suc (depth_items vs)
  depth (object ms) = suc (depth_members ms)
  depth _ = 0

  pub depth_items : Values → ℕ
  depth_items nil = 0
  depth_items (cons v vs) = max (depth v) (depth_items vs)

  pub depth_members : Members → ℕ
  depth_members end = 0
  depth_members (member k v ms) = max (depth v) (depth_members ms)

pub depth-field :
    (ms : Members) (key : Text) (v : Value) → field ms key ≡ some v → depth v ≤ depth_members ms
unfolding depth depth_members field
depth-field end key v e = absurd (ground arith)
depth-field (member k w ms) key v e = elim (Bool-cases (text_eq k key)) [
  | inl y ↦
      let p : some w ≡ some v = rw y at e in
      let same : w ≡ v = cc in rw (← same) (le-max_left (depth w) (depth_members ms))
  | inr n ↦ le_trans (depth-field ms key v (rw n at e)) (le-max_right (depth w) (depth_members ms))
]
