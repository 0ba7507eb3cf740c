-- ===== src/Validation/Regex.antt =====
-- crates/chasm-engine/src/validation.rs: the cache of compiled patterns.
pub mod Laws
use chasm.Prelude.{ℕ, Option, some, none, List, [], ◌∷◌, length, ltb, leb, if◌then◌else◌}
use chasm.Text.{Text, get, insert}

abbrev pub regex_cache_capacity : ℕ
regex_cache_capacity = 256

abbrev pub max_pattern_bytes : ℕ
max_pattern_bytes = 65536

module _ {R : Type 0} (compile : Text → Option R) where
  -- The pattern, compiled or not, and the cache that the call leaves.
  unfoldable pub cached_regex : List (Text × Option R) → Text → Option R × List (Text × Option R)
  cached_regex cache pattern =
      if ltb max_pattern_bytes (length pattern) then (none, cache) else elim (get cache pattern) [
        | some entry ↦ (entry, cache)
        | none ↦
            let map = if leb regex_cache_capacity (length cache) then [] else cache in
            (compile pattern, insert map pattern (compile pattern))
      ]

-- What every call returns.
unfoldable pub usable_regex {ℓ} : {R : Type ℓ} → (Text → Option R) → Text → Option R
usable_regex compile pattern =
    if ltb max_pattern_bytes (length pattern) then none else compile pattern
