-- ===== src/Context/Merge.antt =====
-- context.go: `merge` of two maps of slices. Go iterates over the keys in no fixed order; here it is
-- the order in which they are first seen. The results are slices of one array of values.
use go_libddwaf.Base.{
  ℕ, zero, suc, ◌+◌, ◌==◌, List, [], ◌∷◌, ◌++◌, length, Dict, Key, lookup, insert, or_nil,
  if◌then◌else◌,
}

abbrev pub drop {ℓ} : {A : Type ℓ} → ℕ → List A → List A
drop zero xs = xs
drop (suc n) [] = []
drop (suc n) (x ∷ xs) = drop n xs

-- values[start:]
abbrev pub from {ℓ} : {V : Type ℓ} → ℕ → List V → List V
from start values = drop start values

module _ {ℓ κ} {K : Type ℓ} {V : Type κ} ⦃e : Key K⦄ where
  -- keys[k] = nothing, for every key of a map.
  unfoldable pub add_keys : Dict K (List V) → Dict K (Unit {0}) → Dict K (Unit {0})
  unfolding insert
  add_keys [] keys = keys
  add_keys ((k, v) ∷ m) keys = add_keys m (insert k tt keys)

  -- The second loop, over the keys that are left: the array of values grows, and each result is the
  -- part of it that was added for its key.
  unfoldable pub merge_keys :
      Dict K (List V)
      → Dict K (List V)
      → Dict K (Unit {0})
      → List V
      → Dict K (List V)
      → Dict K (List V)
  unfolding lookup insert
  merge_keys a b [] values merged = merged
  merge_keys a b ((k, u) ∷ keys) values merged =
      let values' = (values ++ or_nil (lookup k a)) ++ or_nil (lookup k b) in
      merge_keys a b keys values' (insert k (from (length values) values') merged)

  -- The nil map is the empty one.
  unfoldable pub merge : Dict K (List V) → Dict K (List V) → Dict K (List V)
  unfolding add_keys merge_keys
  merge a b =
      if length a + length b == 0 then [] else merge_keys a b (add_keys b (add_keys a [])) [] []
