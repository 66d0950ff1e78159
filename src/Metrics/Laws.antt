-- ===== src/Metrics/Laws.antt =====
-- metrics.go: what `get` reads after the other operations.
use go_libddwaf.Base.{
  ℕ, ◌+◌, ◌^◌, ◌<◌, ◌≡◌, refl, ◌∙◌, ap, Option, none, some, List, [], ◌∷◌, arith, Text, text_eq,
  Dict, lookup, lookup-insert_self, lookup-insert_ne, if◌then◌else◌, Bool-cases, inl, inr,
  text_eq→eq, text_key, subst,
}
use go_libddwaf.Base.Int.{ℤ, pos, ◌+ℤ◌, wrap64}
use go_libddwaf.Metrics.{
  MetricsStore, no_metrics, add, add_to, get, merge, merge_into, or_zero, or_empty,
}

-- What stands at `j` in a map to which `d` is added at `k`.
value-add_to :
    (j k : Text) (d : ℤ) (m : Dict Text ℤ)
    → or_zero (lookup j (add_to k d m))
      ≡ (if text_eq k j then wrap64 (or_zero (lookup j m) +ℤ d) else or_zero (lookup j m))
unfolding add_to
value-add_to j k d m = elim (Bool-cases (text_eq k j)) [
  | inl e ↦
      rw (e, text_eq→eq k j e, lookup-insert_self j (wrap64 (or_zero (lookup j m) +ℤ d)) m) refl
  | inr e ↦ rw (e, lookup-insert_ne k j (wrap64 (or_zero (lookup k m) +ℤ d)) m e) refl
]

-- `get` reads the old value plus the duration, in int64, at the key that `add` was called with, and
-- the old value at every other key.
pub get-add :
    (j k : Text) (d : ℤ) (s : MetricsStore)
    → get j (add k d s) ≡ (if text_eq k j then wrap64 (get j s +ℤ d) else get j s)
unfolding get add
get-add j k d s = value-add_to j k d (or_empty s.data_map)

-- A sequence of calls of `add`, and the sum of the durations at one key.
abbrev pub add_all : List (Text × ℕ) → MetricsStore → MetricsStore
add_all [] s = s
add_all ((k, d) ∷ l) s = add_all l (add k (pos d) s)

abbrev pub sum_at : Text → List (Text × ℕ) → ℕ
sum_at j [] = 0
sum_at j ((k, d) ∷ l) = (if text_eq k j then d else 0) + sum_at j l

add_pos : (n d : ℕ) → n + d < 2 ^ 63 → wrap64 (pos n +ℤ pos d) ≡ pos (n + d)
unfolding wrap64 ◌+ℤ◌
add_pos n d b = ground arith

get-add_all_from :
    (j : Text) (l : List (Text × ℕ)) (s : MetricsStore) (n : ℕ)
    → get j s ≡ pos n
    → n + sum_at j l < 2 ^ 63
    → get j (add_all l s) ≡ pos (n + sum_at j l)
get-add_all_from j [] s n e b = e ∙ ap pos (omega arith)
get-add_all_from j ((k, d) ∷ l) s n e b = elim (Bool-cases (text_eq k j)) [
  | inl h ↦
      let here : get j (add k (pos d) s) ≡ pos (n + d) =
        get-add j k (pos d) s ∙ rw (h, e) (add_pos n d (ground arith)) in
      get-add_all_from j l (add k (pos d) s) (n + d) here (ground arith) ∙ ap pos (ground arith)
  | inr h ↦
      let here : get j (add k (pos d) s) ≡ pos n = get-add j k (pos d) s ∙ rw h e in
      get-add_all_from j l (add k (pos d) s) n here (ground arith) ∙ ap pos (ground arith)
]

-- From the empty store, after any sequence of calls of `add` with durations that are not negative,
-- `get` reads the sum of the durations at its key, if that sum is below 2^63.
pub get-add_all :
    (j : Text) (l : List (Text × ℕ))
    → sum_at j l < 2 ^ 63
    → get j (add_all l no_metrics) ≡ pos (sum_at j l)
unfolding get
get-add_all j l b = get-add_all_from j l no_metrics 0 refl (omega arith) ∙ ap pos (omega arith)

-- The keys of a Go map are distinct.
abbrev pub IsMap : Dict Text ℤ → Type 0
IsMap [] = Unit {0}
IsMap ((k, d) ∷ m) = (lookup k m ≡ none) × IsMap m

-- The old value plus what stands at the key in the other map, if anything does.
abbrev pub merged_value : ℤ → Option ℤ → ℤ
merged_value old none = old
merged_value old (some d) = wrap64 (old +ℤ d)

value-merge_into :
    (j : Text) (other m : Dict Text ℤ)
    → IsMap other
    → or_zero (lookup j (merge_into other m)) ≡ merged_value (or_zero (lookup j m)) (lookup j other)
unfolding merge_into lookup
value-merge_into j [] m h = refl
value-merge_into j ((k, d) ∷ other) m (new, h) = elim (Bool-cases (text_eq k j)) [
  | inl e ↦
      let gone : lookup j other ≡ none =
        subst (λ x. lookup x other ≡ none) (text_eq→eq k j e) new in
      value-merge_into j other (add_to k d m) h ∙ rw (value-add_to j k d m, e, gone) refl
  | inr e ↦ value-merge_into j other (add_to k d m) h ∙ rw (value-add_to j k d m, e) refl
]

-- After `merge` of a map, `get` reads the old value plus the map's, in int64, at each of its keys,
-- and the old value at every other key.
pub get-merge :
    (j : Text) (other : Dict Text ℤ) (s : MetricsStore)
    → IsMap other
    → get j (merge other s) ≡ merged_value (get j s) (lookup j other)
unfolding get merge
get-merge j other s h = value-merge_into j other (or_empty s.data_map) h
