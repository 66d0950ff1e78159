-- ===== src/Metrics.antt =====
-- metrics.go: the durations that a context adds up, by component name. The lock makes every
-- operation atomic. A time.Duration is an int64.
pub mod Laws
mod Tests
use go_libddwaf.Base.{Option, none, some, [], ◌∷◌, Text, Dict, lookup, insert, text_key}
use go_libddwaf.Base.Int.{ℤ, pos, ◌+ℤ◌, wrap64}

-- `data`, `none` for the nil map.
pub record MetricsStore : Type 0 where
  pub data_map : Option (Dict Text ℤ)

abbrev pub no_metrics : MetricsStore
no_metrics = record { data_map = none }

abbrev pub or_empty : Option (Dict Text ℤ) → Dict Text ℤ
or_empty none = []
or_empty (some m) = m

abbrev pub or_zero : Option ℤ → ℤ
or_zero none = pos 0
or_zero (some d) = d

-- `metrics.data[key] += duration`
unfoldable pub add_to : Text → ℤ → Dict Text ℤ → Dict Text ℤ
unfolding lookup insert ◌+ℤ◌ wrap64
add_to key duration m = insert key (wrap64 (or_zero (lookup key m) +ℤ duration)) m

unfoldable pub add : Text → ℤ → MetricsStore → MetricsStore
unfolding add_to
add key duration s = record { data_map = some (add_to key duration (or_empty s.data_map)) }

unfoldable pub get : Text → MetricsStore → ℤ
unfolding lookup
get key s = or_zero (lookup key (or_empty s.data_map))

-- `copy`, and `none` for the nil that it returns for the nil map.
abbrev pub copy : MetricsStore → Option (Dict Text ℤ)
copy s = s.data_map

-- The loop of `merge` over the entries of `other`.
unfoldable pub merge_into : Dict Text ℤ → Dict Text ℤ → Dict Text ℤ
unfolding add_to
merge_into [] m = m
merge_into ((key, val) ∷ other) m = merge_into other (add_to key val m)

unfoldable pub merge : Dict Text ℤ → MetricsStore → MetricsStore
unfolding merge_into
merge other s = record { data_map = some (merge_into other (or_empty s.data_map)) }
