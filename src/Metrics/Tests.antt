-- ===== src/Metrics/Tests.antt =====
-- metrics.go: the witnesses of the theorems on the metrics store.
use go_libddwaf.Base.{ℕ, ◌≡◌, refl, List, [], ◌∷◌, bytes, Text, Dict, lookup, arith, text_key}
use go_libddwaf.Base.Int.{ℤ, pos, wrap64, ◌+ℤ◌}
use go_libddwaf.Metrics.{no_metrics, add, get, merge}
use go_libddwaf.Metrics.Laws.{get-add, get-add_all, get-merge, add_all}

abbrev some_times : List (Text × ℕ)
some_times = (bytes "run", 3) ∷ (bytes "encode", 5) ∷ (bytes "run", 4) ∷ []

abbrev other_times : Dict Text ℤ
other_times = (bytes "encode", pos 2) ∷ (bytes "decode", pos 1) ∷ []

added_once :
    get (bytes "run") (add (bytes "run") (pos 3) no_metrics)
    ≡ wrap64 (get (bytes "run") no_metrics +ℤ pos 3)
added_once = get-add (bytes "run") (bytes "run") (pos 3) no_metrics

get_added : get (bytes "run") (add_all some_times no_metrics) ≡ pos 7
get_added = get-add_all (bytes "run") some_times (omega arith)

get_merged :
    get (bytes "encode") (merge other_times (add_all some_times no_metrics))
    ≡ wrap64 (get (bytes "encode") (add_all some_times no_metrics) +ℤ pos 2)
unfolding lookup
get_merged =
    get-merge (bytes "encode") other_times (add_all some_times no_metrics) (refl, (refl, tt))
