-- ===== src/Context/Run/Tests.antt =====
-- context.go: runs of `Run`, and the witnesses of its theorems.
use go_libddwaf.Base.{ℕ, ◌≤◌, ◌%◌, ◌/◌, ◌^◌, ◌≡◌, refl, Option, none, some, length}
use go_libddwaf.Base.Int.{ℤ, pos}
use go_libddwaf.Errors.{timeout}
use go_libddwaf.Encoder.{resolve_pointer, encode_map_key_from_string}
use go_libddwaf.Encoder.Containers.{encode_map_key}
use go_libddwaf.Encoder.Depth.{encode_value}
use go_libddwaf.Timer.{start_timer}
use go_libddwaf.Timer.Nodes.{sum_spent}
use go_libddwaf.Metrics.{get}
use go_libddwaf.Decoder.{Decoded, ok, err, fault, unfinished}
use go_libddwaf.Context.Run.{Failure, failed, Ran, waf_run_tag}
use go_libddwaf.Context.Run.Whole.{run, timeout_of}
use go_libddwaf.Context.Run.Encodings.{Yields}
use go_libddwaf.Context.Run.Laws.{Counts, run-Counts, timeout_of_le}
use go_libddwaf.Context.Run.Samples.{world, fresh, data_of_7}

-- The error, the timeouts counted and the number of calls.
abbrev summary : Decoded Ran → Option (Option Failure × ℕ × ℕ)
summary (ok r) = some (r.failure, r.context.timeout_count, length r.calls)
summary (err e) = none
summary fault = none
summary unfinished = none

run_in_time : summary (run (world 0) (fresh (pos 90000)) data_of_7) ≡ some (none, 0, 1)
unfolding run encode_value start_timer resolve_pointer encode_map_key encode_map_key_from_string
run_in_time = refl

run_late :
    summary (run (world 1) (fresh (pos 90000)) data_of_7) ≡ some (some (failed timeout), 1, 1)
unfolding run encode_value start_timer resolve_pointer encode_map_key encode_map_key_from_string
run_late = refl

-- The timer of the context runs out during the encoding.
run_hurried :
    summary (run (world 0) (fresh (pos 20)) data_of_7) ≡ some (some (failed timeout), 1, 0)
unfolding run encode_value start_timer resolve_pointer encode_map_key encode_map_key_from_string
run_hurried = refl

-- The duration of the run in the metrics, and the time that the context has spent by its own account.
abbrev durations : Decoded Ran → Option (ℤ × ℤ)
durations (ok r) = some (get waf_run_tag r.context.metrics, sum_spent r.context.timer)
durations (err e) = none
durations fault = none
durations unfinished = none

-- The encoding took 50 ns and the decoding 10 ns: both are counted in the root once by their own timers
-- and once more by that of the run.
spent_twice : durations (run (world 0) (fresh (pos 90000)) data_of_7) ≡ some (pos 90, pos 150)
unfolding run encode_value start_timer resolve_pointer encode_map_key encode_map_key_from_string get
    sum_spent
spent_twice = refl

run-Counts_example :
    Yields (Counts (fresh (pos 90000))) (run (world 0) (fresh (pos 90000)) data_of_7)
run-Counts_example = run-Counts (world 0) (fresh (pos 90000)) data_of_7

-- 2 ^ 53 microseconds.
timeout_of_large :
    (timeout_of (pos 9007199254740992000) ≤ 9007199254740992000 / 1000)
    × (timeout_of (pos 9007199254740992000) % 2 ^ 52 ≡ 9007199254740992000 / 1000 % 2 ^ 52)
timeout_of_large = timeout_of_le (pos 9007199254740992000)
