-- ===== src/Timer/Tests.antt =====
-- timer/: the witnesses of the theorems on timers.
use go_libddwaf.Base.{◌+◌, ◌≡◌, refl, true, some, none, List, [], ◌∷◌, bytes, arith, false, lookup}
use go_libddwaf.Base.Int.{pos, ◌-ℤ◌, ◌+ℤ◌, eq_ℤ}
use go_libddwaf.Timer.{
  BaseTimer, View, new_config, with_budget, start_timer, spent_at, remaining_at, stop_timer,
  exhausted_at,
}
use go_libddwaf.Timer.Laws.{start_twice, stop_once, remaining_lem}
use go_libddwaf.Timer.Nodes.{Node, child_stopped, sum_spent}
use go_libddwaf.Timer.Clock.{new_time_cache, nows, nows_lem}
use go_libddwaf.Timer.Timed.{timed, timed_lem, stop_child, leaf_and_node}
use go_libddwaf.Timer.Reports.{sums-child_stopped, sums, raised}

abbrev sample_view : View
sample_view = record { remaining = pos 30; sum_remaining = pos 20 }

abbrev fresh_timer : BaseTimer
fresh_timer = record { config = new_config []; start = none; spent = pos 0 }

abbrev running_timer : BaseTimer
running_timer = record {
  config = new_config (with_budget (pos 50) ∷ []);
  start = some 100;
  spent = pos 0;
}

started_twice :
    start_timer 9 none (start_timer 5 (some sample_view) fresh_timer).1
    ≡ start_timer 5 (some sample_view) fresh_timer
started_twice = start_twice 5 9 (some sample_view) none fresh_timer

running_spent : eq_ℤ (stop_timer 107 running_timer).0 (pos 0) ≡ false
unfolding stop_timer
running_spent = refl

stopped_twice : spent_at 120 (stop_timer 107 running_timer).2 ≡ (stop_timer 107 running_timer).0
stopped_twice = (stop_once 107 120 100 running_timer refl running_spent).0

remaining_running : remaining_at 107 running_timer ≡ pos 50 -ℤ spent_at 107 running_timer
unfolding exhausted_at new_config
remaining_running = remaining_lem 107 running_timer (record {
  budget_low = omega arith;
  budget_high = omega arith;
  spent_low = refl;
  spent_high = omega arith;
})

abbrev run_node : Node
run_node = record {
  times = (bytes "encode", pos 3) ∷ (bytes "decode", pos 4) ∷ [];
  budget = pos 50;
  component_name = bytes "run";
}

abbrev root_nodes : List Node
root_nodes = record { times = (bytes "run", pos 7) ∷ []; budget = pos 90; component_name = [] } ∷ []

abbrev parents : List Node
parents = run_node ∷ root_nodes

sums_reported :
    (after : List Node) × (child_stopped (bytes "decode") (pos 5) parents ≡ some after)
    × (sums after ≡ raised 5 (sums parents))
unfolding lookup
sums_reported = sums-child_stopped (bytes "decode") 5 parents (
  record { value = pos 4; known = refl; not_negative = tt; room = omega arith },
  (record { value = pos 7; known = refl; not_negative = tt; room = omega arith }, tt),
)

-- A run of 9 ns, 5 of which were its decoding.
leaf_and_node_example :
    (n' : Node) × (between after : List Node) × ((stop_child 107
        (bytes "decode")
        (record running_timer { start = some 102 })
        parents).1
      ≡ some (n' ∷ between))
    × ((stop_child 109 (bytes "run") running_timer between).1 ≡ some after)
    × (sum_spent n' ≡ sum_spent run_node +ℤ pos 5)
    × (sums after ≡ raised (5 + 9) (sums root_nodes))
unfolding lookup
leaf_and_node_example =
    leaf_and_node (bytes "decode") 102 107 100 109 (record running_timer { start = some 102 })
      running_timer run_node root_nodes
      (record { started = refl; unspent = refl; in_range = omega arith })
      (record { started = refl; unspent = refl; in_range = omega arith })
      (record { value = pos 4; known = refl; not_negative = tt; room = omega arith })
      (record { value = pos 7; known = refl; not_negative = tt; room = omega arith }, tt)

-- `Timed` around 7 ns.
timed_run :
    (timed 100 107 none (λ x. (x, true)) (record running_timer { start = none })).0.0 ≡ pos 7
timed_run =
    (timed_lem 100 107 none true (record running_timer { start = none }) refl refl (omega arith)
      (omega arith)).0

cached_readings : nows (new_time_cache 3) (5 ∷ 5 ∷ 9 ∷ []) ≡ 5 ∷ 5 ∷ 9 ∷ []
cached_readings =
    nows_lem 3 (5 ∷ 5 ∷ 9 ∷ [])
      (omega arith, omega arith, (omega arith, omega arith, (omega arith, omega arith, tt)))
