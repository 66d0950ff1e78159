-- ===== src/Timer/Nodes.antt =====
-- timer/node_timer.go and timer/component.go: what the timers of a tree add up. The ancestors of a
-- timer are a list, from its parent to the root.
use go_libddwaf.Base.{
  Bool, false, Option, none, some, List, [], ◌∷◌, Text, Dict, lookup, insert, text_key,
  if◌then◌else◌,
}
use go_libddwaf.Base.Int.{ℤ, pos, ◌+ℤ◌, ◌-ℤ◌, wrap64, eq_ℤ, ltb_ℤ}
use go_libddwaf.Timer.{unlimited_budget}

-- `times` is what `lookup` points to.
pub record Node : Type 0 where
  pub times : Dict Text ℤ
  pub budget : ℤ
  pub component_name : Text

-- A name that is given twice has one entry.
unfoldable pub new_components : List Text → Dict Text ℤ → Dict Text ℤ
unfolding insert
new_components [] times = times
new_components (name ∷ names) times = new_components names (insert name (pos 0) times)

abbrev pub added : Text → ℤ → Option ℤ → Dict Text ℤ → Dict Text ℤ
added name duration none times = times
added name duration (some value) times = insert name (wrap64 (value +ℤ duration)) times

-- AddTime
unfoldable pub add_time : Text → ℤ → Dict Text ℤ → Dict Text ℤ
unfolding lookup insert wrap64 ◌+ℤ◌
add_time name duration times = added name duration (lookup name times) times

-- childStopped: `none` where it dereferences nil because a component is unknown.
abbrev pub reported : Option ℤ → Node → Option (List Node) → Option (List Node)
reported (some value) n (some parents) = some (n ∷ parents)
reported value n parents = none

unfoldable pub child_stopped : Text → ℤ → List Node → Option (List Node)
unfolding lookup add_time
child_stopped name duration [] = some []
child_stopped name duration (n ∷ parents) =
    reported (lookup name n.times) (record n { times = add_time name duration n.times })
      (child_stopped n.component_name duration parents)

abbrev pub sum_from : ℤ → Dict Text ℤ → ℤ
sum_from sum [] = sum
sum_from sum ((name, value) ∷ times) = sum_from (wrap64 (sum +ℤ value)) times

unfoldable pub sum_spent : Node → ℤ
unfolding wrap64 ◌+ℤ◌
sum_spent n = sum_from (pos 0) n.times

unfoldable pub sum_remaining : Node → ℤ
unfolding sum_spent wrap64 ◌-ℤ◌
sum_remaining n =
    if eq_ℤ n.budget unlimited_budget
    then unlimited_budget
    else let remaining = wrap64 (n.budget -ℤ sum_spent n) in
      if ltb_ℤ remaining (pos 0) then pos 0 else remaining

unfoldable pub sum_exhausted : Node → Bool
unfolding sum_spent
sum_exhausted n = if eq_ℤ n.budget unlimited_budget then false else ltb_ℤ n.budget (sum_spent n)

-- Stats: a copy of the times.
abbrev pub node_stats : Node → Dict Text ℤ
node_stats n = n.times
