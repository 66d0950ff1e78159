-- ===== src/Timer/Trees.antt =====
-- timer/node_timer.go: the timers of a tree, and how they are made.
use go_libddwaf.Base.{
  ℕ, Option, none, some, [], Text, ◌⊎◌, inl, inr, length, ◌==◌, lookup, text_key, if◌then◌else◌,
}
use go_libddwaf.Base.Int.{ℤ, pos, eq_ℤ}
use go_libddwaf.Timer.{Setup, Config, BaseTimer, new_config, dynamic_budget, start_timer}
use go_libddwaf.Timer.Nodes.{Node, new_components, sum_remaining}
use mathlib.Core.List.{List}

-- The errors of the three constructors.
pub data TimerError : Type 0 where
  dynamic_root missing_components extra_components component_not_found : TimerError

-- A `baseTimer` that has not started.
abbrev pub unstarted : Config → BaseTimer
unstarted config = record { config = config; start = none; spent = pos 0 }

-- A `nodeTimer`: its `baseTimer` and its components.
abbrev pub node_of : Config → Text → BaseTimer × Node
node_of config name = (
  unstarted config,
  record {
    times = new_components config.components [];
    budget = config.budget;
    component_name = name;
  },
)

-- NewTreeTimer; the root has no name.
unfoldable pub new_tree_timer : List Setup → TimerError ⊎ (BaseTimer × Node)
unfolding new_config new_components
new_tree_timer options =
    let config = new_config options in
    if eq_ℤ config.budget dynamic_budget
    then inl dynamic_root
    else if length config.components == 0
    then inl missing_components
    else inr (node_of config [])

-- `_, ok := timer.components.lookup[name]`
abbrev pub if_found : {A : Type 0} → Option ℤ → A → TimerError ⊎ A
if_found none a = inl component_not_found
if_found (some value) a = inr a

-- NewNode
unfoldable pub new_node : Node → Text → List Setup → TimerError ⊎ (BaseTimer × Node)
unfolding new_config new_components lookup
new_node parent name options =
    let config = new_config options in
    if length config.components == 0
    then inl missing_components
    else if_found (lookup name parent.times) (node_of config name)

-- NewLeaf
unfoldable pub new_leaf : Node → Text → List Setup → TimerError ⊎ BaseTimer
unfolding new_config lookup
new_leaf parent name options =
    let config = new_config options in
    if length config.components == 0
    then if_found (lookup name parent.times) (unstarted config)
    else inl extra_components

-- Start of a timer whose parent is a node: `remaining` is the parent's `Remaining`.
abbrev pub start_below : ℕ → ℤ → Node → BaseTimer → BaseTimer
start_below now remaining parent t =
    (start_timer now (some (record { remaining = remaining; sum_remaining = sum_remaining parent }))
      t).1

-- The node with the budget that its timer has got by `Start`.
abbrev pub with_budget_of : BaseTimer → Node → Node
with_budget_of t n = record n { budget = t.config.budget }
