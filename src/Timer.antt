-- ===== src/Timer.antt =====
-- timer/config.go and timer/base_timer.go: the options of a timer, and a timer over an explicit
-- clock. A time is the number of nanoseconds on the monotonic clock; a time.Duration is an int64.
pub mod Nodes
pub mod Trees
pub mod Laws
pub mod Reports
pub mod Clock
pub mod Timed
mod Tests
use go_libddwaf.Base.{
  ℕ, ◌-◌, ◌+◌, ◌^◌, Bool, true, false, ◌&&◌, ◌||◌, not, Option, none, some, List, [], ◌∷◌, ◌++◌,
  Text, length, ltb, min, if◌then◌else◌,
}
use go_libddwaf.Base.Int.{ℤ, pos, negsuc, ◌+ℤ◌, ◌-ℤ◌, wrap64, eq_ℤ, ltb_ℤ}

abbrev pub unlimited_budget : ℤ
unlimited_budget = pos (2 ^ 63 - 1)

abbrev pub dynamic_budget : ℤ
dynamic_budget = negsuc 0

-- What a child reads of its parent when it starts.
pub record View : Type 0 where
  pub remaining : ℤ
  pub sum_remaining : ℤ

-- `dynamic` is `dynamicBudget`, `none` for nil.
pub record Config : Type 0 where
  pub dynamic : Option (View → ℤ)
  pub components : List Text
  pub budget : ℤ

-- Option
abbrev pub Setup : Type 0
Setup = Config → Config

abbrev pub with_budget : ℤ → Setup
with_budget b c = record c { budget = b }

abbrev pub with_unlimited_budget : Setup
with_unlimited_budget c = record c { budget = unlimited_budget }

abbrev pub with_inherited_budget : Setup
with_inherited_budget c = record c {
  budget = dynamic_budget;
  dynamic = some (λ parent. parent.remaining);
}

abbrev pub with_inherited_sum_budget : Setup
with_inherited_sum_budget c = record c {
  budget = dynamic_budget;
  dynamic = some (λ parent. parent.sum_remaining);
}

abbrev pub with_components : List Text → Setup
with_components names c = record c { components = c.components ++ names }

abbrev apply_all : List Setup → Config → Config
apply_all [] c = c
apply_all (option ∷ options) c = apply_all options (option c)

unfoldable pub new_config : List Setup → Config
new_config options =
    apply_all options
      (with_inherited_sum_budget (record { dynamic = none; components = []; budget = pos 0 }))

-- `start` is `none` for the zero time. The parent is kept with the tree, see Timer/Nodes.
pub record BaseTimer : Type 0 where
  pub config : Config
  pub start : Option ℕ
  pub spent : ℤ

-- NewTimer: `none` is one of its two errors.
unfoldable pub new_timer : List Setup → Option BaseTimer
unfolding new_config
new_timer options =
    let config = new_config options in
    if eq_ℤ config.budget dynamic_budget || ltb 0 (length config.components)
    then none
    else some (record { config = config; start = none; spent = pos 0 })

-- time.Since, which stops at the largest duration.
abbrev pub since : ℕ → ℕ → ℤ
since now start = pos (min (now - start) (2 ^ 63 - 1))

-- `timer.config.dynamicBudget(timer.parent)`, if there is a parent and the budget is dynamic. Every
-- configuration has a function: `new_config` begins with one.
abbrev inherited_budget : Option (View → ℤ) → View → ℤ → ℤ
inherited_budget none parent b = b
inherited_budget (some f) parent b = if eq_ℤ b dynamic_budget then f parent else b

abbrev inherited : Option View → Config → Config
inherited none c = c
inherited (some parent) c = record c { budget = inherited_budget c.dynamic parent c.budget }

-- Start, at time `now`: `none` if it was not started before.
abbrev start_from : Option ℕ → ℕ → Option View → BaseTimer → ℕ × BaseTimer
start_from (some at) now parent t = (at, t)
start_from none now parent t =
    (now, record t { config = inherited parent t.config; start = some now })

unfoldable pub start_timer : ℕ → Option View → BaseTimer → ℕ × BaseTimer
start_timer now parent t = start_from t.start now parent t

abbrev spent_since : Option ℕ → ℕ → ℤ → ℤ
spent_since none now spent = pos 0
spent_since (some at) now spent = if eq_ℤ spent (pos 0) then since now at else spent

unfoldable pub spent_at : ℕ → BaseTimer → ℤ
spent_at now t = spent_since t.start now t.spent

unfoldable pub remaining_at : ℕ → BaseTimer → ℤ
unfolding spent_at wrap64 ◌-ℤ◌
remaining_at now t =
    if eq_ℤ t.config.budget unlimited_budget
    then unlimited_budget
    else let remaining = wrap64 (t.config.budget -ℤ spent_at now t) in
      if ltb_ℤ remaining (pos 0) then pos 0 else remaining

unfoldable pub exhausted_at : ℕ → BaseTimer → Bool
unfolding spent_at
exhausted_at now t =
    if eq_ℤ t.config.budget unlimited_budget then false else ltb_ℤ t.config.budget (spent_at now t)

-- Stop: the duration, whether it is reported to the parent, and the timer.
unfoldable pub stop_timer : ℕ → BaseTimer → ℤ × Bool × BaseTimer
unfolding spent_at
stop_timer now t =
    if eq_ℤ t.spent (pos 0)
    then (spent_at now t, true, record t { spent = spent_at now t })
    else (t.spent, false, t)
