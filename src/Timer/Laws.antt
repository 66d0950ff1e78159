-- ===== src/Timer/Laws.antt =====
-- timer/: what the operations of a timer promise together.
use go_libddwaf.Base.{ℕ, ◌^◌, ◌≤◌, ◌<◌, ◌≡◌, false, Option, some, arith, text_key, if◌then◌else◌}
use go_libddwaf.Base.Int.{pos, ◌-ℤ◌, wrap64, eq_ℤ, pos_part, neg_part}
use go_libddwaf.Timer.{
  BaseTimer, View, unlimited_budget, start_timer, spent_at, remaining_at, exhausted_at, stop_timer,
}

-- Starting a timer again, at any time and with any parent, returns the first start and changes nothing.
pub start_twice :
    (now later : ℕ) (parent parent' : Option View) (t : BaseTimer)
    → start_timer later parent' (start_timer now parent t).1 ≡ start_timer now parent t
unfolding start_timer
start_twice now later parent parent' t = ground arith

-- A timer that was started and stops with a duration other than 0 keeps that duration: at any later
-- time `Spent` and `Stop` return it, and `Stop` reports nothing more to the parent.
pub stop_once :
    (now later at : ℕ) (t : BaseTimer)
    → t.start ≡ some at
    → eq_ℤ (stop_timer now t).0 (pos 0) ≡ false
    → (spent_at later (stop_timer now t).2 ≡ (stop_timer now t).0)
      × (stop_timer later (stop_timer now t).2
          ≡ ((stop_timer now t).0, false, (stop_timer now t).2))
unfolding stop_timer spent_at
stop_once now later at t started h = ground arith

-- The durations of a timer are those of a clock that moves forward.
pub record IsTimer (t : BaseTimer) : Type 0 where
  pub budget_low : neg_part t.config.budget ≤ 1
  pub budget_high : pos_part t.config.budget < 2 ^ 63
  pub spent_low : neg_part t.spent ≡ 0
  pub spent_high : pos_part t.spent < 2 ^ 63

-- For a timer whose budget is an int64 of at least -1 and whose duration is one that is not negative,
-- `Remaining`, `Exhausted` and `Spent` agree: without a budget what remains is unlimited; an exhausted
-- timer has nothing left; else what remains is the budget less what is spent.
pub remaining_lem :
    (now : ℕ) (t : BaseTimer)
    → IsTimer t
    → remaining_at now t ≡ (
        if eq_ℤ t.config.budget unlimited_budget
        then unlimited_budget
        else if exhausted_at now t
        then pos 0
        else t.config.budget -ℤ spent_at now t)
unfolding remaining_at exhausted_at spent_at wrap64 ◌-ℤ◌
remaining_lem now t v = ground (arith, v.budget_low, v.budget_high, v.spent_low, v.spent_high)
