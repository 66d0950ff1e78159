-- ===== src/Timer/Timed.antt =====
-- timer/base_timer.go: `Timed`, and `Stop` with the ancestors; timer/node_timer.go: a node that is timed while its
-- leaves are.
use go_libddwaf.Base.{
  ℕ, ◌+◌, ◌^◌, ◌≤◌, ◌<◌, ◌≡◌, refl, sym, ap, ◌∙◌, Bool, true, Option, none, some, List, [], ◌∷◌,
  arith, Text, text_key, Dict, ◌-◌, min, if◌then◌else◌,
}
use mathlib.Core.Path.{ap₂}
use go_libddwaf.Base.Int.{ℤ, pos, ◌+ℤ◌}
use go_libddwaf.Timer.{BaseTimer, View, start_timer, stop_timer}
use go_libddwaf.Timer.Nodes.{Node, add_time, child_stopped, sum_spent}
use go_libddwaf.Timer.Reports.{
  HasRoom, HasRoom-add_time, AllHaveRoom, sums, raised, sums-child_stopped, sum_spent-add_time,
}

-- Timed, with the times of `Start` and of `Stop`. The function gets the timer, and may start and stop it
-- too; whether it panics is returned beside what `Stop` returns, which is called either way.
unfoldable pub timed :
    ℕ → ℕ → Option View → (BaseTimer → BaseTimer × Bool) → BaseTimer → (ℤ × Bool × BaseTimer) × Bool
unfolding start_timer stop_timer
timed now later parent timed_func t =
    let (t', panicked) = timed_func (start_timer now parent t).1 in (stop_timer later t', panicked)

-- A function that leaves the timer alone, panicking or not, on a timer that was not started: `Timed` returns
-- the time between the start and the stop, and this time is reported to the parent.
pub timed_lem :
    (now later : ℕ) (parent : Option View) (panics : Bool) (t : BaseTimer)
    → t.start ≡ none
    → t.spent ≡ pos 0
    → now ≤ later
    → later < now + 2 ^ 63
    → let ((spent, report, t'), panicked) = timed now later parent (λ x. (x, panics)) t in
      (spent ≡ pos (later - now))
      × (report ≡ true)
      × (t'.spent ≡ pos (later - now))
      × (panicked ≡ panics)
unfolding timed start_timer stop_timer
timed_lem now later parent panics t fresh unspent h b = ground (arith, fresh, unspent)

HasRoom-less : (name : Text) (a b : ℕ) (m : Dict Text ℤ) → HasRoom name (a + b) m → HasRoom name a m
HasRoom-less name a b m h = record {
  value = h.value;
  known = h.known;
  not_negative = h.not_negative;
  room = omega (arith, h.room);
}

AllHaveRoom-less :
    (name : Text) (a b : ℕ) (parents : List Node)
    → AllHaveRoom name (a + b) parents
    → AllHaveRoom name a parents
AllHaveRoom-less name a b [] h = tt
AllHaveRoom-less name a b (n ∷ parents) (h, hs) =
    (HasRoom-less name a b n.times h, AllHaveRoom-less n.component_name a b parents hs)

-- After a report there is room for the rest.
room_after :
    (name : Text) (a b : ℕ) (parents : List Node)
    → AllHaveRoom name (a + b) parents
    → (after : List Node) × (child_stopped name (pos a) parents ≡ some after)
      × AllHaveRoom name b after
unfolding child_stopped
room_after name a b [] h = ([], refl, tt)
room_after name a b (n ∷ parents) (h, hs) =
    let (after, e, rest) = room_after n.component_name a b parents hs in
    (
      record n { times = add_time name (pos a) n.times } ∷ after,
      rw (h.known, child_stopped) (rw e refl),
      (HasRoom-add_time name a b n.times h, rest),
    )

raised_twice : (a b : ℕ) (l : List ℤ) → raised b (raised a l) ≡ raised (a + b) l
unfolding ◌+ℤ◌
raised_twice a b [] = refl
raised_twice a b (z ∷ l) = ap₂ ◌∷◌ (ground arith) (raised_twice a b l)

abbrev or_none : Option (List Node) → List Node
or_none none = []
or_none (some nodes) = nodes

-- Two reports under one name, one after the other.
sums-twice :
    (name : Text) (a b : ℕ) (parents : List Node)
    → AllHaveRoom name (a + b) parents
    → (between after : List Node) × (child_stopped name (pos a) parents ≡ some between)
      × (child_stopped name (pos b) between ≡ some after)
      × (sums after ≡ raised (a + b) (sums parents))
sums-twice name a b parents h =
    let (between, e, room) = room_after name a b parents h in
    let (x, ex, sx) = sums-child_stopped name a parents (AllHaveRoom-less name a b parents h) in
    let (after, f, s) = sums-child_stopped name b between room in
    let same : between ≡ x = ap or_none (sym e ∙ ex) in
    (
      between,
      after,
      e,
      f,
      s ∙ (ap (raised b) (ap sums same ∙ sx) ∙ raised_twice a b (sums parents)),
    )

-- A leaf under `n` reports `a`, and then the timer of `n` itself reports `b`.
reported_twice :
    (leaf : Text) (a b : ℕ) (n : Node) (parents : List Node)
    → HasRoom leaf a n.times
    → AllHaveRoom n.component_name (a + b) parents
    → (n' : Node) × (between after : List Node) × (child_stopped leaf (pos a) (n ∷ parents)
        ≡ some (n' ∷ between))
      × (child_stopped n.component_name (pos b) between ≡ some after)
      × (sum_spent n' ≡ sum_spent n +ℤ pos a)
      × (sums after ≡ raised (a + b) (sums parents))
unfolding child_stopped
reported_twice leaf a b n parents h hs =
    let (between, after, e, f, s) = sums-twice n.component_name a b parents hs in
    let n' : Node = record n { times = add_time leaf (pos a) n.times } in
    (n', between, after, rw h.known (rw e refl), f, sum_spent-add_time leaf a n h, s)

-- Stop, of a timer that its parent knows as `name`: what it returns, the timer, and the ancestors, which
-- are told unless the timer was stopped before. A root has none.
unfoldable pub stop_child : ℕ → Text → BaseTimer → List Node → (ℤ × BaseTimer) × Option (List Node)
unfolding stop_timer child_stopped
stop_child now name t parents =
    let (spent, report, t') = stop_timer now t in
    ((spent, t'), if report then child_stopped name spent parents else some parents)

-- The timer was started at `at`, was not stopped, and has run for less than the largest duration at `now`.
pub record IsRunning (at now : ℕ) (t : BaseTimer) : Type 0 where
  pub started : t.start ≡ some at
  pub unspent : t.spent ≡ pos 0
  pub in_range : now < at + 2 ^ 63

stop_child-IsRunning :
    (at now : ℕ) (name : Text) (t : BaseTimer) (parents : List Node)
    → IsRunning at now t
    → stop_child now name t parents ≡ (
      (pos (now - at), record t { spent = pos (now - at) }),
      child_stopped name (pos (now - at)) parents,
    )
unfolding stop_child stop_timer
stop_child-IsRunning at now name t parents r =
    let short : min (now - at) (2 ^ 63 - 1) ≡ now - at = omega (arith, r.in_range) in
    rw (r.unspent, r.started) (rw short refl)

-- A leaf under the node `n` runs from `i` and is stopped at `now`, and then the timer of `n` itself, which
-- runs from `j`, is stopped at `later`. If every ancestor knows its child and has room for both times, the
-- sum of `n` grows by the time of the leaf, and that of every ancestor up to the root by the time of the
-- leaf and that of the node together, although the leaf may have run inside the time of the node.
pub leaf_and_node :
    (leaf : Text) (i now j later : ℕ) (tl tn : BaseTimer) (n : Node) (parents : List Node)
    → IsRunning i now tl
    → IsRunning j later tn
    → HasRoom leaf (now - i) n.times
    → AllHaveRoom n.component_name ((now - i) + (later - j)) parents
    → (n' : Node) × (between after : List Node) × ((stop_child now leaf tl (n ∷ parents)).1
        ≡ some (n' ∷ between))
      × ((stop_child later n.component_name tn between).1 ≡ some after)
      × (sum_spent n' ≡ sum_spent n +ℤ pos (now - i))
      × (sums after ≡ raised ((now - i) + (later - j)) (sums parents))
leaf_and_node leaf i now j later tl tn n parents rl rn h hs =
    let (n', between, after, e, f, s, u) =
      reported_twice leaf (now - i) (later - j) n parents h hs in
    (
      n',
      between,
      after,
      ap (λ x. x.1) (stop_child-IsRunning i now leaf tl (n ∷ parents) rl) ∙ e,
      ap (λ x. x.1) (stop_child-IsRunning j later n.component_name tn between rn) ∙ f,
      s,
      u,
    )
