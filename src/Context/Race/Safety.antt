-- ===== src/Context/Race/Safety.antt =====
-- context.go under concurrency: who holds the lock.
use go_libddwaf.Base.{
  ℕ, ◌+◌, ◌≤◌, ◌≡◌, ◌≢◌, refl, true, some, List, arith, get_elem?, total, total_two, if◌then◌else◌,
}
use go_libddwaf.Context.Race.{
  Stage, merging_first, storing_first, unlocking_first, merging_second, storing_second,
  unlocking_second, checking, calling, keeping, storing, unlocking, Runner, Closer, closing, closed,
  Client, runner, closer, Shared, turn, turn_close, move, Call, start, run_clients,
}
use go_libddwaf.Context.Race.Sums.{is_orderly, reach-Sum}

-- 1 for a client that holds the lock.
abbrev pub stage_holds : Stage → ℕ
stage_holds merging_first = 1
stage_holds storing_first = 1
stage_holds unlocking_first = 1
stage_holds merging_second = 1
stage_holds storing_second = 1
stage_holds unlocking_second = 1
stage_holds checking = 1
stage_holds calling = 1
stage_holds keeping = 1
stage_holds storing = 1
stage_holds unlocking = 1
stage_holds _ = 0

abbrev pub close_holds : Closer → ℕ
close_holds closing = 0
close_holds closed = 0
close_holds _ = 1

abbrev pub holds : Client → ℕ
holds (runner r) = stage_holds r.stage
holds (closer c) = close_holds c

-- The lock counts its holders.
abbrev pub Locked : Shared → ℕ → Type 0
Locked s n = (if s.locked then 1 else 0) ≡ n

turn-Locked :
    (stage : Stage) (s : Shared) (r : Runner) (o : ℕ)
    → r.stage ≡ stage
    → Locked s (o + stage_holds stage)
    → Locked (turn stage s r).0 (o + holds (turn stage s r).1)
unfolding turn
turn-Locked stage s r o e h = ground (arith, e)

turn_close-Locked :
    (c : Closer) (s : Shared) (o : ℕ)
    → Locked s (o + close_holds c)
    → Locked (turn_close c s).0 (o + holds (turn_close c s).1)
unfolding turn_close
turn_close-Locked c s o h = ground arith

pub move-Locked :
    (s : Shared) (p : Client) (o : ℕ)
    → is_orderly p ≡ true
    → Locked s (o + holds p)
    → Locked (move s p).0 (o + holds (move s p).1)
unfolding move
move-Locked s (runner r) o v h = turn-Locked r.stage s r o refl h
move-Locked s (closer c) o v h = turn_close-Locked c s o h

pub reach-Locked :
    (c : ℕ) (calls : List Call) (schedule : List ℕ)
    → let s = run_clients (start c calls) schedule in Locked s.shared (total holds s.clients)
reach-Locked c calls schedule =
    reach-Sum Locked holds move-Locked (λ x. refl) refl c calls schedule refl

-- Whatever the interleaving of any number of calls of `Run` and `Close` on a context: while one of them
-- holds the lock, from its `Lock` to its `Unlock`, no other does. So neither ddwaf_run nor
-- ddwaf_context_destroy runs beside another of them, nor do changes of the pool or of the truncations.
pub lock_excludes :
    (c : ℕ) (calls : List Call) (schedule : List ℕ) (i j : ℕ) (p q : Client)
    → get_elem? (run_clients (start c calls) schedule).clients i ≡ some p
    → get_elem? (run_clients (start c calls) schedule).clients j ≡ some q
    → i ≢ j
    → holds p ≡ 1
    → holds q ≡ 0
lock_excludes c calls schedule i j p q at at' n h =
    let s = run_clients (start c calls) schedule in
    let two = total_two holds s.clients i j p q at at' n in
    let few : total holds s.clients ≤ 1 = ground (arith, reach-Locked c calls schedule) in
    omega (arith, two, few, h)
