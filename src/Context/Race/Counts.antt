-- ===== src/Context/Race/Counts.antt =====
-- context.go under concurrency: the calls of ddwaf_run and the timeouts that are counted.
use go_libddwaf.Base.{
  ℕ, ◌+◌, ◌%◌, ◌^◌, ◌≡◌, refl, Bool, true, false, ◌&&◌, ◌||◌, List, arith, length, total,
  if◌then◌else◌,
}
use go_libddwaf.Context.Race.{
  Stage, calling, keeping, storing, done, Runner, Closer, Client, runner, closer, Shared, turn,
  turn_close, move, Call, start, run_clients,
}
use go_libddwaf.Context.Race.Sums.{is_orderly, reach-Sum}

abbrev in_call : Stage → Bool
in_call calling = true
in_call keeping = true
in_call storing = true
in_call _ = false

abbrev is_done : Stage → Bool
is_done done = true
is_done _ = false

-- 1 for a run that has called ddwaf_run: from then on it keeps the blocks of its encoder.
abbrev pub called : Client → ℕ
called (runner r) = if in_call r.stage || r.kept then 1 else 0
called (closer c) = 0

-- 1 for a run that has returned the timeout.
abbrev pub returned_timeout : Client → ℕ
returned_timeout (runner r) = if is_done r.stage && r.timed_out then 1 else 0
returned_timeout (closer c) = 0

abbrev pub Called : Shared → ℕ → Type 0
Called s n = length s.calls ≡ n

abbrev pub TimedOut : Shared → ℕ → Type 0
TimedOut s n = s.timeout_count % 2 ^ 64 ≡ n % 2 ^ 64

turn-Called :
    (stage : Stage) (s : Shared) (r : Runner) (o : ℕ)
    → r.stage ≡ stage
    → is_orderly (runner r) ≡ true
    → Called s (o + called (runner r))
    → Called (turn stage s r).0 (o + called (turn stage s r).1)
unfolding turn
turn-Called stage s r o e v h = ground (arith, e, v)

turn_close-Called :
    (c : Closer) (s : Shared) (o : ℕ)
    → Called s (o + 0)
    → Called (turn_close c s).0 (o + called (turn_close c s).1)
unfolding turn_close
turn_close-Called c s o h = ground arith

move-Called :
    (s : Shared) (p : Client) (o : ℕ)
    → is_orderly p ≡ true
    → Called s (o + called p)
    → Called (move s p).0 (o + called (move s p).1)
unfolding move
move-Called s (runner r) o v h = turn-Called r.stage s r o refl v h
move-Called s (closer c) o v h = turn_close-Called c s o h

pub reach-Called :
    (c : ℕ) (calls : List Call) (schedule : List ℕ)
    → let s = run_clients (start c calls) schedule in Called s.shared (total called s.clients)
unfolding total
reach-Called c calls schedule =
    reach-Sum Called called move-Called (λ x. refl) refl c calls schedule refl

turn-TimedOut :
    (stage : Stage) (s : Shared) (r : Runner) (o : ℕ)
    → r.stage ≡ stage
    → is_orderly (runner r) ≡ true
    → TimedOut s (o + returned_timeout (runner r))
    → TimedOut (turn stage s r).0 (o + returned_timeout (turn stage s r).1)
unfolding turn
turn-TimedOut stage s r o e v h = ground (arith, e, v)

turn_close-TimedOut :
    (c : Closer) (s : Shared) (o : ℕ)
    → TimedOut s (o + 0)
    → TimedOut (turn_close c s).0 (o + returned_timeout (turn_close c s).1)
unfolding turn_close
turn_close-TimedOut c s o h = ground arith

move-TimedOut :
    (s : Shared) (p : Client) (o : ℕ)
    → is_orderly p ≡ true
    → TimedOut s (o + returned_timeout p)
    → TimedOut (move s p).0 (o + returned_timeout (move s p).1)
unfolding move
move-TimedOut s (runner r) o v h = turn-TimedOut r.stage s r o refl v h
move-TimedOut s (closer c) o v h = turn_close-TimedOut c s o h

pub reach-TimedOut :
    (c : ℕ) (calls : List Call) (schedule : List ℕ)
    → let s = run_clients (start c calls) schedule in
      TimedOut s.shared (total returned_timeout s.clients)
unfolding total
reach-TimedOut c calls schedule =
    reach-Sum TimedOut returned_timeout move-TimedOut (λ x. refl) refl c calls schedule refl
