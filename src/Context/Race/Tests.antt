-- ===== src/Context/Race/Tests.antt =====
-- context.go under concurrency: two runs and a `Close`, and the witnesses of the theorems.
use go_libddwaf.Base.{
  ℕ, ◌≤◌, ◌≡◌, refl, Bool, true, false, some, List, [], ◌∷◌, ◌++◌, arith, get_elem?, replicate,
  total, length,
}
use go_libddwaf.Base.Int.{pos}
use go_libddwaf.Truncation.{string_too_long}
use go_libddwaf.RefPool.{no_refs}
use go_libddwaf.Context.Race.{
  Work, Call, to_run, to_close, Client, runner, closer, closing, calling, start, run_clients,
  System,
}
use go_libddwaf.Context.Race.Safety.{holds, lock_excludes}
use go_libddwaf.Context.Race.Settled.{Settled}
use go_libddwaf.Context.Race.Progress.{left, AllFinished, all_finish}

-- A run whose encoder has made block `a`, and cut a text of `n` bytes.
abbrev work : ℕ → ℕ → Bool → Work
work a n late = record {
  first = (string_too_long, pos n ∷ []) ∷ [];
  second = [];
  refs = record { string_refs = a ∷ []; array_refs = [] };
  spent_before = false;
  first_expired = false;
  second_expired = false;
  spent_inside = false;
  call_timed_out = late;
}

abbrev three_calls : List Call
three_calls = to_run (work 4 5000 false) ∷ to_run (work 6 7000 true) ∷ to_close ∷ []

-- The second run and the `Close` find the lock taken while the first is in ddwaf_run.
abbrev crowded : List ℕ
crowded = 0 ∷ 1 ∷ 0 ∷ 1 ∷ 0 ∷ 0 ∷ 0 ∷ 1 ∷ 1 ∷ 1 ∷ 1 ∷ 0 ∷ 1 ∷ 0 ∷ 2 ∷ 0 ∷ 1 ∷ 2 ∷ 1 ∷ []

abbrev crowd : System
crowd = run_clients (start 9 three_calls) crowded

crowd_calls : crowd.shared.calls ≡ 9 ∷ []
unfolding run_clients
crowd_calls = refl

-- All three to the end, one after the other.
abbrev one_after_the_other : List ℕ
one_after_the_other = replicate 17 1 ++ (replicate 17 0 ++ replicate 6 2)

abbrev finished : System
finished = run_clients (start 9 three_calls) one_after_the_other

finished_calls : finished.shared.calls ≡ 9 ∷ 9 ∷ []
unfolding run_clients
finished_calls = refl

finished_refs : finished.shared.freed.string_refs ≡ 6 ∷ 4 ∷ []
unfolding run_clients
finished_refs = refl

finished_timeouts : finished.shared.timeout_count ≡ 1
unfolding run_clients
finished_timeouts = refl

-- A run that comes after `Close` hands 0 to ddwaf_run.
abbrev late_run : System
late_run = run_clients (start 9 three_calls) (replicate 6 2 ++ replicate 17 0)

late_calls : late_run.shared.calls ≡ 0 ∷ []
unfolding run_clients
late_calls = refl

-- The first run while it is in ddwaf_run.
abbrev in_call : Client
in_call = runner (record {
  stage = calling;
  work = work 4 5000 false;
  seen = [];
  seen_refs = no_refs;
  timed_out = false;
  merged_first = true;
  merged_second = false;
  kept = false;
})

crowd_first : get_elem? crowd.clients 0 ≡ some in_call
unfolding run_clients
crowd_first = refl

crowd_last : get_elem? crowd.clients 2 ≡ some (closer closing)
unfolding run_clients
crowd_last = refl

lock_excludes_example : holds (closer closing) ≡ 0
lock_excludes_example =
    lock_excludes 9 three_calls crowded 0 2 in_call (closer closing) crowd_first crowd_last
      (λ e. ground arith) refl

-- The crowd to its end.
abbrev all_of_them : List ℕ
all_of_them = crowded ++ (replicate 17 0 ++ (replicate 17 1 ++ replicate 6 2))

all_finish_example :
    (more : List ℕ) × (length more ≤ total left crowd.clients)
    × AllFinished (run_clients crowd more).clients
all_finish_example = all_finish 9 three_calls crowded
