-- ===== src/Context/Race/Works.antt =====
-- context.go under concurrency: what a call of `Run` has done at each of its stages, by what it brings.
use go_libddwaf.Base.{
  ℕ, ◌≡◌, refl, Bool, true, false, not, ◌&&◌, ◌||◌, Option, none, some, List, [], ◌∷◌, arith,
  get_elem?, length, ltb, All, All-get, All-set, total, total-set,
}
use go_libddwaf.Context.Race.{
  Work, Stage, entering, encoded_first, merging_first, storing_first, unlocking_first,
  encoded_second, merging_second, storing_second, unlocking_second, waiting, checking, calling,
  keeping, storing, unlocking, counting, done, Runner, Closer, Client, runner, closer, Shared, turn,
  turn_close, move, System, moved, step, run_clients, Call, to_run, to_close, clients_of, start,
}

-- Whether the second encoder runs, ddwaf_run is called, and the timeout is returned.
abbrev pub encodes_second : Work → Bool
encodes_second w = not w.spent_before && not w.first_expired

abbrev pub gets_to_lock : Work → Bool
gets_to_lock w = encodes_second w && not w.second_expired

abbrev pub calls_libddwaf : Work → Bool
calls_libddwaf w = gets_to_lock w && not w.spent_inside

abbrev pub ends_in_timeout : Work → Bool
ends_in_timeout w = not (calls_libddwaf w) || w.call_timed_out

abbrev is_same : Bool → Bool → Bool
is_same true b = b
is_same false b = not b

abbrev has_first : Work → Bool
has_first w = ltb 0 (length w.first)

abbrev has_second : Work → Bool
has_second w = ltb 0 (length w.second)

-- The four flags of a run, and what they should be.
abbrev has_done : Runner → (first second kept timed_out : Bool) → Bool
has_done r first second kept timed_out =
    is_same r.merged_first first
    && (is_same r.merged_second second && (is_same r.kept kept && is_same r.timed_out timed_out))

abbrev fits : Stage → Runner → Bool
fits entering r = has_done r false false false false
fits encoded_first r = not r.work.spent_before && has_done r false false false false
fits merging_first r =
    not r.work.spent_before && (has_first r.work && has_done r false false false false)
fits storing_first r =
    not r.work.spent_before && (has_first r.work && has_done r false false false false)
fits unlocking_first r =
    not r.work.spent_before && (has_first r.work && has_done r true false false false)
fits encoded_second r = encodes_second r.work && has_done r (has_first r.work) false false false
fits merging_second r =
    encodes_second r.work && (has_second r.work && has_done r (has_first r.work) false false false)
fits storing_second r =
    encodes_second r.work && (has_second r.work && has_done r (has_first r.work) false false false)
fits unlocking_second r =
    encodes_second r.work && (has_second r.work && has_done r (has_first r.work) true false false)
fits waiting r =
    gets_to_lock r.work && has_done r (has_first r.work) (has_second r.work) false false
fits checking r =
    gets_to_lock r.work && has_done r (has_first r.work) (has_second r.work) false false
fits calling r =
    calls_libddwaf r.work && has_done r (has_first r.work) (has_second r.work) false false
fits keeping r =
    calls_libddwaf r.work
    && has_done r (has_first r.work) (has_second r.work) false r.work.call_timed_out
fits storing r =
    calls_libddwaf r.work
    && has_done r (has_first r.work) (has_second r.work) false r.work.call_timed_out
fits unlocking r =
    gets_to_lock r.work
    && has_done r (has_first r.work) (has_second r.work) (calls_libddwaf r.work)
        (ends_in_timeout r.work)
fits counting r =
    has_done r (not r.work.spent_before && has_first r.work)
      (encodes_second r.work && has_second r.work) (calls_libddwaf r.work) (ends_in_timeout r.work)
fits done r =
    has_done r (not r.work.spent_before && has_first r.work)
      (encodes_second r.work && has_second r.work) (calls_libddwaf r.work) (ends_in_timeout r.work)

abbrev pub is_faithful : Client → Bool
is_faithful (runner r) = fits r.stage r
is_faithful (closer c) = true

is_faithful-turn :
    (stage : Stage) (s : Shared) (r : Runner)
    → r.stage ≡ stage
    → is_faithful (runner r) ≡ true
    → is_faithful (turn stage s r).1 ≡ true
unfolding turn
is_faithful-turn stage s r e h = ground (arith, e)

is_faithful-turn_close : (c : Closer) (s : Shared) → is_faithful (turn_close c s).1 ≡ true
unfolding turn_close
is_faithful-turn_close c s = ground arith

is_faithful-move :
    (s : Shared) (p : Client) → is_faithful p ≡ true → is_faithful (move s p).1 ≡ true
unfolding move
is_faithful-move s (runner r) h = is_faithful-turn r.stage s r refl h
is_faithful-move s (closer c) h = is_faithful-turn_close c s

-- What the work of a client counts for.
abbrev pub of_client : (Work → ℕ) → Client → ℕ
of_client f (runner r) = f r.work
of_client f (closer c) = 0

abbrev pub of_call : (Work → ℕ) → Call → ℕ
of_call f (to_run w) = f w
of_call f to_close = 0

of_client-turn :
    (f : Work → ℕ) (stage : Stage) (s : Shared) (r : Runner)
    → of_client f (turn stage s r).1 ≡ f r.work
unfolding turn
of_client-turn f stage s r = ground arith

of_client-turn_close : (f : Work → ℕ) (c : Closer) (s : Shared) → of_client f (turn_close c s).1 ≡ 0
unfolding turn_close
of_client-turn_close f c s = ground arith

of_client-move : (f : Work → ℕ) (s : Shared) (p : Client) → of_client f (move s p).1 ≡ of_client f p
unfolding move
of_client-move f s (runner r) = of_client-turn f r.stage s r
of_client-move f s (closer c) = of_client-turn_close f c s

-- Every client has done what its stage says, and the works are those of the calls.
abbrev pub Faithful : (Work → ℕ) → ℕ → System → Type 0
Faithful f n s = All (λ p. is_faithful p ≡ true) s.clients × (total (of_client f) s.clients ≡ n)

moved-Faithful :
    (f : Work → ℕ) (n : ℕ) (s : System) (i : ℕ) (x : Option Client)
    → get_elem? s.clients i ≡ x
    → Faithful f n s
    → Faithful f n (moved s i x)
moved-Faithful f n s i none e h = h
moved-Faithful f n s i (some p) e (h, t) =
    let p' = (move s.shared p).1 in
    let fine = All-get (λ q. is_faithful q ≡ true) s.clients i p e h in
    (
      All-set (λ q. is_faithful q ≡ true) s.clients i p' (is_faithful-move s.shared p fine) h,
      omega (arith, t, total-set (of_client f) s.clients i p p' e, of_client-move f s.shared p),
    )

run_clients-Faithful :
    (f : Work → ℕ) (n : ℕ) (s : System) (schedule : List ℕ)
    → Faithful f n s
    → Faithful f n (run_clients s schedule)
unfolding run_clients step
run_clients-Faithful f n s [] h = h
run_clients-Faithful f n s (i ∷ schedule) h =
    run_clients-Faithful f n (step s i) schedule
      (moved-Faithful f n s i (get_elem? s.clients i) refl h)

start-Faithful :
    (f : Work → ℕ) (calls : List Call)
    → All (λ p. is_faithful p ≡ true) (clients_of calls)
      × (total (of_client f) (clients_of calls) ≡ total (of_call f) calls)
unfolding total
start-Faithful f [] = (tt, refl)
start-Faithful f (to_run w ∷ calls) =
    let (h, t) = start-Faithful f calls in ((refl, h), omega (arith, t))
start-Faithful f (to_close ∷ calls) =
    let (h, t) = start-Faithful f calls in ((refl, h), omega (arith, t))

pub reach-Faithful :
    (f : Work → ℕ) (c : ℕ) (calls : List Call) (schedule : List ℕ)
    → Faithful f (total (of_call f) calls) (run_clients (start c calls) schedule)
reach-Faithful f c calls schedule =
    run_clients-Faithful f _ (start c calls) schedule (start-Faithful f calls)
