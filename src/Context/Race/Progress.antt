-- ===== src/Context/Race/Progress.antt =====
-- context.go under concurrency: no call waits for ever.
use go_libddwaf.Base.{
  ℕ, zero, suc, ◌≤◌, ◌<◌, ◌≡◌, refl, false, some, List, [], ◌∷◌, arith, get_elem?, total, total-set,
  total_elem, total-positive, All, Bool-cases, ◌⊎◌, inl, inr, length, ◌==◌,
}
use go_libddwaf.Context.Race.{
  Stage, entering, encoded_first, merging_first, storing_first, unlocking_first, encoded_second,
  merging_second, storing_second, unlocking_second, waiting, checking, calling, keeping, storing,
  unlocking, counting, done, Runner, Closer, closing, destroying, clearing_refs, clearing_context,
  releasing, unlocking_close, closed, Client, runner, closer, Shared, turn, turn_close, move,
  System, step, Call, start, run_clients,
}
use go_libddwaf.Context.Race.Sums.{Orderly, Sum, step-Sum, reach-both}
use go_libddwaf.Context.Race.Safety.{stage_holds, close_holds, holds, Locked, move-Locked}

-- The actions that a call has before it, at most.
abbrev pub stage_left : Stage → ℕ
stage_left entering = 16
stage_left encoded_first = 15
stage_left merging_first = 14
stage_left storing_first = 13
stage_left unlocking_first = 12
stage_left encoded_second = 11
stage_left merging_second = 10
stage_left storing_second = 9
stage_left unlocking_second = 8
stage_left waiting = 7
stage_left checking = 6
stage_left calling = 5
stage_left keeping = 4
stage_left storing = 3
stage_left unlocking = 2
stage_left counting = 1
stage_left done = 0

abbrev pub close_left : Closer → ℕ
close_left closing = 6
close_left destroying = 5
close_left clearing_refs = 4
close_left clearing_context = 3
close_left releasing = 2
close_left unlocking_close = 1
close_left closed = 0

abbrev pub left : Client → ℕ
left (runner r) = stage_left r.stage
left (closer c) = close_left c

-- A client that does not have to wait: the lock is free, or it holds it.
abbrev IsFree : Shared → ℕ → Type 0
IsFree s h = (s.locked ≡ false) ⊎ (h ≡ 1)

left-turn :
    (stage : Stage) (s : Shared) (r : Runner)
    → r.stage ≡ stage
    → 0 < stage_left stage
    → IsFree s (stage_holds stage)
    → left (turn stage s r).1 < stage_left stage
unfolding turn
left-turn stage s r e b f = ground (arith, e, f)

left-turn_close :
    (c : Closer) (s : Shared)
    → 0 < close_left c
    → IsFree s (close_holds c)
    → left (turn_close c s).1 < close_left c
unfolding turn_close
left-turn_close c s b f = ground (arith, f)

left-move : (s : Shared) (p : Client) → 0 < left p → IsFree s (holds p) → left (move s p).1 < left p
unfolding move
left-move s (runner r) b f = left-turn r.stage s r refl b f
left-move s (closer c) b f = left-turn_close c s b f

holder_left : (p : Client) → 0 < holds p → (holds p ≡ 1) × (0 < left p)
holder_left (runner r) h = ground arith
holder_left (closer c) h = ground arith

-- The invariant of every state that can be reached.
abbrev Fair : System → Type 0
Fair s = Orderly s × Sum Locked holds move-Locked s

-- Some client can move, unless all are finished.
someone :
    (s : System)
    → Fair s
    → 0 < total left s.clients
    → (i : ℕ) × (p : Client) × (get_elem? s.clients i ≡ some p)
      × (0 < left p)
      × IsFree s.shared (holds p)
someone s (v, h) b = elim (Bool-cases s.shared.locked) [
  | inl e ↦
      let one : 0 < total holds s.clients = ground (arith, h, e) in
      let (i, p, at, q) = total-positive holds s.clients one in
      let (o, l) = holder_left p q in (i, p, at, l, inr o)
  | inr e ↦ let (i, p, at, q) = total-positive left s.clients b in (i, p, at, q, inl e)
]

left-step :
    (s : System) (i : ℕ) (p : Client)
    → get_elem? s.clients i ≡ some p
    → 0 < left p
    → IsFree s.shared (holds p)
    → total left (step s i).clients < total left s.clients
unfolding step
left-step s i p at b f = rw at (
    omega (
      arith,
      total-set left s.clients i p (move s.shared p).1 at,
      total_elem left s.clients i p at,
      left-move s.shared p b f,
    ))

-- All calls have returned.
abbrev pub AllFinished : List Client → Type 0
AllFinished ps = All (λ p. left p ≡ 0) ps

none_left : (ps : List Client) → total left ps ≡ 0 → AllFinished ps
unfolding total
none_left [] h = tt
none_left (p ∷ ps) h = (omega (arith, h), none_left ps (omega (arith, h)))

finish :
    (n : ℕ) (s : System)
    → Fair s
    → total left s.clients ≤ n
    → (more : List ℕ) × (length more ≤ n) × AllFinished (run_clients s more).clients
unfolding run_clients
finish zero s v b = ([], omega arith, none_left s.clients (omega (arith, b)))
finish (suc n) s v b = elim (Bool-cases (total left s.clients == 0)) [
  | inl z ↦ ([], omega arith, none_left s.clients (ground (arith, z)))
  | inr z ↦
      let (i, p, at, l, f) = someone s v (ground (arith, z)) in
      let fair = step-Sum Locked holds move-Locked s i v.0 v.1 in
      let (more, m, ends) = finish n (step s i) fair (omega (arith, left-step s i p at l f, b)) in
      (i ∷ more, omega (arith, m), ends)
]

-- Whatever calls of `Run` and `Close` there are on a new context, and however they have been interleaved so
-- far, there is a way to go on after which all have returned, with one action for each that was left: no
-- call is left waiting for the lock for good.
pub all_finish :
    (c : ℕ) (calls : List Call) (schedule : List ℕ)
    → let s = run_clients (start c calls) schedule in
      (more : List ℕ) × (length more ≤ total left s.clients)
      × AllFinished (run_clients s more).clients
all_finish c calls schedule =
    let s = run_clients (start c calls) schedule in
    let v = reach-both Locked holds move-Locked (λ x. refl) refl c calls schedule refl in
    finish (total left s.clients) s v (omega arith)
