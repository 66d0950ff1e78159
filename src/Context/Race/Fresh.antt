-- ===== src/Context/Race/Fresh.antt =====
-- context.go under concurrency: what a run has read under the lock is still true when it stores.
use go_libddwaf.Base.{
  ℕ, zero, suc, ◌+◌, ◌≤◌, ◌≡◌, refl, sym, subst, Bool, true, false, Option, none, some, List, [],
  ◌∷◌, arith, get_elem?, set, total, All, All-get, All-set, All-map, inl, inr, ◌∙◌, ◌==◌,
  Bool-cases, total_elem,
}
use go_libddwaf.Context.Race.{
  Stage, storing_first, storing_second, storing, Runner, Closer, Client, runner, closer, Shared,
  turn, turn_close, move, System, moved, step, run_clients, Work, Call, to_run, to_close, client_of,
  clients_of, start,
}
use go_libddwaf.Context.Race.Sums.{is_orderly, Orderly, start-Orderly, moved-Sum, total_start}
use go_libddwaf.Context.Race.Safety.{stage_holds, close_holds, holds, Locked, move-Locked}

abbrev stores_truncations : Stage → Bool
stores_truncations storing_first = true
stores_truncations storing_second = true
stores_truncations _ = false

abbrev stores_refs : Stage → Bool
stores_refs storing = true
stores_refs _ = false

-- A run that is about to store has seen what the field holds.
abbrev pub Fresh : Shared → Client → Type 0
Fresh s (runner r) =
    (stores_truncations r.stage ≡ true → r.seen ≡ s.truncations)
    × (stores_refs r.stage ≡ true → r.seen_refs ≡ s.cgo_refs)
Fresh s (closer c) = Unit {0}

-- Who does not hold the lock is not about to store.
outside-Fresh : (s : Shared) (p : Client) → holds p ≡ 0 → Fresh s p
outside-Fresh s (runner r) h =
    (λ e. absurd (ground (arith, h, e)), λ e. absurd (ground (arith, h, e)))
outside-Fresh s (closer c) h = tt

turn-Fresh :
    (stage : Stage) (s : Shared) (r : Runner)
    → r.stage ≡ stage
    → Fresh (turn stage s r).0 (turn stage s r).1
unfolding turn
turn-Fresh stage s r e = ground (arith, e)

turn_close-Fresh : (c : Closer) (s : Shared) → Fresh (turn_close c s).0 (turn_close c s).1
unfolding turn_close
turn_close-Fresh c s = ground arith

move-Fresh : (s : Shared) (p : Client) → Fresh (move s p).0 (move s p).1
unfolding move
move-Fresh s (runner r) = turn-Fresh r.stage s r refl
move-Fresh s (closer c) = turn_close-Fresh c s

abbrev Unchanged : Shared → Shared → Type 0
Unchanged s s' = (s'.truncations ≡ s.truncations) × (s'.cgo_refs ≡ s.cgo_refs)

turn-Unchanged :
    (stage : Stage) (s : Shared) (r : Runner)
    → stage_holds stage ≡ 0
    → Unchanged s (turn stage s r).0
unfolding turn
turn-Unchanged stage s r h = (ground (arith, h), ground (arith, h))

turn_close-Unchanged :
    (c : Closer) (s : Shared) → close_holds c ≡ 0 → Unchanged s (turn_close c s).0
unfolding turn_close
turn_close-Unchanged c s h = (ground (arith, h), ground (arith, h))

-- Without the lock nobody changes the two fields.
move-Unchanged : (s : Shared) (p : Client) → holds p ≡ 0 → Unchanged s (move s p).0
unfolding move
move-Unchanged s (runner r) h = turn-Unchanged r.stage s r h
move-Unchanged s (closer c) h = turn_close-Unchanged c s h

Fresh-Unchanged : (s s' : Shared) (p : Client) → Unchanged s s' → Fresh s p → Fresh s' p
Fresh-Unchanged s s' (runner r) (t, c) (h, k) = (λ e. h e ∙ sym t, λ e. k e ∙ sym c)
Fresh-Unchanged s s' (closer c) u h = tt

All-weightless :
    (R : Client → Type 0) (w : Client → ℕ)
    → ((q : Client) → w q ≡ 0 → R q)
    → (ps : List Client) → total w ps ≡ 0
    → All R ps
unfolding total
All-weightless R w z [] h = tt
All-weightless R w z (q ∷ ps) h =
    (z q (omega (arith, h)), All-weightless R w z ps (omega (arith, h)))

-- If one client weighs all that the clients weigh together, then what holds of those that weigh nothing
-- and of its new state holds of all.
All-others :
    (R : Client → Type 0) (w : Client → ℕ)
    → ((q : Client) → w q ≡ 0 → R q)
    → (ps : List Client) (i : ℕ) (p p' : Client) → get_elem? ps i ≡ some p
    → total w ps ≤ w p
    → R p'
    → All R (set ps i p')
unfolding total
All-others R w z [] i p p' at few h = tt
All-others R w z (q ∷ ps) zero p p' at few h =
    let same : w q ≡ w p = cc in (h, All-weightless R w z ps (omega (arith, few, same)))
All-others R w z (q ∷ ps) (suc i) p p' at few h = (
  z q (omega (arith, few, total_elem w ps i p at)),
  All-others R w z ps i p p' at (omega (arith, few)) h,
)

-- What every reachable state satisfies.
abbrev pub Sane : System → Type 0
Sane s = Orderly s × Locked s.shared (total holds s.clients) × All (Fresh s.shared) s.clients

moved-Fresh :
    (s : System) (i : ℕ) (p : Client)
    → get_elem? s.clients i ≡ some p
    → Locked s.shared (total holds s.clients)
    → All (Fresh s.shared) s.clients
    → All (Fresh (move s.shared p).0) (set s.clients i (move s.shared p).1)
moved-Fresh s i p at k f = elim (Bool-cases (holds p == 0)) [
  | inl e ↦
      let u = move-Unchanged s.shared p (ground (arith, e)) in
      All-set _ s.clients i (move s.shared p).1 (move-Fresh s.shared p)
        (All-map _ (λ q h. Fresh-Unchanged s.shared (move s.shared p).0 q u h) s.clients f)
  | inr e ↦
      All-others _ holds (outside-Fresh (move s.shared p).0) s.clients i p (move s.shared p).1 at
        (ground (arith, e, k)) (move-Fresh s.shared p)
]

moved-Sane :
    (s : System) (i : ℕ) (x : Option Client)
    → get_elem? s.clients i ≡ x
    → Sane s
    → Sane (moved s i x)
moved-Sane s i none e h = h
moved-Sane s i (some p) e (v, k, f) =
    let (v', k') = moved-Sum Locked holds s i (some p) e (λ q o x. move-Locked s.shared q o) v k in
    (v', k', moved-Fresh s i p e k f)

-- `I` may use that what is about to be stored was seen.
module _ (I : Shared → ℕ → Type 0) (w : Client → ℕ)
    (keeps : (s : Shared) (p : Client) (o : ℕ)
      → is_orderly p ≡ true
      → Fresh s p
      → I s (o + w p)
      → I (move s p).0 (o + w (move s p).1)) where
  run_clients-Sane :
      (s : System) (schedule : List ℕ)
      → Sane s
      → I s.shared (total w s.clients)
      → let s' = run_clients s schedule in I s'.shared (total w s'.clients)
  unfolding run_clients step
  run_clients-Sane s [] v h = h
  run_clients-Sane s (i ∷ schedule) v h =
      let x = get_elem? s.clients i in
      let seen = λ (p : Client) (e : x ≡ some p). All-get (Fresh s.shared) s.clients i p e v.2 in
      let (v', h') = moved-Sum I w s i x refl (λ p o e y. keeps s.shared p o y (seen p e)) v.0 h in
      run_clients-Sane (step s i) schedule (moved-Sane s i x refl v) h'

  start-Fresh : (s : Shared) (calls : List Call) → All (Fresh s) (clients_of calls)
  start-Fresh s [] = tt
  start-Fresh s (to_run y ∷ calls) =
      (outside-Fresh s (client_of (to_run y)) refl, start-Fresh s calls)
  start-Fresh s (to_close ∷ calls) = (tt, start-Fresh s calls)

  pub reach-Fresh :
      ((x : Work) → w (client_of (to_run x)) ≡ 0)
      → w (client_of to_close) ≡ 0
      → (c : ℕ) (calls : List Call) (schedule : List ℕ) → I (start c calls).shared 0
      → let s = run_clients (start c calls) schedule in I s.shared (total w s.clients)
  reach-Fresh y z c calls schedule h =
      let s = start c calls in
      run_clients-Sane s schedule
        (
          start-Orderly calls,
          subst (Locked s.shared) (sym (total_start holds (λ x. refl) refl calls)) refl,
          start-Fresh s.shared calls,
        )
        (subst (I s.shared) (sym (total_start w y z calls)) h)
