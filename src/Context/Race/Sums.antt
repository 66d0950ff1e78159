-- ===== src/Context/Race/Sums.antt =====
-- context.go under concurrency: what every interleaving keeps equal to a sum over the clients.
use go_libddwaf.Base.{
  ℕ, ◌+◌, ◌-◌, ◌≡◌, refl, sym, subst, Option, none, some, List, [], ◌∷◌, arith, get_elem?, set,
  total, total-set, total_elem, Bool, true, not, ◌&&◌, ◌||◌, leb, All, All-get, All-set,
}
use go_libddwaf.Context.Race.{
  Stage, entering, encoded_first, merging_first, storing_first, unlocking_first, encoded_second,
  merging_second, storing_second, unlocking_second, waiting, checking, calling, keeping, storing,
  unlocking, counting, done, Runner, Closer, Client, runner, closer, Shared, turn, turn_close, move,
  System, moved, step, run_clients, Call, to_run, to_close, client_of, Work, clients_of, start,
}

-- The flags that a run sets later are not set yet.
abbrev rank : Stage → ℕ
rank entering = 0
rank encoded_first = 1
rank merging_first = 2
rank storing_first = 3
rank unlocking_first = 4
rank encoded_second = 5
rank merging_second = 6
rank storing_second = 7
rank unlocking_second = 8
rank waiting = 9
rank checking = 10
rank calling = 11
rank keeping = 12
rank storing = 13
rank unlocking = 14
rank counting = 15
rank done = 16

abbrev pub is_orderly : Client → Bool
is_orderly (runner r) =
    (leb 4 (rank r.stage) || not r.merged_first)
    && ((leb 8 (rank r.stage) || not r.merged_second) && (leb 14 (rank r.stage) || not r.kept))
is_orderly (closer c) = true

is_orderly-turn :
    (stage : Stage) (s : Shared) (r : Runner)
    → r.stage ≡ stage
    → is_orderly (runner r) ≡ true
    → is_orderly (turn stage s r).1 ≡ true
unfolding turn
is_orderly-turn stage s r e h = ground (arith, e)

is_orderly-turn_close : (c : Closer) (s : Shared) → is_orderly (turn_close c s).1 ≡ true
unfolding turn_close
is_orderly-turn_close c s = ground arith

is_orderly-move : (s : Shared) (p : Client) → is_orderly p ≡ true → is_orderly (move s p).1 ≡ true
unfolding move
is_orderly-move s (runner r) h = is_orderly-turn r.stage s r refl h
is_orderly-move s (closer c) h = is_orderly-turn_close c s

abbrev pub Orderly : System → Type 0
Orderly s = All (λ p. is_orderly p ≡ true) s.clients

pub start-Orderly : (calls : List Call) → All (λ p. is_orderly p ≡ true) (clients_of calls)
start-Orderly [] = tt
start-Orderly (to_run w ∷ calls) = (refl, start-Orderly calls)
start-Orderly (to_close ∷ calls) = (refl, start-Orderly calls)

-- `I` relates the shared state to the total weight of the clients. If it survives the move of the client at
-- `i`, where `o` is what the others weigh, then it survives the step.
module _ (I : Shared → ℕ → Type 0) (w : Client → ℕ) where
  pub moved-Sum :
      (s : System) (i : ℕ) (x : Option Client)
      → get_elem? s.clients i ≡ x
      → ((p : Client) (o : ℕ)
          → x ≡ some p
          → is_orderly p ≡ true
          → I s.shared (o + w p)
          → I (move s.shared p).0 (o + w (move s.shared p).1))
      → Orderly s
      → I s.shared (total w s.clients)
      → Orderly (moved s i x) × I (moved s i x).shared (total w (moved s i x).clients)
  moved-Sum s i none e keeps v h = (v, h)
  moved-Sum s i (some p) e keeps v h =
      let p' = (move s.shared p).1 in
      let o = total w s.clients - w p in
      let before : total w s.clients ≡ o + w p = omega (arith, total_elem w s.clients i p e) in
      let after : o + w p' ≡ total w (set s.clients i p') =
        omega (arith, total_elem w s.clients i p e, total-set w s.clients i p p' e) in
      let fine = All-get (λ q. is_orderly q ≡ true) s.clients i p e v in
      (
        All-set (λ q. is_orderly q ≡ true) s.clients i p' (is_orderly-move s.shared p fine) v,
        subst (I (move s.shared p).0) after (keeps p o refl fine (subst (I s.shared) before h)),
      )

pub total_start :
    (w : Client → ℕ)
    → ((x : Work) → w (client_of (to_run x)) ≡ 0)
    → w (client_of to_close) ≡ 0
    → (calls : List Call) → total w (clients_of calls) ≡ 0
unfolding total
total_start w y z [] = refl
total_start w y z (to_run x ∷ calls) = omega (arith, y x, total_start w y z calls)
total_start w y z (to_close ∷ calls) = omega (arith, z, total_start w y z calls)

-- From one step to every schedule, if it survives every move.
module _ (I : Shared → ℕ → Type 0) (w : Client → ℕ)
    (keeps : (s : Shared) (p : Client) (o : ℕ)
      → is_orderly p ≡ true
      → I s (o + w p)
      → I (move s p).0 (o + w (move s p).1)) where
  abbrev pub Sum : System → Type 0
  Sum s = I s.shared (total w s.clients)

  pub step-Sum : (s : System) (i : ℕ) → Orderly s → Sum s → Orderly (step s i) × Sum (step s i)
  unfolding step
  step-Sum s i v h =
      moved-Sum I w s i (get_elem? s.clients i) refl (λ p o e. keeps s.shared p o) v h

  run_clients-Sum :
      (s : System) (schedule : List ℕ)
      → Orderly s
      → Sum s
      → Orderly (run_clients s schedule) × Sum (run_clients s schedule)
  unfolding run_clients
  run_clients-Sum s [] v h = (v, h)
  run_clients-Sum s (i ∷ schedule) v h =
      let (v', h') = step-Sum s i v h in run_clients-Sum (step s i) schedule v' h'

  -- From a new context.
  pub reach-both :
      ((x : Work) → w (client_of (to_run x)) ≡ 0)
      → w (client_of to_close) ≡ 0
      → (c : ℕ) (calls : List Call) (schedule : List ℕ) → I (start c calls).shared 0
      → Orderly (run_clients (start c calls) schedule) × Sum (run_clients (start c calls) schedule)
  reach-both y z c calls schedule h =
      run_clients-Sum (start c calls) schedule (start-Orderly calls)
        (subst (I (start c calls).shared) (sym (total_start w y z calls)) h)

  pub reach-Sum :
      ((x : Work) → w (client_of (to_run x)) ≡ 0)
      → w (client_of to_close) ≡ 0
      → (c : ℕ) (calls : List Call) (schedule : List ℕ) → I (start c calls).shared 0
      → Sum (run_clients (start c calls) schedule)
  reach-Sum y z c calls schedule h = (reach-both y z c calls schedule h).1
