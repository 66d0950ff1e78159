-- ===== src/Handle/Race/Bounded.antt =====
-- handle.go under concurrency: how many actions all clients together can take.
use go_libddwaf.Base.{
  ℕ, ◌+◌, ◌*◌, ◌≤◌, ◌<◌, ◌≡◌, refl, ap, false, some, List, [], ◌∷◌, arith, get_elem?, length,
  length-set, total, total-set, ◌⊎◌, inl, inr, if◌then◌else◌, Bool-cases,
}
use go_libddwaf.Base.Int.{ℤ, eq_ℤ}
use go_libddwaf.Handle.{looping, loaded, returned, turn}
use go_libddwaf.Handle.Race.{
  Client, fresh, refused, holding, destroying, clearing, gone, retaining, releasing, Shared, move,
  System, step,
}
use go_libddwaf.Handle.Race.Progress.{is_through, step-move}

-- The actions that a client has before it if the counter stays as it is.
abbrev ahead : ℤ → Client → ℕ
ahead c gone = 0
ahead c refused = 0
ahead c clearing = 1
ahead c destroying = 2
ahead c (releasing (returned r)) = 3
ahead c (releasing (loaded x)) = if eq_ℤ c x then 4 else 6
ahead c (releasing looping) = 5
ahead c holding = 6
ahead c (retaining (returned r)) = 7
ahead c (retaining (loaded x)) = if eq_ℤ c x then 8 else 10
ahead c (retaining looping) = 9
ahead c fresh = 10

-- `k` for each swap that a client has before it.
abbrev pays : ℕ → Client → ℕ
pays k fresh = k + k
pays k (retaining (returned r)) = k
pays k (retaining a) = k + k
pays k holding = k
pays k (releasing (returned r)) = 0
pays k (releasing a) = k
pays k p = 0

abbrev counter : Shared → ℤ
counter s = s.handle.ref_counter

-- A swap that succeeds costs every other client at most two actions.
ahead-raise : (c d : ℤ) (p : Client) → ahead d p ≤ ahead c p + 2
ahead-raise c d p = ground arith

Moves : ℕ → Shared → Client → Type 0
Moves k s p =
    let (s', p') = move s p in
    (ahead (counter s') p' < ahead (counter s') p)
    × (((counter s' ≡ counter s) × (pays k p' ≤ pays k p)) ⊎ (pays k p' + k ≤ pays k p))

move-Moves : (k : ℕ) (s : Shared) (p : Client) → is_through p ≡ false → Moves k s p
unfolding move turn Moves
move-Moves k s fresh h = (omega arith, inl (refl, omega arith))
move-Moves k s refused h = absurd (ground (arith, h))
move-Moves k s holding h = (omega arith, inl (refl, omega arith))
move-Moves k s destroying h = (omega arith, inl (refl, omega arith))
move-Moves k s clearing h = (omega arith, inl (refl, omega arith))
move-Moves k s gone h = absurd (ground (arith, h))
move-Moves k s (retaining looping) h = (ground arith, ground arith)
move-Moves k s (retaining (loaded c)) h = elim (Bool-cases (eq_ℤ s.handle.ref_counter c)) [
  | inl e ↦ rw e (ground arith, ground arith)
  | inr e ↦ rw e (rw e (omega arith), inl (refl, omega arith))
]
move-Moves k s (retaining (returned r)) h = (ground arith, ground arith)
move-Moves k s (releasing looping) h = (ground arith, ground arith)
move-Moves k s (releasing (loaded c)) h = elim (Bool-cases (eq_ℤ s.handle.ref_counter c)) [
  | inl e ↦ rw e (ground arith, ground arith)
  | inr e ↦ rw e (rw e (omega arith), inl (refl, omega arith))
]
move-Moves k s (releasing (returned r)) h = (ground arith, ground arith)

total-raise :
    (c d : ℤ) (ps : List Client) → total (ahead d) ps ≤ total (ahead c) ps + (length ps + length ps)
unfolding total
total-raise c d [] = omega arith
total-raise c d (p ∷ ps) = omega (arith, ahead-raise c d p, total-raise c d ps)

-- The actions that are left at most.
abbrev budget : ℕ → System → ℕ
budget k s = total (ahead (counter s.shared)) s.clients + total (pays k) s.clients

step-budget :
    (k : ℕ) (s : System) (i : ℕ) (p : Client)
    → get_elem? s.clients i ≡ some p
    → is_through p ≡ false
    → length s.clients + length s.clients ≤ k
    → budget k (step s i) < budget k s
unfolding Moves
step-budget k s i p at h b =
    let (s', p') = move s.shared p in
    let m = move-Moves k s.shared p h in
    let ps = s.clients in
    let a' = total-set (ahead (counter s')) ps i p p' at in
    let w = total-set (pays k) ps i p p' at in
    rw (step-move s i p at) (elim m.1 [
      | inl (e, l) ↦ omega (arith, m.0, l, a', w, ap (λ c. total (ahead c) ps) e)
      | inr l ↦ omega (arith, m.0, l, a', w, b, total-raise (counter s.shared) (counter s') ps)
    ])

-- Every client that is picked is not through yet when it is picked.
abbrev pub Busy : System → List ℕ → Type 0
Busy s [] = Unit {0}
Busy s (i ∷ schedule) =
    (p : Client) × (get_elem? s.clients i ≡ some p)
    × (is_through p ≡ false)
    × Busy (step s i) schedule

length-step_at :
    (s : System) (i : ℕ) (p : Client)
    → get_elem? s.clients i ≡ some p
    → length (step s i).clients ≡ length s.clients
length-step_at s i p at = rw (step-move s i p at) (length-set s.clients i (move s.shared p).1)

Busy-budget :
    (k : ℕ) (s : System) (schedule : List ℕ)
    → Busy s schedule
    → length s.clients + length s.clients ≤ k
    → length schedule ≤ budget k s
Busy-budget k s [] h b = omega arith
Busy-budget k s (i ∷ schedule) (p, at, l, h) b =
    let rest = Busy-budget k (step s i) schedule h (omega (arith, b, length-step_at s i p at)) in
    omega (arith, rest, step-budget k s i p at l b)

ahead_le : (c : ℤ) (p : Client) → ahead c p ≤ 10
ahead_le c p = ground arith

pays_le : (k : ℕ) (p : Client) → pays k p ≤ k + k
pays_le k p = ground arith

total_le :
    (w : Client → ℕ) (b : ℕ)
    → ((p : Client) → w p ≤ b)
    → (ps : List Client) → total w ps ≤ length ps * b
unfolding total
total_le w b h [] = omega arith
total_le w b h (p ∷ ps) = omega (arith, h p, total_le w b h ps)

-- From every state of the system, whatever the clients were interrupted at, `n` clients make at most
-- `n * (4 * n + 10)` actions before all are gone or were refused, however the scheduler picks among those
-- that are not.
pub schedule_is_bounded :
    (s : System) (schedule : List ℕ)
    → Busy s schedule
    → let n = length s.clients in length schedule ≤ n * (4 * n + 10)
schedule_is_bounded s schedule h =
    let n = length s.clients in
    let k = n + n in
    let a = total_le (ahead (counter s.shared)) 10 (ahead_le (counter s.shared)) s.clients in
    let w = total_le (pays k) (k + k) (pays_le k) s.clients in
    let left = Busy-budget k s schedule h (omega arith) in omega (arith, a, w, left)
