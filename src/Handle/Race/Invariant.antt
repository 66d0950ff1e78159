-- ===== src/Handle/Race/Invariant.antt =====
-- handle.go: what every interleaving keeps true of the counter.
use go_libddwaf.Base.{
  ℕ, zero, suc, ◌+◌, ◌-◌, ◌^◌, ◌≤◌, ◌<◌, ◌≡◌, refl, ap, some, List, [], ◌∷◌, arith, get_elem?, set,
  length, total, total-set, total_elem, total-le-length, length-set, ◌⊎◌, inl, inr, Option-cases,
}
use go_libddwaf.Base.Int.{pos, negsuc}
use go_libddwaf.Diagnostics.{Diagnostics}
use go_libddwaf.Handle.{looping, loaded, returned}
use go_libddwaf.Handle.Race.{
  Client, fresh, refused, holding, destroying, clearing, gone, retaining, releasing, Shared, move,
  System, step, run, fresh_clients, start,
}

-- 1 for a client whose reference the counter counts.
abbrev pub owns : Client → ℕ
owns holding = 1
owns (retaining (returned (pos (suc n)))) = 1
owns (releasing looping) = 1
owns (releasing (loaded c)) = 1
owns _ = 0

-- 1 for a client that saw the counter reach 0 and has not called `WafDestroy` yet.
abbrev pub last : Client → ℕ
last (releasing (returned (pos zero))) = 1
last destroying = 1
last _ = 0

-- 1 for a client that has called `WafDestroy` and has not cleared the handle yet.
abbrev pub clears : Client → ℕ
clears clearing = 1
clears _ = 0

-- 1 for a client that would swap a counter which is not positive.
abbrev pub stale : Client → ℕ
stale (retaining (loaded (pos zero))) = 1
stale (retaining (loaded (negsuc n))) = 1
stale _ = 0

-- `o`, `l`, `k` and `b` are the totals of the four weights.
pub record Balanced (c o l k b : ℕ) (s : Shared) : Type 0 where
  pub counted : s.handle.ref_counter ≡ pos o
  pub sound : b ≡ 0
  pub once : (o ≡ 0) ⊎ ((length s.destroyed ≡ 0) × (l ≡ 0) × (k ≡ 0))
  pub spent : (0 < o) ⊎ (length s.destroyed + l ≡ 1)
  pub named : (s.destroyed ≡ []) ⊎ (s.destroyed ≡ c ∷ [])
  pub intact : (s.handle.c_handle ≡ c) ⊎ (length s.destroyed ≡ 1)
  pub cleared : (s.destroyed ≡ []) ⊎ (0 < k) ⊎ (s.handle.c_handle ≡ 0)
  pub kept : (k ≡ 0) ⊎ (length s.destroyed ≡ 1)

-- A move changes the totals by the weights of its client.
move-Balanced :
    (c o l k b : ℕ) (s : Shared) (p : Client)
    → o + 1 < 2 ^ 31
    → Balanced c (o + owns p) (l + last p) (k + clears p) (b + stale p) s
    → let (s', p') = move s p in
      Balanced c (o + owns p') (l + last p') (k + clears p') (b + stale p') s'
unfolding move
move-Balanced c o l k b s fresh few v = ground arith
move-Balanced c o l k b s refused few v = ground arith
move-Balanced c o l k b s holding few v = ground arith
move-Balanced c o l k b s destroying few v = ground arith
move-Balanced c o l k b s clearing few v = ground arith
move-Balanced c o l k b s gone few v = ground arith
move-Balanced c o l k b s (retaining looping) few v = ground arith
move-Balanced c o l k b s (retaining (loaded x)) few v = ground arith
move-Balanced c o l k b s (retaining (returned (pos zero))) few v = ground arith
move-Balanced c o l k b s (retaining (returned (pos (suc n)))) few v = ground arith
move-Balanced c o l k b s (retaining (returned (negsuc n))) few v = ground arith
move-Balanced c o l k b s (releasing looping) few v = ground arith
move-Balanced c o l k b s (releasing (loaded x)) few v = ground arith
move-Balanced c o l k b s (releasing (returned (pos zero))) few v = ground arith
move-Balanced c o l k b s (releasing (returned (pos (suc n)))) few v = ground arith
move-Balanced c o l k b s (releasing (returned (negsuc n))) few v = ground arith

Balanced-congr :
    {c o l k b o' l' k' b' : ℕ} {s : Shared}
    → o ≡ o'
    → l ≡ l'
    → k ≡ k'
    → b ≡ b'
    → Balanced c o l k b s
    → Balanced c o' l' k' b' s
Balanced-congr eo el ek eb v = rw (← eo, ← el, ← ek, ← eb) v

-- The invariant of a system whose handle was created for `c`.
abbrev pub Inv : ℕ → System → Type 0
Inv c s =
    Balanced c (total owns s.clients) (total last s.clients) (total clears s.clients)
      (total stale s.clients) s.shared

pub owns-le-one : (p : Client) → owns p ≤ 1
owns-le-one (retaining (returned (pos (suc n)))) = omega arith
owns-le-one (releasing looping) = omega arith
owns-le-one (releasing (loaded x)) = omega arith
owns-le-one (releasing (returned x)) = omega arith
owns-le-one p = omega arith

-- A total before and after a move, split into the mover's weight and the rest.
module _ (w : Client → ℕ) (xs : List Client) (i : ℕ) (p p' : Client)
    (at : get_elem? xs i ≡ some p) where
  total_before : total w xs ≡ total w xs - w p + w p
  total_before = omega (arith, total_elem w xs i p at)

  total_after : total w xs - w p + w p' ≡ total w (set xs i p')
  total_after = omega (arith, total_elem w xs i p at, total-set w xs i p p' at)

step_at :
    (c : ℕ) (s : System) (i : ℕ) (p : Client)
    → length s.clients + 1 < 2 ^ 31
    → get_elem? s.clients i ≡ some p
    → Inv c s
    → Inv c (step s i)
unfolding step
step_at c s i p few at v =
    rw (at, step)
      (Balanced-congr (after owns) (after last) (after clears) (after stale) (
        move-Balanced c _ _ _ _ s.shared p
          (omega (arith, total-le-length owns owns-le-one s.clients))
          (Balanced-congr (before owns) (before last) (before clears) (before stale) v)))
  where
    before : (w : Client → ℕ) → total w s.clients ≡ total w s.clients - w p + w p
    before w = total_before w s.clients i p (move s.shared p).1 at

    after :
        (w : Client → ℕ)
        → total w s.clients - w p + w (move s.shared p).1
          ≡ total w (set s.clients i (move s.shared p).1)
    after w = total_after w s.clients i p (move s.shared p).1 at

-- Every action of every client keeps the invariant.
pub step-Inv :
    (c : ℕ) (s : System) (i : ℕ) → length s.clients + 1 < 2 ^ 31 → Inv c s → Inv c (step s i)
unfolding step
step-Inv c s i few v = elim (Option-cases (get_elem? s.clients i)) [
  | inl e ↦ rw (e, step) v
  | inr (p, e) ↦ step_at c s i p few e v
]

pub length-step : (s : System) (i : ℕ) → length (step s i).clients ≡ length s.clients
unfolding step
length-step s i = elim (Option-cases (get_elem? s.clients i)) [
  | inl e ↦ rw (e, step)
  | inr (p, e) ↦ rw (e, step) (length-set s.clients i (move s.shared p).1)
]

pub run-Inv :
    (c : ℕ) (s : System) (schedule : List ℕ)
    → length s.clients + 1 < 2 ^ 31
    → Inv c s
    → Inv c (run s schedule)
unfolding run
run-Inv c s [] few v = v
run-Inv c s (i ∷ schedule) few v =
    run-Inv c (step s i) schedule (omega (arith, length-step s i)) (step-Inv c s i few v)

total-fresh : (w : Client → ℕ) (n : ℕ) → w fresh ≡ 0 → total w (fresh_clients n) ≡ 0
unfolding total
total-fresh w zero e = refl
total-fresh w (suc n) e = omega (arith, total-fresh w n e)

pub length-fresh : (n : ℕ) → length (fresh_clients n) ≡ n
length-fresh zero = refl
length-fresh (suc n) = ap suc (length-fresh n)

pub start-Inv : (d : Diagnostics) (c n : ℕ) → Inv c (start d c n)
unfolding total
start-Inv d c n = record {
  counted = ap pos (omega (arith, total-fresh owns n refl));
  sound = omega (arith, total-fresh stale n refl);
  once = inr (refl, omega (arith, total-fresh last n refl), no_clears);
  spent = inl (omega arith);
  named = inl refl;
  intact = inl refl;
  cleared = inl refl;
  kept = inl no_clears;
}
  where
    no_clears : 0 + total clears (fresh_clients n) ≡ 0
    no_clears = omega (arith, total-fresh clears n refl)
