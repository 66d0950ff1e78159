-- ===== src/Context/Life/Laws.antt =====
-- context.go: what a context takes of its handle and gives back.
use go_libddwaf.Base.{
  ℕ, suc, ◌+◌, ◌^◌, ◌<◌, ◌≡◌, ◌≢◌, refl, true, false, Option, none, some, [], ◌∷◌, arith, inl, inr,
  ◌==◌, Bool-cases,
}
use go_libddwaf.Base.Int.{ℤ, eq_ℤ}
use go_libddwaf.Memory.{Memory}
use go_libddwaf.Timer.{dynamic_budget, with_budget, with_components}
use go_libddwaf.Timer.Trees.{new_tree_timer}
use go_libddwaf.Handle.{Handle, retain}
use go_libddwaf.Handle.Lifetime.{HasOwners, retains, releases, call-HasOwners}
use go_libddwaf.Context.Run.{Context, waf_run_tag}
use go_libddwaf.Context.Life.{
  context_made, context_destroyed, Opening, with_tree, after_retain, new_context_with_budget,
  close_context,
}

-- A context holds one reference of a handle with `n` other owners, and its `Close` gives it back and
-- destroys the libddwaf context; without a context, the handle is as before and nothing is left.
abbrev pub LentAs : (c n : ℕ) → Opening → Option Context → Type 0
LentAs c n o none = HasOwners c n o.handle × (o.calls ≡ []) × (o.destroyed ≡ [])
LentAs c n o (some ctx) =
    HasOwners c (suc n) o.handle
    × (o.calls ≡ context_made ctx.c_context ∷ [])
    × (o.destroyed ≡ [])
    × HasOwners c n (close_context ctx o.handle).handle
    × ((close_context ctx o.handle).calls ≡ context_destroyed ctx.c_context ∷ [])
    × ((close_context ctx o.handle).destroyed ≡ [])

abbrev pub Lent : (c n : ℕ) → Opening → Type 0
Lent c n o = LentAs c n o o.context

nonzero : (c : ℕ) → c ≢ 0 → (c == 0) ≡ false
nonzero c n = ground arith

retain_valid :
    (c k : ℕ) (h : Handle) → suc k + 1 < 2 ^ 31 → HasOwners c (suc k) h → (retain h).0 ≡ true
unfolding retain
retain_valid c k h b v = ground arith

module _ (c k : ℕ) (h : Handle) (b : suc (suc k) + 1 < 2 ^ 31)
    (v : HasOwners c (suc (suc k)) h) where
  with_tree-Lent :
      (x : ℕ) (m : Memory) (budget : ℤ)
      → eq_ℤ budget dynamic_budget ≡ false
      → Lent c (suc k) (
          with_tree h x m
            (new_tree_timer (with_budget budget ∷ with_components (waf_run_tag ∷ []) ∷ [])))
  unfolding new_tree_timer close_context
  with_tree-Lent x m budget e =
      let (v', d) = call-HasOwners c (suc (suc k)) h releases b v in
      rw e (v, refl, refl, v', refl, d)

  after_retain-Lent :
      (x : ℕ) (budget : ℤ) (m : Memory)
      → eq_ℤ budget dynamic_budget ≡ false
      → Lent c (suc k) (after_retain x h budget m)
  unfolding after_retain
  after_retain-Lent x budget m e = elim (Bool-cases (x == 0)) [
    | inl z ↦ let (v', d) = call-HasOwners c (suc (suc k)) h releases b v in rw z (v', refl, d)
    | inr z ↦ rw z (with_tree-Lent x m budget e)
  ]

retained :
    (c k : ℕ) (h : Handle)
    → suc k + 2 < 2 ^ 31
    → HasOwners c (suc k) h
    → HasOwners c (suc (suc k)) (retain h).1
retained c k h b v = (call-HasOwners c (suc k) h retains (omega arith) v).0

-- If a handle has `k + 1` owners, fewer than 2^31 - 2, and the budget is not -1, then a new context takes
-- one reference more, destroys nothing, and its `Close` gives the reference back and destroys the
-- libddwaf context that was made for it; and where no context can be made, the handle has its owners as
-- before and no libddwaf context is left.
pub new_context-Lent :
    (context_init : ℕ → ℕ) (m : Memory) (h : Handle) (budget : ℤ) (c k : ℕ)
    → suc k + 2 < 2 ^ 31
    → HasOwners c (suc k) h
    → eq_ℤ budget dynamic_budget ≡ false
    → Lent c (suc k) (new_context_with_budget context_init m h budget)
unfolding new_context_with_budget
new_context-Lent context_init m h budget c k b v e = rw (retain_valid c k h (omega arith) v) (
    after_retain-Lent c k (retain h).1 (omega arith) (retained c k h b v)
      (context_init (retain h).1.c_handle) budget m e)

-- With a budget of -1, if libddwaf makes a context, `NewContextWithBudget` returns nil, but the reference
-- that it has taken of the handle and the libddwaf context are left.
pub new_context_leaks :
    (context_init : ℕ → ℕ) (m : Memory) (h : Handle) (c k : ℕ)
    → suc k + 2 < 2 ^ 31
    → HasOwners c (suc k) h
    → context_init (retain h).1.c_handle ≢ 0
    → let o = new_context_with_budget context_init m h dynamic_budget in
      (o.context ≡ none)
      × HasOwners c (suc (suc k)) o.handle
      × (o.calls ≡ context_made (context_init (retain h).1.c_handle) ∷ [])
unfolding new_context_with_budget after_retain new_tree_timer
new_context_leaks context_init m h c k b v n =
    rw (retain_valid c k h (omega arith) v, nonzero (context_init (retain h).1.c_handle) n)
      (refl, retained c k h b v, refl)
