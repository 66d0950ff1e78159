-- ===== src/Context/Sequence/Borrowed.antt =====
-- context.go: a client that makes a context, runs it and closes it, and the handle that it borrows.
use go_libddwaf.Base.{
  ℕ, suc, ◌+◌, ◌^◌, ◌<◌, ◌≡◌, refl, false, Option, none, some, List, [], ◌∷◌, ◌⊎◌, inl, inr,
}
use go_libddwaf.Base.Int.{ℤ, eq_ℤ}
use go_libddwaf.Memory.{Memory}
use go_libddwaf.Timer.{dynamic_budget}
use go_libddwaf.Handle.{Handle}
use go_libddwaf.Handle.Lifetime.{HasOwners}
use go_libddwaf.Context.Run.{Context, Ran}
use go_libddwaf.Context.Run.Encodings.{Yields, bind-Yields}
use go_libddwaf.Context.Life.{
  ContextCall, context_made, context_destroyed, Opening, new_context_with_budget, close_context,
}
use go_libddwaf.Context.Life.Laws.{LentAs, new_context-Lent}
use go_libddwaf.Context.Sequence.{Request, runs, Session, closed_after, run_all, session}
use go_libddwaf.Context.Sequence.Laws.{Lasting, runs-Lasting}

-- One libddwaf context is made and then destroyed, or none is made.
abbrev pub Paired : List ContextCall → Type 0
Paired calls = (calls ≡ []) ⊎ ((x : ℕ) × (calls ≡ context_made x ∷ context_destroyed x ∷ []))

-- The handle has `n` owners and its instance; every context is destroyed.
abbrev pub Returned : (c n : ℕ) → Session → Type 0
Returned c n s = HasOwners c n s.handle × (s.destroyed ≡ []) × Paired s.calls

closed_after-Returned :
    (c n : ℕ) (o : Opening) (ctx : Context) (done : List Ran × Context)
    → LentAs c n o (some ctx)
    → Lasting ctx done
    → Returned c n (closed_after o done)
unfolding close_context
closed_after-Returned c n o ctx (rs, last) (before, calls, d, owners, made, d')
      (k, same, kept, keeps) =
    (owners, rw (d, d') refl, inr (ctx.c_context, rw (calls, same) refl))

run_all-Returned :
    (c n : ℕ) (o : Opening) (requests : List Request) (x : Option Context)
    → LentAs c n o x
    → Yields (Returned c n) (run_all requests o x)
run_all-Returned c n o requests none (v, calls, d) = (v, d, inl calls)
run_all-Returned c n o requests (some ctx) h =
    bind-Yields (Lasting ctx) (Returned c n) (runs ctx requests) _ (runs-Lasting ctx requests)
      (λ done k. closed_after-Returned c n o ctx done h k)

-- If a handle has `k + 1` owners, fewer than 2^31 - 2, and the budget is not -1, then a client that makes
-- a context, runs it any number of times and closes it leaves the handle with its `k + 1` owners and its
-- instance alive; and it has destroyed the libddwaf context that was made for it, or none was made.
pub session-Returned :
    (context_init : ℕ → ℕ) (m : Memory) (h : Handle) (budget : ℤ) (requests : List Request)
    (c k : ℕ)
    → suc k + 2 < 2 ^ 31
    → HasOwners c (suc k) h
    → eq_ℤ budget dynamic_budget ≡ false
    → Yields (Returned c (suc k)) (session context_init m h budget requests)
unfolding session
session-Returned context_init m h budget requests c k b v e =
    let o = new_context_with_budget context_init m h budget in
    run_all-Returned c (suc k) o requests o.context
      (new_context-Lent context_init m h budget c k b v e)
