-- ===== src/Context/Sequence/Laws.antt =====
-- context.go: what the runs of a context promise together.
use go_libddwaf.Base.{
  ℕ, suc, ◌+◌, ◌%◌, ◌^◌, ◌≡◌, refl, ap, ◌∙◌, Bool, true, false, List, [], ◌∷◌, arith, All, length,
  if◌then◌else◌,
}
use go_libddwaf.Memory.{Memory}
use go_libddwaf.RefPool.{RefPool}
use go_libddwaf.Context.Run.{Context, WafCall, Ran}
use go_libddwaf.Context.Run.Whole.{is_timeout, run}
use go_libddwaf.Context.Run.Objects.{
  SafeObject, KeptObject, KeptObject-Keeps, Keeps, Keeps-refl, Keeps-trans,
}
use go_libddwaf.Context.Run.Encodings.{Yields, bind-Yields}
use go_libddwaf.Context.Run.Steps.{CallsOk}
use go_libddwaf.Context.Run.Laws.{Counts, run-Counts}
use go_libddwaf.Context.Sequence.{Request, runs}

abbrev pub timeouts : List Ran → ℕ
timeouts [] = 0
timeouts (r ∷ rs) = (if is_timeout r.failure then 1 else 0) + timeouts rs

-- A call whose objects could be read, and whose persistent object is kept in `m` by `pool`.
abbrev pub KeptCall : Memory → RefPool → WafCall → Type 0
KeptCall m pool c = ((lo : ℕ) × KeptObject lo pool m c.persistent) × SafeObject c.memory c.ephemeral

abbrev pub KeptCalls : Memory → RefPool → List Ran → Type 0
KeptCalls m pool rs = All (λ r. All (KeptCall m pool) r.calls) rs

-- What runs leave in a context that was `ctx`.
abbrev pub Lasting : Context → List Ran × Context → Type 0
Lasting ctx (rs, last) =
    (last.timeout_count % 2 ^ 64 ≡ (ctx.timeout_count + timeouts rs) % 2 ^ 64)
    × (last.c_context ≡ ctx.c_context)
    × KeptCalls last.memory last.cgo_refs rs
    × Keeps ctx.memory ctx.cgo_refs last.memory last.cgo_refs

CallsOk-KeptCalls :
    (lo : ℕ) {m m' : Memory} {pool pool' : RefPool} (calls : List WafCall)
    → Keeps m pool m' pool'
    → CallsOk lo m pool calls
    → All (KeptCall m' pool') calls
CallsOk-KeptCalls lo [] k h = tt
CallsOk-KeptCalls lo (c ∷ []) k (h, now, e) = (((lo, KeptObject-Keeps lo c.persistent k h), e), tt)
CallsOk-KeptCalls lo (c ∷ c' ∷ calls) k h = absurd h

sum_of_counts :
    (b : Bool) (c t l : ℕ)
    → l % 2 ^ 64 ≡ ((if b then suc c % 2 ^ 64 else c) + t) % 2 ^ 64
    → l % 2 ^ 64 ≡ (c + ((if b then 1 else 0) + t)) % 2 ^ 64
sum_of_counts true c t l h = omega (arith, h)
sum_of_counts false c t l h = omega (arith, h)

Lasting-cons :
    (ctx : Context) (r : Ran) (rest : List Ran × Context)
    → Counts ctx r
    → Lasting r.context rest
    → Lasting ctx (r ∷ rest.0, rest.1)
Lasting-cons ctx r (rs, last) (n, c, calls, k) (n', c', kept, k') = (
  sum_of_counts (is_timeout r.failure) ctx.timeout_count (timeouts rs) last.timeout_count
      (n' ∙ ap (λ x. (x + timeouts rs) % 2 ^ 64) n),
  c' ∙ c,
  (CallsOk-KeptCalls (length ctx.memory) r.calls k' calls, kept),
  Keeps-trans k k',
)

-- Whatever libddwaf, the clock and the data of each run are: after any number of runs that return, every
-- persistent object that libddwaf was given in any of them can be read in the memory that is left, within
-- the limits, with all its blocks in the context's pool; every ephemeral object could be read; and the
-- counter has moved on by the number of runs that returned the timeout, modulo 2 ^ 64.
pub runs-Lasting :
    (ctx : Context) (requests : List Request) → Yields (Lasting ctx) (runs ctx requests)
unfolding runs
runs-Lasting ctx [] =
    (ap (λ n. n % 2 ^ 64) (omega arith), refl, tt, Keeps-refl ctx.memory ctx.cgo_refs)
runs-Lasting ctx (q ∷ requests) =
    bind-Yields (Counts ctx) (Lasting ctx) (run q.world ctx q.address_data) _
      (run-Counts q.world ctx q.address_data)
      (λ r h.
        bind-Yields (Lasting r.context) (Lasting ctx) (runs r.context requests) _
          (runs-Lasting r.context requests) (λ rest k. Lasting-cons ctx r rest h k))
