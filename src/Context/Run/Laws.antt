-- ===== src/Context/Run/Laws.antt =====
-- context.go: what a run leaves in the context, and what libddwaf is given.
use go_libddwaf.Base.{
  length, suc, ◌/◌, ◌%◌, ◌^◌, ◌≤◌, ◌≡◌, refl, ap, Bool, true, false, arith, if◌then◌else◌,
}
use go_libddwaf.Base.Int.{ℤ, pos_part}
use go_libddwaf.Timer.Nodes.{sum_exhausted}
use go_libddwaf.Decoder.{Decoded, ok, err, fault, unfinished}
use go_libddwaf.Context.Run.{Context, RunAddressData, is_empty, World, Ran}
use go_libddwaf.Context.Run.Whole.{
  after_new_node, is_timeout, timeout_of, count_if, counted, map_counted, run_node, run,
}
use go_libddwaf.Context.Run.Objects.{Keeps, Keeps-refl}
use go_libddwaf.Context.Run.Encodings.{Yields, if-Yields}
use go_libddwaf.Context.Run.Steps.{CallsOk, RanOk, after_new_node-RanOk}

-- `RanOk` but for the counter, which a timeout moves on by 1, in a uint64.
abbrev pub Counts : Context → Ran → Type 0
Counts ctx r =
    (r.context.timeout_count
      ≡ (if is_timeout r.failure then suc ctx.timeout_count % 2 ^ 64 else ctx.timeout_count))
    × (r.context.c_context ≡ ctx.c_context)
    × CallsOk (length ctx.memory) r.context.memory r.context.cgo_refs r.calls
    × Keeps ctx.memory ctx.cgo_refs r.context.memory r.context.cgo_refs

count_if-Counts :
    (ctx : Context) (b : Bool) (r : Ran)
    → is_timeout r.failure ≡ b
    → RanOk ctx r
    → Counts ctx (count_if b r)
count_if-Counts ctx true r e (c, h, k) = rw e (ap (λ p. suc p.0 % 2 ^ 64) c, ap (λ p. p.1) c, h, k)
count_if-Counts ctx false r e (c, h, k) = rw e (ap (λ p. p.0) c, ap (λ p. p.1) c, h, k)

counted-Counts : (ctx : Context) (r : Ran) → RanOk ctx r → Counts ctx (counted r)
counted-Counts ctx r h = count_if-Counts ctx (is_timeout r.failure) r refl h

map_counted-Counts :
    (ctx : Context) (x : Decoded Ran) → Yields (RanOk ctx) x → Yields (Counts ctx) (map_counted x)
map_counted-Counts ctx (ok r) h = counted-Counts ctx r h
map_counted-Counts ctx (err e) h = tt
map_counted-Counts ctx fault h = tt
map_counted-Counts ctx unfinished h = tt

-- Whatever libddwaf, the clock and the data are, a `Run` that returns has moved the timeout counter on by
-- 1, in a uint64, exactly if its error is the timeout; and it has called ddwaf_run at most once, with
-- objects that can be read in the shared memory and are within the limits, where all blocks that the
-- persistent one leads to were new and are in the context's pool afterwards. Of the shared memory and of
-- the pool of the context nothing is lost.
pub run-Counts :
    (w : World) (ctx : Context) (d : RunAddressData) → Yields (Counts ctx) (run w ctx d)
unfolding run
run-Counts w ctx d =
    if-Yields (Counts ctx) (is_empty d) _ _ (refl, refl, tt, Keeps-refl ctx.memory ctx.cgo_refs)
      (if-Yields (Counts ctx) (sum_exhausted ctx.timer) _ _
        (refl, refl, tt, Keeps-refl ctx.memory ctx.cgo_refs)
        (map_counted-Counts ctx (after_new_node w ctx d (run_node ctx))
          (after_new_node-RanOk w ctx d (run_node ctx))))

-- The timeout that libddwaf is given is at most the budget in microseconds, and agrees with it modulo
-- 2 ^ 52.
pub timeout_of_le :
    (budget : ℤ)
    → let micros = pos_part budget / 1000 in
      (timeout_of budget ≤ micros) × (timeout_of budget % 2 ^ 52 ≡ micros % 2 ^ 52)
unfolding timeout_of
timeout_of_le budget = omega arith
