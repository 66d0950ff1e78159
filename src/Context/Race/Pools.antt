-- ===== src/Context/Race/Pools.antt =====
-- context.go under concurrency: what becomes of the blocks of the encoders.
use go_libddwaf.Base.{ℕ, ◌+◌, ◌≡◌, refl, true, List, arith, total, total-append, if◌then◌else◌}
use go_libddwaf.RefPool.{RefPool, no_refs, append}
use go_libddwaf.Context.Race.{
  Stage, Runner, Closer, closing, destroying, clearing_refs, clearing_context, releasing,
  unlocking_close, closed, Client, runner, closer, Shared, turn, turn_close, move, Call, start,
  run_clients,
}
use go_libddwaf.Context.Race.Sums.{is_orderly}
use go_libddwaf.Context.Race.Fresh.{Fresh, reach-Fresh}

module _ (v : ℕ → ℕ) where
  abbrev pub refs_weight : RefPool → ℕ
  refs_weight pool = total v pool.string_refs + total v pool.array_refs

  -- What a client has put into the pool.
  abbrev pub kept_weight : Client → ℕ
  kept_weight (runner r) = if r.kept then refs_weight r.work.refs else 0
  kept_weight (closer c) = 0

  abbrev pub Pool : Shared → ℕ → Type 0
  Pool s n = refs_weight s.cgo_refs + refs_weight s.freed ≡ n

  refs_weight-append : (a b : RefPool) → refs_weight (append a b) ≡ refs_weight a + refs_weight b
  refs_weight-append a b =
      omega (
        arith,
        total-append v a.string_refs b.string_refs,
        total-append v a.array_refs b.array_refs,
      )

  freed-Pool :
      (freed refs : RefPool) (n : ℕ)
      → refs_weight refs + refs_weight freed ≡ n
      → refs_weight no_refs + refs_weight (append freed refs) ≡ n
  unfolding total
  freed-Pool freed refs n h = omega (
    arith,
    h,
    total-append v freed.string_refs refs.string_refs,
    total-append v freed.array_refs refs.array_refs,
  )

  turn-Pool :
      (stage : Stage) (s : Shared) (r : Runner) (o : ℕ)
      → r.stage ≡ stage
      → is_orderly (runner r) ≡ true
      → Fresh s (runner r)
      → Pool s (o + kept_weight (runner r))
      → Pool (turn stage s r).0 (o + kept_weight (turn stage s r).1)
  unfolding turn
  turn-Pool stage s r o e v' (f, k) h =
      ground (arith, e, v', refs_weight-append s.cgo_refs r.work.refs)

  turn_close-Pool :
      (c : Closer) (s : Shared) (o : ℕ)
      → Pool s (o + 0)
      → Pool (turn_close c s).0 (o + kept_weight (turn_close c s).1)
  unfolding turn_close
  turn_close-Pool closing s o h = ground arith
  turn_close-Pool destroying s o h = ground arith
  turn_close-Pool clearing_refs s o h = freed-Pool s.freed s.cgo_refs _ h
  turn_close-Pool clearing_context s o h = ground arith
  turn_close-Pool releasing s o h = ground arith
  turn_close-Pool unlocking_close s o h = ground arith
  turn_close-Pool closed s o h = ground arith

  move-Pool :
      (s : Shared) (p : Client) (o : ℕ)
      → is_orderly p ≡ true
      → Fresh s p
      → Pool s (o + kept_weight p)
      → Pool (move s p).0 (o + kept_weight (move s p).1)
  unfolding move
  move-Pool s (runner r) o v' f h = turn-Pool r.stage s r o refl v' f h
  move-Pool s (closer c) o v' f h = turn_close-Pool c s o h

  pub reach-Pool :
      (c : ℕ) (calls : List Call) (schedule : List ℕ)
      → let s = run_clients (start c calls) schedule in Pool s.shared (total kept_weight s.clients)
  unfolding total
  reach-Pool c calls schedule =
      reach-Fresh Pool kept_weight move-Pool (λ x. refl) refl c calls schedule refl
