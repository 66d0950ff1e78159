-- ===== src/Context/Race/Merges.antt =====
-- context.go under concurrency: what becomes of the truncations.
use go_libddwaf.Base.{
  ℕ, ◌+◌, ◌≡◌, refl, ◌∙◌, ap, true, List, arith, total, total-append, if◌then◌else◌,
}
use go_libddwaf.Base.Int.{ℤ}
use go_libddwaf.Truncation.{Truncations, TruncationReason, sizes_of}
use go_libddwaf.Context.{record_truncations}
use go_libddwaf.Context.Laws.{sizes_of-record}
use go_libddwaf.Context.Race.{
  Stage, Runner, Closer, Client, runner, closer, Shared, turn, turn_close, move, Call, start,
  run_clients,
}
use go_libddwaf.Context.Race.Sums.{is_orderly}
use go_libddwaf.Context.Race.Fresh.{Fresh, reach-Fresh}

module _ (reason : TruncationReason) (v : ℤ → ℕ) where
  abbrev pub sizes_weight : Truncations → ℕ
  sizes_weight t = total v (sizes_of reason t)

  -- What a client has merged into the truncations of the context.
  abbrev pub merged_weight : Client → ℕ
  merged_weight (runner r) =
      (if r.merged_first then sizes_weight r.work.first else 0)
      + (if r.merged_second then sizes_weight r.work.second else 0)
  merged_weight (closer c) = 0

  abbrev pub Merged : Shared → ℕ → Type 0
  Merged s n = sizes_weight s.truncations ≡ n

  sizes_weight-record :
      (a b : Truncations) → sizes_weight (record_truncations a b) ≡ sizes_weight a + sizes_weight b
  sizes_weight-record a b =
      ap (total v) (sizes_of-record reason a b)
      ∙ total-append v (sizes_of reason a) (sizes_of reason b)

  turn-Merged :
      (stage : Stage) (s : Shared) (r : Runner) (o : ℕ)
      → r.stage ≡ stage
      → is_orderly (runner r) ≡ true
      → Fresh s (runner r)
      → Merged s (o + merged_weight (runner r))
      → Merged (turn stage s r).0 (o + merged_weight (turn stage s r).1)
  unfolding turn
  turn-Merged stage s r o e v' (f, k) h = ground (
    arith,
    e,
    v',
    sizes_weight-record s.truncations r.work.first,
    sizes_weight-record s.truncations r.work.second,
  )

  turn_close-Merged :
      (c : Closer) (s : Shared) (o : ℕ)
      → Merged s (o + 0)
      → Merged (turn_close c s).0 (o + merged_weight (turn_close c s).1)
  unfolding turn_close
  turn_close-Merged c s o h = ground arith

  move-Merged :
      (s : Shared) (p : Client) (o : ℕ)
      → is_orderly p ≡ true
      → Fresh s p
      → Merged s (o + merged_weight p)
      → Merged (move s p).0 (o + merged_weight (move s p).1)
  unfolding move
  move-Merged s (runner r) o v' f h = turn-Merged r.stage s r o refl v' f h
  move-Merged s (closer c) o v' f h = turn_close-Merged c s o h

  pub reach-Merged :
      (c : ℕ) (calls : List Call) (schedule : List ℕ)
      → let s = run_clients (start c calls) schedule in
        Merged s.shared (total merged_weight s.clients)
  unfolding total sizes_of
  reach-Merged c calls schedule =
      reach-Fresh Merged merged_weight move-Merged (λ x. refl) refl c calls schedule refl
