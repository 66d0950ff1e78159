-- ===== src/Context/Race/Settled.antt =====
-- context.go under concurrency: what the context holds when all calls of `Run` and `Close` have returned.
use go_libddwaf.Base.{ℕ, ◌+◌, ◌%◌, ◌^◌, ◌≡◌, Bool, List, length, total, if◌then◌else◌}
use go_libddwaf.Base.Int.{ℤ}
use go_libddwaf.Truncation.{TruncationReason}
use go_libddwaf.Context.Race.{Work, Shared, Call}
use go_libddwaf.Context.Race.Pools.{refs_weight}
use go_libddwaf.Context.Race.Merges.{sizes_weight}
use go_libddwaf.Context.Race.Works.{encodes_second, calls_libddwaf, ends_in_timeout, of_call}

abbrev count : Bool → ℕ
count b = if b then 1 else 0

-- What a run owes to the context, whatever the others do.
abbrev pub due_refs : (ℕ → ℕ) → Work → ℕ
due_refs v w = if calls_libddwaf w then refs_weight v w.refs else 0

abbrev pub due_call : Work → ℕ
due_call w = count (calls_libddwaf w)

abbrev pub due_timeout : Work → ℕ
due_timeout w = count (ends_in_timeout w)

abbrev pub due_sizes : TruncationReason → (ℤ → ℕ) → Work → ℕ
due_sizes reason v w =
    (if w.spent_before then 0 else sizes_weight reason v w.first)
    + (if encodes_second w then sizes_weight reason v w.second else 0)

-- However the addresses and the sizes are weighed.
pub record Settled (calls : List Call) (s : Shared) : Type 0 where
  pub refs :
      (v : ℕ → ℕ)
      → refs_weight v s.cgo_refs + refs_weight v s.freed ≡ total (of_call (due_refs v)) calls
  pub calls_made : length s.calls ≡ total (of_call due_call) calls
  pub timeouts : s.timeout_count % 2 ^ 64 ≡ total (of_call due_timeout) calls % 2 ^ 64
  pub truncations :
      (reason : TruncationReason) (v : ℤ → ℕ)
      → sizes_weight reason v s.truncations ≡ total (of_call (due_sizes reason v)) calls
