-- ===== src/Handle/Tests.antt =====
-- handle.go: runs at concrete handles and schedules, and the witnesses of the handle's theorems.
use go_libddwaf.Base.{
  ℕ, ◌-◌, ◌^◌, ◌≡◌, refl, true, false, some, replicate, length, ◌≤◌, ◌+◌, ◌*◌, List, [], ◌∷◌, arith,
  get_elem?, ◌⊎◌,
}
use go_libddwaf.Base.Int.{pos, negsuc, wrap32, ◌+ℤ◌}
use go_libddwaf.Diagnostics.{no_diagnostics}
use go_libddwaf.Handle.{Handle, new_handle, looping, loaded, returned, add_ref_counter, retain}
use go_libddwaf.Handle.Lifetime.{
  Call, retains, releases, calls, HasOwners, add_ref_counter_returns, calls-HasOwners, lifetime,
  retain_overflow,
}
use go_libddwaf.Handle.Race.{
  System, Client, run, step, move, start, fresh, holding, retaining, releasing,
}
use go_libddwaf.Handle.Race.Progress.{is_through, run-is_through}
use go_libddwaf.Handle.Race.Bounded.{schedule_is_bounded}
use go_libddwaf.Handle.Race.Safety.{holding_safe, destroyed_once, last_leaves_destroyed}

abbrev fresh_handle : Handle
fresh_handle = new_handle no_diagnostics 7

-- The counter at the top of int32.
abbrev full_handle : Handle
full_handle = record fresh_handle { ref_counter = pos (2 ^ 31 - 1) }

abbrev some_calls : List Call
some_calls = retains ∷ releases ∷ retains ∷ releases ∷ releases ∷ retains ∷ []

destroyed_by_calls : (calls fresh_handle some_calls).1 ≡ 7 ∷ []
destroyed_by_calls = (lifetime no_diagnostics 7 some_calls (omega arith)).1

calls_owners : HasOwners 7 0 (calls fresh_handle some_calls).0
calls_owners =
    (calls-HasOwners 7 1 fresh_handle some_calls (omega arith)
      (record { counted = refl; live = refl })).0

retain_overflow_example : (retain full_handle).0 ≡ false
retain_overflow_example = (retain_overflow full_handle some_calls refl).0

last_reference :
    add_ref_counter fresh_handle (negsuc 0)
    ≡ (returned (pos 0), record fresh_handle { ref_counter = pos 0 })
unfolding wrap32 ◌+ℤ◌
last_reference = add_ref_counter_returns fresh_handle (negsuc 0)

-- Client 1 takes its reference before the creator gives up its own.
abbrev handover : List ℕ
handover = 1 ∷ 1 ∷ 1 ∷ 0 ∷ 1 ∷ 0 ∷ 0 ∷ 0 ∷ []

handover_holding : get_elem? (run (start no_diagnostics 7 1) handover).clients 1 ≡ some holding
unfolding run wrap32 move
handover_holding = refl

holding_safe_example : (run (start no_diagnostics 7 1) handover).shared.destroyed ≡ []
holding_safe_example = (holding_safe no_diagnostics 7 1 handover 1 (omega arith) handover_holding).0

-- Client 1 loads the counter, the creator brings it to 0, and client 1 is refused.
abbrev contention : List ℕ
contention = 1 ∷ 0 ∷ 1 ∷ 0 ∷ 0 ∷ 1 ∷ 1 ∷ 1 ∷ 0 ∷ 0 ∷ 0 ∷ []

contention_destroyed : (run (start no_diagnostics 7 1) contention).shared.destroyed ≡ 7 ∷ []
unfolding run wrap32 move
contention_destroyed = refl

destroyed_once_example :
    ((run (start no_diagnostics 7 1) contention).shared.destroyed ≡ [])
    ⊎ ((run (start no_diagnostics 7 1) contention).shared.destroyed ≡ 7 ∷ [])
destroyed_once_example = destroyed_once no_diagnostics 7 1 contention (omega arith)

last_leaves_destroyed_example :
    (run (start no_diagnostics 7 1) contention).shared.destroyed ≡ 7 ∷ []
unfolding run wrap32 move
last_leaves_destroyed_example =
    (last_leaves_destroyed no_diagnostics 7 1 contention (omega arith) (tt, (tt, tt))).0

-- Client 1 has loaded the counter and client 2 has changed it since: the first swap of client 1 fails.
abbrev interrupted : System
interrupted = run (start no_diagnostics 7 2) (1 ∷ 1 ∷ 2 ∷ 2 ∷ 2 ∷ [])

interrupted_at : get_elem? interrupted.clients 1 ≡ some (retaining (loaded (pos 1)))
unfolding run wrap32 move
interrupted_at = refl

run-is_through_example :
    (q : Client) × (get_elem? (run interrupted (replicate 10 1)).clients 1 ≡ some q)
    × (is_through q ≡ true)
run-is_through_example = run-is_through interrupted 1 (retaining (loaded (pos 1))) interrupted_at

-- The owner's swap makes that of the other client fail, which has to begin again.
abbrev contended : List ℕ
contended = 1 ∷ 1 ∷ 0 ∷ 0 ∷ 0 ∷ 1 ∷ []

contended_fails :
    get_elem? (run (start no_diagnostics 7 1) contended).clients 1 ≡ some (retaining looping)
unfolding run wrap32 move
contended_fails = refl

schedule_is_bounded_example :
    let n = length (start no_diagnostics 7 1).clients in length contended ≤ n * (4 * n + 10)
unfolding run step wrap32 move
schedule_is_bounded_example = schedule_is_bounded (start no_diagnostics 7 1) contended (
  fresh,
  refl,
  refl,
  (
    retaining looping,
    refl,
    refl,
    (
      holding,
      refl,
      refl,
      (
        releasing looping,
        refl,
        refl,
        (releasing (loaded (pos 1)), refl, refl, (retaining (loaded (pos 1)), refl, refl, tt)),
      ),
    ),
  ),
)
