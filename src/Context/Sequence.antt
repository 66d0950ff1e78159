-- ===== src/Context/Sequence.antt =====
-- context.go: the life of a context: runs that follow one another, between its making and `Close`.
pub mod Laws
pub mod Borrowed
mod Tests
use go_libddwaf.Base.{ℕ, Option, none, some, List, [], ◌∷◌, ◌++◌}
use go_libddwaf.Base.Int.{ℤ}
use go_libddwaf.Memory.{Memory}
use go_libddwaf.Handle.{Handle}
use go_libddwaf.Decoder.{Decoded, ok, ◌>>=◌}
use go_libddwaf.Context.Run.{Context, RunAddressData, World, Ran}
use go_libddwaf.Context.Run.Whole.{run}
use go_libddwaf.Context.Life.{ContextCall, Opening, new_context_with_budget, Closing, close_context}

-- A call of `Run`, with what it meets.
pub record Request : Type 0 where
  pub world : World
  pub address_data : RunAddressData

-- What the runs return, and the context after the last. A panic ends the sequence.
unfoldable pub runs : Context → List Request → Decoded (List Ran × Context)
runs ctx [] = ok ([], ctx)
runs ctx (q ∷ requests) = do
  r ← run q.world ctx q.address_data
  (rs, last) ← runs r.context requests
  ok (r ∷ rs, last)

-- A client of a handle that makes a context, runs it and closes it.
pub record Session : Type 0 where
  pub rans : List Ran
  pub handle : Handle
  pub calls : List ContextCall
  pub destroyed : List ℕ

abbrev pub closed_after : Opening → List Ran × Context → Session
closed_after o (rs, last) =
    let c : Closing = close_context last o.handle in
    record {
      rans = rs;
      handle = c.handle;
      calls = o.calls ++ c.calls;
      destroyed = o.destroyed ++ c.destroyed;
    }

abbrev pub run_all : List Request → Opening → Option Context → Decoded Session
run_all requests o none =
    ok (record { rans = []; handle = o.handle; calls = o.calls; destroyed = o.destroyed })
run_all requests o (some ctx) = do done ← runs ctx requests; ok (closed_after o done)

unfoldable pub session : (ℕ → ℕ) → Memory → Handle → ℤ → List Request → Decoded Session
unfolding new_context_with_budget close_context runs
session context_init m h budget requests =
    let o = new_context_with_budget context_init m h budget in run_all requests o o.context
