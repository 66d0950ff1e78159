-- ===== src/Handle/Race.antt =====
-- handle.go under concurrency: clients of one handle, each of which takes a reference by `retain`,
-- uses the handle, and gives the reference back by `release` or `Close`. A scheduler picks which
-- client makes its next atomic action.
pub mod Invariant
pub mod Safety
pub mod Progress
pub mod Bounded
use go_libddwaf.Base.{
  ℕ, zero, suc, ◌+◌, ◌≡◌, refl, Bool, true, false, Option, none, some, List, [], ◌∷◌, ◌++◌, arith,
  if◌then◌else◌, get_elem?, set,
}
use go_libddwaf.Base.Int.{ℤ, pos, negsuc}
use go_libddwaf.Diagnostics.{Diagnostics, no_diagnostics}
use go_libddwaf.Handle.{Handle, new_handle, Attempt, looping, returned, turn, is_positive, is_zero}

-- `holding` may use `handle.cHandle`; `refused` got false from `retain`; `destroying` is at
-- `WafDestroy`, `clearing` at the two assignments that follow it.
pub data Client : Type 0 where
  fresh refused holding destroying clearing gone : Client
  retaining releasing : Attempt → Client

-- The handle, and every argument that `WafDestroy` was called with.
pub record Shared : Type 0 where
  pub handle : Handle
  pub destroyed : List ℕ

abbrev with_counter : Shared → ℤ → Shared
with_counter s c = record s { handle = record s.handle { ref_counter = c } }

-- One atomic action of a client.
unfoldable pub move : Shared → Client → Shared × Client
unfolding turn
move s fresh = (s, retaining looping)
move s (retaining (returned r)) = (s, if is_positive (returned r) then holding else refused)
move s (retaining a) =
    let (a', c) = turn (pos 1) a s.handle.ref_counter in (with_counter s c, retaining a')
move s holding = (s, releasing looping)
move s (releasing (returned r)) = (s, if is_zero (returned r) then destroying else gone)
move s (releasing a) =
    let (a', c) = turn (negsuc 0) a s.handle.ref_counter in (with_counter s c, releasing a')
move s destroying = (record s { destroyed = s.handle.c_handle ∷ s.destroyed }, clearing)
move s clearing =
    (record s { handle = record s.handle { diagnostics = no_diagnostics; c_handle = 0 } }, gone)
move s refused = (s, refused)
move s gone = (s, gone)

pub record System : Type 0 where
  pub shared : Shared
  pub clients : List Client

-- The client at `i` moves; a number that names no client changes nothing.
unfoldable pub step : System → ℕ → System
step s i = elim (get_elem? s.clients i) [
  | none ↦ s
  | some p ↦
      let (shared, p') = move s.shared p in record { shared = shared; clients = set s.clients i p' }
]

unfoldable pub run : System → List ℕ → System
unfolding step
run s [] = s
run s (i ∷ schedule) = run (step s i) schedule

abbrev pub fresh_clients : ℕ → List Client
fresh_clients zero = []
fresh_clients (suc n) = fresh ∷ fresh_clients n

-- A new handle for `c`: its creator holds the first reference, `n` other clients are to come.
abbrev pub start : Diagnostics → ℕ → ℕ → System
start diags c n = record {
  shared = record { handle = new_handle diags c; destroyed = [] };
  clients = holding ∷ fresh_clients n;
}
