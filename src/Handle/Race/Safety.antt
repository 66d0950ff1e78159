-- ===== src/Handle/Race/Safety.antt =====
-- handle.go: what the reference counter guarantees to concurrent clients.
use go_libddwaf.Base.{
  ℕ, ◌+◌, ◌^◌, ◌<◌, ◌≡◌, refl, some, List, [], ◌∷◌, arith, get_elem?, total, total_elem, ◌⊎◌,
}
use go_libddwaf.Base.Int.{pos}
use go_libddwaf.Diagnostics.{Diagnostics}
use go_libddwaf.Handle.Race.{Client, refused, holding, gone, run, start}
use go_libddwaf.Handle.Race.Invariant.{owns, last, clears, Inv, run-Inv, start-Inv, length-fresh}

-- The invariant in every state that a new handle can reach.
pub reach-Inv :
    (d : Diagnostics) (c n : ℕ) (schedule : List ℕ)
    → n + 2 < 2 ^ 31
    → Inv c (run (start d c n) schedule)
reach-Inv d c n schedule few =
    run-Inv c (start d c n) schedule (omega (arith, length-fresh n)) (start-Inv d c n)

-- From a new handle, whatever the interleaving of its creator and fewer than 2^31 - 2 other clients:
-- while a client holds a reference, `WafDestroy` has not been called and the handle still names
-- libddwaf's instance.
pub holding_safe :
    (d : Diagnostics) (c n : ℕ) (schedule : List ℕ) (i : ℕ)
    → n + 2 < 2 ^ 31
    → get_elem? (run (start d c n) schedule).clients i ≡ some holding
    → ((run (start d c n) schedule).shared.destroyed ≡ [])
      × ((run (start d c n) schedule).shared.handle.c_handle ≡ c)
holding_safe d c n schedule i few held = ground (
  arith,
  reach-Inv d c n schedule few,
  total_elem owns (run (start d c n) schedule).clients i holding held,
)

-- From a new handle, whatever the interleaving of its creator and fewer than 2^31 - 2 other clients,
-- `WafDestroy` is called at most once, with the instance of the handle that was created.
pub destroyed_once :
    (d : Diagnostics) (c n : ℕ) (schedule : List ℕ)
    → n + 2 < 2 ^ 31
    → let s = run (start d c n) schedule in
      (s.shared.destroyed ≡ []) ⊎ (s.shared.destroyed ≡ c ∷ [])
destroyed_once d c n schedule few = (reach-Inv d c n schedule few).named

-- A client that is through with the handle, or was refused it.
abbrev pub IsThrough : Client → Type 0
IsThrough gone = Unit {0}
IsThrough refused = Unit {0}
IsThrough _ = ⊥

abbrev pub AllThrough : List Client → Type 0
AllThrough [] = Unit {0}
AllThrough (p ∷ ps) = IsThrough p × AllThrough ps

weightless :
    (w : Client → ℕ)
    → w gone ≡ 0
    → w refused ≡ 0
    → (ps : List Client) → AllThrough ps
    → total w ps ≡ 0
unfolding total
weightless w g r [] h = refl
weightless w g r (gone ∷ ps) h = omega (arith, weightless w g r ps h.1)
weightless w g r (refused ∷ ps) h = omega (arith, weightless w g r ps h.1)
weightless w g r (p ∷ ps) h = absurd h.0

-- From a new handle, whatever the interleaving of its creator and fewer than 2^31 - 2 other clients:
-- once every client is through, `WafDestroy` has been called exactly once, with the instance of the
-- handle that was created, the counter is 0 and the handle is cleared.
pub last_leaves_destroyed :
    (d : Diagnostics) (c n : ℕ) (schedule : List ℕ)
    → n + 2 < 2 ^ 31
    → AllThrough (run (start d c n) schedule).clients
    → ((run (start d c n) schedule).shared.destroyed ≡ c ∷ [])
      × ((run (start d c n) schedule).shared.handle.ref_counter ≡ pos 0)
      × ((run (start d c n) schedule).shared.handle.c_handle ≡ 0)
last_leaves_destroyed d c n schedule few through = ground (
  arith,
  reach-Inv d c n schedule few,
  weightless owns refl refl _ through,
  weightless last refl refl _ through,
  weightless clears refl refl _ through,
)
