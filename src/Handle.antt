-- ===== src/Handle.antt =====
-- handle.go: the reference counter of a WAF handle, and the operations that go through it.
pub mod Lifetime
pub mod Creation
pub mod Race
pub mod Queries
mod Tests
use go_libddwaf.Base.{
  ℕ, ◌+◌, ◌≡◌, refl, Bool, true, false, List, [], ◌∷◌, ◌++◌, arith, if◌then◌else◌,
}
use go_libddwaf.Base.Int.{ℤ, pos, negsuc, ◌+ℤ◌, leb_ℤ, ltb_ℤ, eq_ℤ, wrap32}
use go_libddwaf.Diagnostics.{Diagnostics, no_diagnostics}

-- `c_handle` is libddwaf's opaque handle, 0 once it is gone; `ref_counter` is an int32.
pub record Handle : Type 0 where
  pub diagnostics : Diagnostics
  pub ref_counter : ℤ
  pub c_handle : ℕ

-- The value that `NewHandle` and `Update` return.
abbrev pub new_handle : Diagnostics → ℕ → Handle
new_handle diags c = record { diagnostics = diags; ref_counter = pos 1; c_handle = c }

-- Where one call of `addRefCounter` stands in its loop: before `Load`, between `Load` and
-- `CompareAndSwap`, or at its `return`.
pub data Attempt : Type 0 where
  looping : Attempt
  loaded : ℤ → Attempt
  returned : ℤ → Attempt

-- What follows `Load`.
abbrev pub after_load : ℤ → Attempt
after_load current = if leb_ℤ current (pos 0) then returned (negsuc 0) else loaded current

-- The atomic `CompareAndSwap`.
abbrev pub compare_and_swap : ℤ → ℤ → ℤ → Bool × ℤ
compare_and_swap counter old new = if eq_ℤ counter old then (true, new) else (false, counter)

-- What follows `CompareAndSwap`: the result, clamped at 0, or another round.
abbrev pub after_swap : ℤ → Bool → Attempt
after_swap next true = if ltb_ℤ next (pos 0) then returned (pos 0) else returned next
after_swap next false = looping

-- One atomic action of `addRefCounter(x)` on the shared counter.
unfoldable pub turn : ℤ → Attempt → ℤ → Attempt × ℤ
unfolding wrap32 ◌+ℤ◌
turn x looping counter = (after_load counter, counter)
turn x (loaded current) counter =
    let next = wrap32 (current +ℤ x) in
    let (swapped, counter') = compare_and_swap counter current next in
    (after_swap next swapped, counter')
turn x (returned r) counter = (returned r, counter)

-- A call that nothing interrupts: two actions.
unfoldable pub add_ref_counter : Handle → ℤ → Attempt × Handle
unfolding turn
add_ref_counter h x =
    let (a, c) = turn x looping h.ref_counter in
    let (b, d) = turn x a c in (b, record h { ref_counter = d })

-- `result > 0` and `result != 0`.
abbrev pub is_positive : Attempt → Bool
is_positive (returned r) = ltb_ℤ (pos 0) r
is_positive a = false

abbrev pub is_zero : Attempt → Bool
is_zero (returned r) = eq_ℤ r (pos 0)
is_zero a = false

unfoldable pub retain : Handle → Bool × Handle
unfolding add_ref_counter
retain h = let (a, h') = add_ref_counter h (pos 1) in (is_positive a, h')

-- The new handle, and the handles that `WafDestroy` was called with.
unfoldable pub close : Handle → Handle × List ℕ
unfolding add_ref_counter
close h =
    let (a, h') = add_ref_counter h (negsuc 0) in
    if is_zero a
    then (record h' { diagnostics = no_diagnostics; c_handle = 0 }, h'.c_handle ∷ [])
    else (h', [])

unfoldable pub release : Handle → Handle × List ℕ
unfolding close
release h = close h
