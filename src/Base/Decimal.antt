-- ===== src/Base/Decimal.antt =====
-- Numbers in decimal, as `fmt` prints them by %d.
use Prim.Native.Nat.{ℕ, zero, suc, ◌+◌, ◌-◌, ◌*◌, ◌/◌, ◌%◌, ◌≤◌, ◌<◌}
use mathlib.Core.Path.{◌≡◌, refl, ◌∙◌}
use mathlib.Core.Logic.{inl, inr}
use mathlib.Core.List.{[], ◌∷◌, ◌++◌}
use native.Mathlib.Omega.{arith}
use go_libddwaf.Base.Bytes.{Text}
use go_libddwaf.Base.Tests.{ltb, if◌then◌else◌, Bool-cases}

-- The number bounds the digits.
unfoldable pub digits : ℕ → ℕ → Text
digits zero n = []
digits (suc fuel) n =
    let front = digits fuel (n / 10) in
    if ltb n 10 then (48 + n) ∷ [] else front ++ (48 + n % 10) ∷ []

unfoldable pub decimal : ℕ → Text
unfolding digits
decimal n = digits (suc n) n

-- The number that digits stand for, after those that `n` stands for.
abbrev pub value_from : ℕ → Text → ℕ
value_from n [] = n
value_from n (c ∷ s) = value_from (10 * n + (c - 48)) s

value_from-snoc : (s : Text) (n c : ℕ) → value_from n (s ++ c ∷ []) ≡ 10 * value_from n s + (c - 48)
value_from-snoc [] n c = refl
value_from-snoc (d ∷ s) n c = value_from-snoc s (10 * n + (d - 48)) c

value-digits : (fuel n : ℕ) → n < fuel → value_from 0 (digits fuel n) ≡ n
unfolding digits
value-digits zero n h = absurd (omega arith)
value-digits (suc fuel) n h = elim (Bool-cases (ltb n 10)) [
  | inl e ↦ rw e (omega arith)
  | inr e ↦
      let big : 10 ≤ n = ground (arith, e) in
      rw e (
        value_from-snoc (digits fuel (n / 10)) 0 (48 + n % 10)
        ∙ omega (arith, value-digits fuel (n / 10) (omega (arith, h, big))))
]

-- Different numbers are printed differently.
pub value-decimal : (n : ℕ) → value_from 0 (decimal n) ≡ n
unfolding decimal
value-decimal n = value-digits (suc n) n (omega arith)
