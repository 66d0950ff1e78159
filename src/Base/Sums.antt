-- ===== src/Base/Sums.antt =====
-- Weighted sums over a list, and how they move when one element is replaced.
use Prim.Native.Nat.{ℕ, zero, suc, ◌+◌, ◌≤◌, ◌<◌}
use mathlib.Core.Path.{◌≡◌, refl, ap}
use mathlib.Core.Logic.{◌≢◌, ◌⊎◌, inl, inr}
use mathlib.Core.List.{List, [], ◌∷◌, ◌++◌}
use mathlib.Core.Option.{some}
use native.Mathlib.Omega.{arith}
use go_libddwaf.Base.Lists.{length, get_elem?, set}

zero_or_positive : (n : ℕ) → (n ≡ 0) ⊎ (0 < n)
zero_or_positive zero = inl refl
zero_or_positive (suc n) = inr (omega arith)

module _ {ℓ} {A : Type ℓ} (w : A → ℕ) where
  unfoldable pub total : List A → ℕ
  total [] = 0
  total (x ∷ xs) = w x + total xs

  -- What the other elements weigh is the same before and after the write.
  pub total-set :
      (xs : List A) (i : ℕ) (x y : A)
      → get_elem? xs i ≡ some x
      → total (set xs i y) + w x ≡ total xs + w y
  unfolding total
  total-set [] i x y h = absurd (ground arith)
  total-set (z ∷ zs) zero x y h = ground arith
  total-set (z ∷ zs) (suc i) x y h = omega (arith, total-set zs i x y h)

  pub total_elem : (xs : List A) (i : ℕ) (x : A) → get_elem? xs i ≡ some x → w x ≤ total xs
  unfolding total
  total_elem [] i x h = absurd (ground arith)
  total_elem (z ∷ zs) zero x h = ground arith
  total_elem (z ∷ zs) (suc i) x h = omega (arith, total_elem zs i x h)

  -- Two elements at different places.
  pub total_two :
      (xs : List A) (i j : ℕ) (x y : A)
      → get_elem? xs i ≡ some x
      → get_elem? xs j ≡ some y
      → i ≢ j
      → w x + w y ≤ total xs
  unfolding total
  total_two [] i j x y h k n = absurd (ground arith)
  total_two (z ∷ zs) zero zero x y h k n = absurd (n refl)
  total_two (z ∷ zs) zero (suc j) x y h k n = ground (arith, total_elem zs j y k)
  total_two (z ∷ zs) (suc i) zero x y h k n = ground (arith, total_elem zs i x h)
  total_two (z ∷ zs) (suc i) (suc j) x y h k n =
      omega (arith, total_two zs i j x y h k (λ e. n (ap suc e)))

  pub total-le-length : ((a : A) → w a ≤ 1) → (xs : List A) → total xs ≤ length xs
  unfolding total
  total-le-length small [] = omega arith
  total-le-length small (x ∷ xs) = omega (arith, small x, total-le-length small xs)

  pub total-append : (l k : List A) → total (l ++ k) ≡ total l + total k
  unfolding total
  total-append [] k = omega arith
  total-append (x ∷ l) k = omega (arith, total-append l k)

  -- A total that is not 0 has an element that weighs something.
  pub total-positive :
      (xs : List A) → 0 < total xs → (i : ℕ) × (x : A) × (get_elem? xs i ≡ some x) × (0 < w x)
  unfolding total
  total-positive [] h = absurd (omega arith)
  total-positive (x ∷ xs) h = elim (zero_or_positive (w x)) [
    | inr p ↦ (0, x, refl, p)
    | inl z ↦ let (i, y, e, p) = total-positive xs (omega (arith, h, z)) in (suc i, y, e, p)
  ]
