-- ===== src/Bindings/Strings/Laws.antt =====
-- internal/bindings/waf_dl.go: the strings that `WafKnownAddresses` returns.
use go_libddwaf.Base.{
  ℕ, zero, suc, ◌+◌, ◌%◌, ◌^◌, ◌<◌, ◌≡◌, refl, ap, subst, ◌∙◌, false, some, List, [], ◌∷◌, arith,
  Text, ◌==◌, length, All,
}
use mathlib.Core.Path.{ap₂}
use go_libddwaf.Bindings.Strings.{
  Bytes, add_pointer, nul_from, slice, gostring, pointer_at, addresses_from, waf_known_addresses,
}

-- The bytes of a text with the NUL that ends it, none of them another NUL.
abbrev pub StringAt : Bytes → ℕ → Text → Type 0
StringAt m ptr [] = (ptr < 2 ^ 64) × (m ptr ≡ 0)
StringAt m ptr (c ∷ s) = (m ptr ≡ c) × ((c == 0) ≡ false) × StringAt m (suc ptr) s

-- `n` pointers from the element at `i` on lead to the texts.
abbrev pub TableAt : Bytes → ℕ → ℕ → List Text → Type 0
TableAt m array i [] = Unit {0}
TableAt m array i (s ∷ texts) =
    ((pointer_at m array i == 0) ≡ false)
    × StringAt m (pointer_at m array i) s
    × TableAt m array (suc i) texts

module _ (m : Bytes) where
  StringAt-lt : (ptr : ℕ) (s : Text) → StringAt m ptr s → ptr + length s < 2 ^ 64
  StringAt-lt ptr [] (b, e) = omega (arith, b)
  StringAt-lt ptr (c ∷ s) (e, n, h) = omega (arith, StringAt-lt (suc ptr) s h)

  read : (ptr i c : ℕ) → ptr + i < 2 ^ 64 → m (ptr + i) ≡ c → m (add_pointer ptr i) ≡ c
  read ptr i c b e = ap m (omega arith) ∙ e

  pub nul_from-StringAt :
      (fuel ptr i : ℕ) (s : Text)
      → length s < fuel
      → StringAt m (ptr + i) s
      → nul_from m fuel ptr i ≡ some (i + length s)
  unfolding nul_from
  nul_from-StringAt zero ptr i s b h = absurd (omega arith)
  nul_from-StringAt (suc fuel) ptr i [] b (l, e) = rw (read ptr i 0 l e) (ap some (omega arith))
  nul_from-StringAt (suc fuel) ptr i (c ∷ s) b (e, n, h) =
      let l = StringAt-lt (suc (ptr + i)) s h in
      rw (read ptr i c (omega (arith, l)) e, n)
        (nul_from-StringAt fuel ptr (suc i) s (omega arith)
            (subst (λ k. StringAt m k s) (omega arith) h)
          ∙ ap some (omega arith))

  pub slice-StringAt :
      (ptr i : ℕ) (s : Text) → StringAt m (ptr + i) s → slice m ptr i (length s) ≡ s
  unfolding slice
  slice-StringAt ptr i [] h = refl
  slice-StringAt ptr i (c ∷ s) (e, n, h) =
      let l = StringAt-lt (suc (ptr + i)) s h in
      ap₂ ◌∷◌ (read ptr i c (omega (arith, l)) e)
        (slice-StringAt ptr (suc i) s (subst (λ k. StringAt m k s) (omega arith) h))

  -- A pointer that is not nil, to a text that ends within `fuel` bytes.
  pub gostring-StringAt :
      (fuel ptr : ℕ) (s : Text)
      → length s < fuel
      → (ptr == 0) ≡ false
      → StringAt m ptr s
      → gostring m fuel ptr ≡ some s
  unfolding gostring
  gostring-StringAt fuel ptr s b n h =
      let h0 : StringAt m (ptr + 0) s = subst (λ k. StringAt m k s) (omega arith) h in
      let found : nul_from m fuel ptr 0 ≡ some (length s) =
        nul_from-StringAt fuel ptr 0 s b h0 ∙ ap some (omega arith) in
      rw (n, found) (ap some (slice-StringAt ptr 0 s h0))

  addresses_from-TableAt :
      (fuel array i : ℕ) (texts : List Text)
      → All (λ s. length s < fuel) texts
      → TableAt m array i texts
      → addresses_from m fuel array i (length texts) ≡ some texts
  unfolding addresses_from
  addresses_from-TableAt fuel array i [] b h = refl
  addresses_from-TableAt fuel array i (s ∷ texts) (b, bs) (n, h, hs) =
      rw
        (
          gostring-StringAt fuel (pointer_at m array i) s b n h,
          addresses_from-TableAt fuel array (suc i) texts bs hs,
        )
        refl

-- If ddwaf_known_addresses returns an array that is not nil, with its length, fewer than 2^32, and every
-- pointer in the array leads to a text that ends in a NUL, then `WafKnownAddresses` returns these texts in
-- their order; it looks at no more than `fuel` bytes of a text that is shorter than `fuel`.
pub waf_known_addresses-TableAt :
    (m : Bytes) (fuel : ℕ) (known_addresses : ℕ → ℕ × ℕ) (handle array : ℕ) (texts : List Text)
    → known_addresses handle ≡ (array, length texts)
    → (array == 0) ≡ false
    → length texts < 2 ^ 32
    → All (λ s. length s < fuel) texts
    → TableAt m array 0 texts
    → waf_known_addresses m fuel known_addresses handle ≡ some texts
unfolding waf_known_addresses
waf_known_addresses-TableAt m fuel known_addresses handle array texts e n b bs h =
    let count : length texts % 2 ^ 32 ≡ length texts = omega arith in
    rw (e, waf_known_addresses, n, count) (addresses_from-TableAt m fuel array 0 texts bs h)
