-- ===== src/Bindings/Strings/Tests.antt =====
-- internal/bindings/waf_dl.go: two addresses in a memory, and the witnesses of the theorems.
use go_libddwaf.Base.{
  ℕ, ◌-◌, ◌≡◌, refl, Option, none, some, [], ◌∷◌, ◌++◌, arith, Text, bytes, get_elem?, leb,
  if◌then◌else◌,
}
use go_libddwaf.Bindings.Strings.{Bytes, gostring, cstring, pointer_at, waf_known_addresses}
use go_libddwaf.Bindings.Strings.Laws.{waf_known_addresses-TableAt}
use go_libddwaf.Bindings.Strings.Copies.{until_nul, gostring-cstring}

abbrev or_zero : Option ℕ → ℕ
or_zero none = 0
or_zero (some c) = c

-- Bytes that lie at an address; the others are 0.
abbrev placed : ℕ → Text → Bytes
placed base s a = if leb base a then or_zero (get_elem? s (a - base)) else 0

-- At 16 two pointers, to 32 and 35.
abbrev two_names : Bytes
two_names = placed 16 (
    32
    ∷ 0
    ∷ 0
    ∷ 0
    ∷ 0
    ∷ 0
    ∷ 0
    ∷ 0
    ∷ 35
    ∷ 0
    ∷ 0
    ∷ 0
    ∷ 0
    ∷ 0
    ∷ 0
    ∷ 0
    ∷ (bytes "ab" ++ 0 ∷ (bytes "c" ++ 0 ∷ [])))

abbrev two_answer : ℕ → ℕ × ℕ
two_answer handle = (16, 2)

two_known : waf_known_addresses two_names 4 two_answer 7 ≡ some (bytes "ab" ∷ bytes "c" ∷ [])
unfolding waf_known_addresses
two_known = refl

none_known : waf_known_addresses two_names 4 (λ h. (0, 2)) 7 ≡ some []
unfolding waf_known_addresses
none_known = refl

-- No NUL within the fuel.
unended : gostring (λ a. 1) 5 32 ≡ none
unfolding gostring
unended = refl

waf_known_addresses-TableAt_example :
    waf_known_addresses two_names 4 two_answer 7 ≡ some (bytes "ab" ∷ bytes "c" ∷ [])
unfolding pointer_at
waf_known_addresses-TableAt_example =
    waf_known_addresses-TableAt two_names 4 two_answer 7 16 (bytes "ab" ∷ bytes "c" ∷ []) refl refl
      (omega arith) (omega arith, (omega arith, tt))
      (
        refl,
        (refl, refl, (refl, refl, (omega arith, refl))),
        (refl, (refl, refl, (omega arith, refl)), tt),
      )

gostring-cstring_example :
    gostring (placed 32 (cstring (97 ∷ 0 ∷ 98 ∷ []))) 4 32 ≡ some (until_nul (97 ∷ 0 ∷ 98 ∷ []))
unfolding cstring
gostring-cstring_example =
    gostring-cstring (placed 32 (cstring (97 ∷ 0 ∷ 98 ∷ []))) 32 (97 ∷ 0 ∷ 98 ∷ []) refl
      (omega arith, refl, (omega arith, refl, (omega arith, refl, (omega arith, refl, tt))))
