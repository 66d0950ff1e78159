-- ===== src/Bindings/Strings/Copies.antt =====
-- internal/unsafe/utils.go: a Go string that goes to C by `Cstring` and comes back by `Gostring`.
use go_libddwaf.Base.{
  ℕ, suc, ◌^◌, ◌≤◌, ◌<◌, ◌≡◌, false, some, [], ◌∷◌, arith, Text, ◌==◌, if◌then◌else◌, length,
  Bool-cases, inl, inr,
}
use go_libddwaf.Bindings.Strings.{Bytes, gostring, cstring}
use go_libddwaf.Bindings.Strings.Laws.{StringAt, gostring-StringAt}

-- These bytes lie from `ptr` on.
abbrev pub BytesAt : Bytes → ℕ → Text → Type 0
BytesAt m ptr [] = Unit {0}
BytesAt m ptr (c ∷ s) = (ptr < 2 ^ 64) × (m ptr ≡ c) × BytesAt m (suc ptr) s

-- What comes before the first NUL.
abbrev pub until_nul : Text → Text
until_nul [] = []
until_nul (c ∷ s) = let rest = until_nul s in if c == 0 then [] else c ∷ rest

until_nul_le : (s : Text) → length (until_nul s) ≤ length s
until_nul_le [] = omega arith
until_nul_le (c ∷ s) = ground (arith, until_nul_le s)

BytesAt-StringAt :
    (m : Bytes) (ptr : ℕ) (name : Text)
    → BytesAt m ptr (cstring name)
    → StringAt m ptr (until_nul name)
unfolding cstring
BytesAt-StringAt m ptr [] (b, e, h) = (b, e)
BytesAt-StringAt m ptr (c ∷ name) (b, e, h) = elim (Bool-cases (c == 0)) [
  | inl z ↦ rw z (b, ground (arith, e, z))
  | inr n ↦ rw n (e, n, BytesAt-StringAt m (suc ptr) name h)
]

-- Where the bytes that `Cstring` has made of a name lie at a pointer that is not nil, `Gostring` returns the
-- name up to its first NUL, the whole name if it has none, after at most as many bytes as were made.
pub gostring-cstring :
    (m : Bytes) (ptr : ℕ) (name : Text)
    → (ptr == 0) ≡ false
    → BytesAt m ptr (cstring name)
    → gostring m (suc (length name)) ptr ≡ some (until_nul name)
gostring-cstring m ptr name n h =
    gostring-StringAt m (suc (length name)) ptr (until_nul name) (omega (arith, until_nul_le name))
      n (BytesAt-StringAt m ptr name h)
