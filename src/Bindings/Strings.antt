-- ===== src/Bindings/Strings.antt =====
-- internal/unsafe/utils.go and internal/bindings/waf_dl.go: what libddwaf returns as C strings. The
-- memory is that of C here, byte by byte: a function of the address.
pub mod Laws
pub mod Copies
mod Tests
use go_libddwaf.Base.{
  ℕ, zero, suc, ◌+◌, ◌*◌, ◌%◌, ◌^◌, Option, none, some, List, [], ◌∷◌, ◌++◌, Text, ◌==◌,
  if◌then◌else◌,
}

abbrev pub Bytes : Type 0
Bytes = ℕ → ℕ

-- unsafe.Add
abbrev pub add_pointer : ℕ → ℕ → ℕ
add_pointer ptr offset = (ptr + offset) % 2 ^ 64

-- Cstring: the bytes that it allocates.
unfoldable pub cstring : Text → Text
cstring name = name ++ 0 ∷ []

infixl 5 ◌>>=◌
abbrev ◌>>=◌ : {A B : Type 0} → Option A → (A → Option B) → Option B
none >>= f = none
some a >>= f = f a

module _ (m : Bytes) where
  -- The loop of `Gostring` from `length` on: the number of bytes it may look at is the fuel, and `none`
  -- is a search that goes on.
  unfoldable pub nul_from : ℕ → ℕ → ℕ → Option ℕ
  nul_from zero ptr length = none
  nul_from (suc fuel) ptr length =
      let rest = nul_from fuel ptr (suc length) in
      if m (add_pointer ptr length) == 0 then some length else rest

  -- `string(unsafe.Slice(ptr, length))`, from the byte at `i` on.
  unfoldable pub slice : ℕ → ℕ → ℕ → Text
  slice ptr i zero = []
  slice ptr i (suc length) = m (add_pointer ptr i) ∷ slice ptr (suc i) length

  -- Gostring
  unfoldable pub gostring : ℕ → ℕ → Option Text
  unfolding nul_from slice
  gostring fuel ptr =
      let found = nul_from fuel ptr 0 in
      if ptr == 0 then some [] else (do length ← found; some (slice ptr 0 length))

  -- A word of 8 bytes, the lowest first.
  unfoldable pub word_at : ℕ → ℕ → ℕ
  word_at zero ptr = 0
  word_at (suc n) ptr = m ptr + 256 * word_at n (add_pointer ptr 1)

  -- `*unsafe.CastWithOffset[*byte](array, i)`
  unfoldable pub pointer_at : ℕ → ℕ → ℕ
  unfolding word_at
  pointer_at array i = word_at 8 (add_pointer array (i * 8))

  -- The loop of `WafKnownAddresses`: `n` elements from the one at `i` on.
  unfoldable pub addresses_from : ℕ → ℕ → ℕ → ℕ → Option (List Text)
  unfolding gostring pointer_at
  addresses_from fuel array i zero = some []
  addresses_from fuel array i (suc n) = do
    s ← gostring fuel (pointer_at array i)
    rest ← addresses_from fuel array (suc i) n
    some (s ∷ rest)

  -- WafKnownAddresses, with what ddwaf_known_addresses returns and puts into `nbAddresses`, a uint32.
  -- The nil slice is empty.
  unfoldable pub waf_known_addresses : ℕ → (ℕ → ℕ × ℕ) → ℕ → Option (List Text)
  unfolding addresses_from
  waf_known_addresses fuel known_addresses handle =
      let (array, nb_addresses) = known_addresses handle in
      let addresses = addresses_from fuel array 0 (nb_addresses % 2 ^ 32) in
      if array == 0 then some [] else addresses
