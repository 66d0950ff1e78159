-- ===== src/Decoder.antt =====
-- decoder.go: reading WAF objects out of the shared memory.
pub mod Objects
pub mod Reports
use go_libddwaf.Base.{
  ℕ, zero, suc, ◌+◌, Bool, true, false, Option, none, some, List, [], ◌∷◌, ◌++◌, Text, length,
  get_elem?, take, leb, ◌==◌, if◌then◌else◌,
}
use go_libddwaf.Errors.{Error}
use go_libddwaf.WafObject.{WafObject}
use go_libddwaf.Memory.{Block, chars, objects, Memory, block_at}

-- `fault` is a read where no such object lies: a nil pointer, or an address or index out of range.
-- `unfinished` is a recursion deeper than the fuel.
pub data Decoded {ℓ} (A : Type ℓ) : Type ℓ where
  ok : A → Decoded A
  err : Error → Decoded A
  fault unfinished : Decoded A

infixl 5 ◌>>=◌
abbrev pub ◌>>=◌ {ℓ κ} : {A : Type ℓ} {B : Type κ} → Decoded A → (A → Decoded B) → Decoded B
ok a >>= f = f a
err e >>= f = err e
fault >>= f = fault
unfinished >>= f = unfinished

abbrev or_fault {ℓ} : {A : Type ℓ} → Option A → Decoded A
or_fault none = fault
or_fault (some a) = ok a

abbrev object_in : Option Block → ℕ → Decoded WafObject
object_in (some (objects os)) i = or_fault (get_elem? os i)
object_in b i = fault

-- CastWithOffset[WafObject](ptr, i)
unfoldable pub cast_with_offset : Memory → ℕ → ℕ → Decoded WafObject
unfolding block_at
cast_with_offset m ptr i = object_in (block_at m ptr) i

abbrev text_in : Option Block → ℕ → Decoded Text
text_in (some (chars s)) size = if leb size (length s) then ok (take size s) else fault
text_in b size = fault

-- GostringSized(Cast[byte](ptr), size): nil is the empty string.
unfoldable pub gostring_sized : Memory → ℕ → ℕ → Decoded Text
unfolding block_at
gostring_sized m zero size = ok []
gostring_sized m (suc k) size = text_in (block_at m (suc k)) size

-- The key of a map entry.
abbrev pub parameter_of : Memory → WafObject → Decoded Text
parameter_of m o = gostring_sized m o.parameter_name o.parameter_name_length

-- The text of a string object.
abbrev pub string_of : Memory → WafObject → Decoded Text
string_of m o = gostring_sized m o.value o.nb_entries
