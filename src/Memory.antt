-- ===== src/Memory.antt =====
-- The memory that Go and libddwaf share: blocks that are allocated and never move. Block number `k`
-- lies at address `k + 1`, and 0 is the nil pointer. Byte offsets are left out: what
-- internal/unsafe/utils.go reaches from a pointer is the element of its block at an index.

pub mod Growth
use go_libddwaf.Base.{
  ℕ, zero, suc, ◌+◌, Option, none, some, List, [], ◌∷◌, ◌++◌, Text, length, get_elem?, set, take,
  leb, if◌then◌else◌,
}
use go_libddwaf.WafObject.{WafObject, zero_object}

pub data Block : Type 0 where
  chars : Text → Block
  objects : List WafObject → Block

abbrev pub Memory : Type 0
Memory = List Block

-- The address that the next allocation gets.
abbrev pub next_address : Memory → ℕ
next_address m = suc (length m)

abbrev pub allocate : Block → Memory → Memory
allocate b m = m ++ b ∷ []

unfoldable pub block_at : Memory → ℕ → Option Block
block_at m zero = none
block_at m (suc k) = get_elem? m k

abbrev as_objects : Option Block → List WafObject
as_objects (some (objects os)) = os
as_objects b = []

-- The elements that lie at an address, none if no array lies there.
unfoldable pub objects_at : Memory → ℕ → List WafObject
unfolding block_at
objects_at m a = as_objects (block_at m a)

-- `&objArray[i]`, read and written.
abbrev object_or : Option WafObject → WafObject
object_or none = zero_object
object_or (some o) = o

unfoldable pub load_object : Memory → ℕ → ℕ → WafObject
unfolding objects_at
load_object m a i = object_or (get_elem? (objects_at m a) i)

abbrev store_block : Memory → ℕ → Block → Memory
store_block m zero b = m
store_block m (suc k) b = set m k b

unfoldable pub store_object : Memory → ℕ → ℕ → WafObject → Memory
unfolding objects_at
store_object m a i o = store_block m a (objects (set (objects_at m a) i o))
