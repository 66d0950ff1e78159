-- ===== src/RefPool.antt =====
-- cgo_ref_pool.go: every block whose address goes into a WAF object is kept referenced here.
use go_libddwaf.Base.{
  ℕ, Bool, false, List, [], ◌∷◌, ◌++◌, Text, length, replicate, ◌==◌, if◌then◌else◌,
}
use go_libddwaf.WafObject.{WafObject, zero_object, waf_string_type, waf_array_type, waf_map_type}
use go_libddwaf.Memory.{Memory, chars, objects, next_address, allocate}

-- The addresses of the strings and arrays that the two slices hold.
pub record RefPool : Type 0 where
  pub string_refs : List ℕ
  pub array_refs : List ℕ

abbrev pub no_refs : RefPool
no_refs = record { string_refs = []; array_refs = [] }

abbrev pub append : RefPool → RefPool → RefPool
append pool new = record {
  string_refs = pool.string_refs ++ new.string_refs;
  array_refs = pool.array_refs ++ new.array_refs;
}

-- The memory together with the pool that guards it.
pub record Store : Type 0 where
  pub memory : Memory
  pub refs : RefPool

-- A Go string gets its block when its header is first read.
unfoldable pub keep_string : Store → Text → Store
keep_string s str = record {
  memory = allocate (chars str) s.memory;
  refs = record s.refs { string_refs = s.refs.string_refs ++ next_address s.memory ∷ [] };
}

unfoldable pub keep_array : Store → ℕ → Store
keep_array s size = record {
  memory = allocate (objects (replicate size zero_object)) s.memory;
  refs = record s.refs { array_refs = s.refs.array_refs ++ next_address s.memory ∷ [] };
}

ends_in_nul : Text → Bool
ends_in_nul [] = false
ends_in_nul (c ∷ []) = c == 0
ends_in_nul (c ∷ d ∷ s) = ends_in_nul (d ∷ s)

-- The text that the pool keeps for a C string: not the empty one, and not one that ends in NUL.
unfoldable pub c_string : Text → Text
unfolding ends_in_nul
c_string [] = []
c_string (c ∷ s) = if ends_in_nul (c ∷ s) then c ∷ s else (c ∷ s) ++ 0 ∷ []

unfoldable pub alloc_c_string : Store → Text → ℕ × Store
unfolding c_string keep_string
alloc_c_string s str = (next_address s.memory, keep_string s (c_string str))

unfoldable pub alloc_waf_string : WafObject → Text → Store → WafObject × Store
unfolding keep_string
alloc_waf_string obj [] s = (record obj { type = waf_string_type; nb_entries = 0; value = 0 }, s)
alloc_waf_string obj (c ∷ str) s = (
  record obj {
    type = waf_string_type;
    value = next_address s.memory;
    nb_entries = length (c ∷ str);
  },
  keep_string s (c ∷ str),
)

-- The two types that `AllocWafArray` accepts: it panics on any other, and no caller passes one.
pub data Container : Type 0 where
  array_container map_container : Container

abbrev pub container_type : Container → ℕ
container_type array_container = waf_array_type
container_type map_container = waf_map_type

-- `obj.Value` is the address of the array that is returned, 0 for the nil slice.
unfoldable pub alloc_waf_array : WafObject → Container → ℕ → Store → WafObject × Store
unfolding keep_array
alloc_waf_array obj typ size s =
    if size == 0
    then (record obj { type = container_type typ; nb_entries = 0; value = 0 }, s)
    else (
      record obj { type = container_type typ; nb_entries = size; value = next_address s.memory },
      keep_array s size,
    )

unfoldable pub alloc_waf_map_key : WafObject → Text → Store → WafObject × Store
unfolding keep_string
alloc_waf_map_key obj [] s = (obj, s)
alloc_waf_map_key obj (c ∷ str) s = (
  record obj { parameter_name = next_address s.memory; parameter_name_length = length (c ∷ str) },
  keep_string s (c ∷ str),
)
