-- ===== src/Tree/Tests.antt =====
-- decoder.go: a run of `decodeObject` on an object that represents a tree.
use go_libddwaf.Base.{◌≡◌, refl, inr, [], ◌∷◌, bytes, arith}
use go_libddwaf.WafObject.{WafObject, zero_object, waf_string_type, waf_array_type}
use go_libddwaf.Memory.{Memory, chars, objects}
use go_libddwaf.Decoder.{ok}
use go_libddwaf.Decoder.Objects.{Any, any, no_anys, decode_object}
use go_libddwaf.Tree.{Tree, branch, no_branches, read}
use go_libddwaf.Tree.Holds.{Holds}
use go_libddwaf.Tree.ReadBack.{decode_object-Holds}

abbrev text_object : WafObject
text_object = record zero_object { type = waf_string_type; value = 1; nb_entries = 2 }

-- ["hi", ""]
abbrev list_object : WafObject
list_object = record zero_object { type = waf_array_type; value = 2; nb_entries = 2 }

abbrev list_memory : Memory
list_memory =
    chars (bytes "hi")
    ∷ objects (text_object ∷ record zero_object { type = waf_string_type } ∷ [])
    ∷ []

abbrev list_tree : Tree
list_tree =
    Tree.array (branch [] (Tree.string (bytes "hi")) (branch [] (Tree.string []) no_branches))

list-Holds : Holds 0 list_memory list_object list_tree
list-Holds = (
  text_object ∷ record zero_object { type = waf_string_type } ∷ [],
  refl,
  refl,
  inr (1, refl, omega arith, refl),
  (refl, (refl, (0, refl, omega arith, refl, refl)), (refl, (refl, refl), tt)),
)

decode_object-Holds_example :
    decode_object list_memory 2 list_object
    ≡ ok (Any.array (any (Any.string (bytes "hi")) (any (Any.string []) no_anys)))
unfolding read
decode_object-Holds_example =
    decode_object-Holds 0 list_memory 2 list_tree list_object (omega arith) list-Holds
