-- ===== src/Encoder/Tests.antt =====
-- encoder.go: runs at concrete values, and the witnesses of the encoder's theorems.
use go_libddwaf.GoValue.{FieldType}
use go_libddwaf.Truncation.{sizes_of, sizes_of-add_truncation}
use go_libddwaf.Encoder.{get_field_name_from_type}
use go_libddwaf.Encoder.Names.{field_name-options}
use go_libddwaf.Base.{◌≡◌, refl, true, false, none, some, [], ◌∷◌, bytes, Text}
use go_libddwaf.Base.Int.{pos, negsuc, wrap64}
use go_libddwaf.WafObject.{zero_object}
use go_libddwaf.Memory.{load_object, store_object}
use go_libddwaf.RefPool.{no_refs, alloc_waf_string, alloc_waf_array, alloc_waf_map_key}
use go_libddwaf.GoValue.{GoValue, no_items, item, no_entries, entry, nil_map}
use go_libddwaf.Truncation.{add_truncation, container_too_large, string_too_long}
use go_libddwaf.Encoder.{
  Setting, State, resolve_pointer, clip, encode_string, encode_map_key_from_string,
}
use go_libddwaf.Encoder.Containers.{array_loop, encode_map_key}
use go_libddwaf.Encoder.Encode.{encode}
use go_libddwaf.Decoder.Objects.{decode_object}
use go_libddwaf.Tree.{Tree, read, no_branches, branch}
use go_libddwaf.Tree.Spec.{tree_of}
use go_libddwaf.Encoder.Roundtrip.{encode_decode, encode-Holds, encode_refuses}

abbrev small : Setting
small = record {
  heap = λ a. GoValue.pointer a;
  expired = λ k. false;
  stray = 5;
  container_max_size = 2;
  string_max_size = 3;
  object_max_depth = 2;
}

abbrev empty_state : State
empty_state = record { store = record { memory = []; refs = no_refs }; truncations = []; polls = 0 }

-- map[string]any{"k": []any{"long", nil, -1, true}, "fn": func(){}}
abbrev sample : GoValue
sample = GoValue.dict (
    entry (GoValue.string (bytes "k"))
      (GoValue.sequence (record { elem_uint8 = false; is_byte_slice = false })
        (item (GoValue.string (bytes "long")) (
          item (GoValue.interface (GoValue.nil nil_map))
            (item (GoValue.int (negsuc 0)) (item (GoValue.bool true) no_items)))))
      (entry (GoValue.string (bytes "fn")) GoValue.opaque no_entries))

abbrev sample_tree : Tree
sample_tree = Tree.map (
    branch (bytes "k")
      (Tree.array
        (branch [] (Tree.string (bytes "lon")) (branch [] (Tree.int (negsuc 0)) no_branches)))
      (branch (bytes "fn") Tree.hole no_branches))

sample-tree_of : tree_of small 2 sample ≡ some sample_tree
unfolding tree_of resolve_pointer clip wrap64
sample-tree_of = refl

sample_truncations :
    (encode small 2 sample zero_object empty_state).2.truncations
    ≡ (string_too_long, pos 4 ∷ []) ∷ (container_too_large, pos 4 ∷ []) ∷ []
unfolding encode encode_map_key resolve_pointer encode_string encode_map_key_from_string
    alloc_waf_string alloc_waf_array alloc_waf_map_key load_object store_object add_truncation
    array_loop
sample_truncations = refl

encode_decode_example :
    decode_object
      (encode small 2 sample zero_object empty_state).2.store.memory
      3
      (encode small 2 sample zero_object empty_state).1
    ≡ read sample_tree
encode_decode_example =
    (encode_decode small 2 sample empty_state sample_tree (λ k. refl) sample-tree_of).1

encode-Holds_example : (encode small 2 sample zero_object empty_state).0 ≡ none
encode-Holds_example =
    (encode-Holds small 2 sample empty_state sample_tree (λ k. refl) sample-tree_of).0

-- A pointer to itself.
loop-tree_of : tree_of small 2 (GoValue.pointer 7) ≡ none
unfolding tree_of resolve_pointer
loop-tree_of = refl

encode_refuses_example :
    (encode small 2 (GoValue.pointer 7) zero_object empty_state).1 ≡ zero_object
encode_refuses_example =
    (encode_refuses small 2 (GoValue.pointer 7) empty_state (λ k. refl) loop-tree_of).1

abbrev tagged : Text → FieldType
tagged json = record { name = bytes "Name"; json = some json; ddwaf = none }

field_name-options_example :
    get_field_name_from_type (tagged (bytes "id,omitempty")) ≡ some (bytes "id")
field_name-options_example =
    field_name-options (tagged (bytes "id,omitempty")) (bytes "id") (bytes "omitempty") refl refl
      (refl, (refl, tt))

truncation_added :
    sizes_of string_too_long
      (add_truncation string_too_long (pos 5) ((string_too_long, pos 4 ∷ []) ∷ []))
    ≡ pos 4 ∷ pos 5 ∷ []
unfolding sizes_of
truncation_added =
    sizes_of-add_truncation string_too_long string_too_long (pos 5)
      ((string_too_long, pos 4 ∷ []) ∷ [])
