-- ===== src/Encoder/Safe/Tests.antt =====
-- encoder.go: the witnesses of the theorems under any timer, with one that expires on the way.
use go_libddwaf.Base.{◌≡◌, refl, true, false, [], leb, length, bytes}
use go_libddwaf.Base.Int.{pos}
use go_libddwaf.WafObject.{WafObject, zero_object}
use go_libddwaf.Memory.{load_object, store_object}
use go_libddwaf.Memory.Growth.{Grows}
use go_libddwaf.RefPool.{no_refs, alloc_waf_string, alloc_waf_array, alloc_waf_map_key}
use go_libddwaf.GoValue.{GoValue, no_items, item, no_entries, entry}
use go_libddwaf.Truncation.{add_truncation}
use go_libddwaf.Encoder.{Setting, State, resolve_pointer, encode_string, encode_map_key_from_string}
use go_libddwaf.Encoder.Containers.{array_loop, encode_map_key}
use go_libddwaf.Encoder.Encode.{encode}
use go_libddwaf.Encoder.Correct.{memory_of}
use go_libddwaf.Decoder.Objects.{decode_object}
use go_libddwaf.Encoder.Tagged.{Tagged, encode-Tagged}
use go_libddwaf.Encoder.Safe.{Safe, Retained}
use go_libddwaf.Encoder.Safe.Reading.{IsRead}
use go_libddwaf.Encoder.Safe.Values.{encode-Safe, encode-Retained, decode-encode-IsRead}

-- The timer runs out at its fourth question, amid the second list.
abbrev hurried : Setting
hurried = record {
  heap = λ a. GoValue.pointer a;
  expired = leb 3;
  stray = 0;
  container_max_size = 3;
  string_max_size = 4;
  object_max_depth = 3;
}

abbrev empty_state : State
empty_state = record { store = record { memory = []; refs = no_refs }; truncations = []; polls = 0 }

abbrev pair : GoValue → GoValue
pair v =
    GoValue.sequence (record { elem_uint8 = false; is_byte_slice = false })
      (item (GoValue.int (pos 7)) (item v no_items))

abbrev sample : GoValue
sample =
    GoValue.dict (entry (GoValue.string (bytes "key")) (pair (pair (GoValue.bool true))) no_entries)

-- The map, its array and an object left empty were allocated before the timer ran out.
sample_blocks : length (memory_of (encode hurried 3 sample zero_object empty_state).2) ≡ 3
unfolding encode encode_map_key resolve_pointer encode_string encode_map_key_from_string
    alloc_waf_string alloc_waf_array alloc_waf_map_key load_object store_object add_truncation
    array_loop
sample_blocks = refl

encode-Safe_example :
    let (err, o, s) = encode hurried 3 sample zero_object empty_state in
    Safe hurried 3 0 (memory_of s) o × Grows [] (memory_of s)
encode-Safe_example = encode-Safe hurried 3 sample empty_state

encode-Retained_example : Retained 0 (encode hurried 3 sample zero_object empty_state).2.store
encode-Retained_example = encode-Retained hurried 3 sample zero_object empty_state

decode-encode-IsRead_example :
    let (err, o, s) = encode hurried 3 sample zero_object empty_state in
    IsRead (decode_object (memory_of s) 4 o)
decode-encode-IsRead_example = decode-encode-IsRead hurried 3 sample empty_state

abbrev keyed : WafObject
keyed = record zero_object { parameter_name = 1; parameter_name_length = 3 }

encode-Tagged_example :
    let (err, o, s) = encode hurried 3 sample keyed empty_state in
    Tagged hurried 1 sample err keyed o
unfolding resolve_pointer
encode-Tagged_example = encode-Tagged hurried 3 sample keyed empty_state
