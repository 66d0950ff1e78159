-- ===== src/Encoder/Depth/Tests.antt =====
-- encoder.go: runs of `Encode` and `depthOf`, and the witnesses of their theorems.
use go_libddwaf.Base.{
  ℕ, zero, suc, ◌≡◌, refl, ◌+◌, ◌||◌, not, Option, List, Bool, true, false, none, some, [], ◌∷◌,
  arith, leb,
}
use go_libddwaf.Base.Int.{ℤ, pos, negsuc}
use go_libddwaf.Memory.{load_object, store_object}
use go_libddwaf.RefPool.{no_refs, alloc_waf_string, alloc_waf_array, alloc_waf_map_key}
use go_libddwaf.GoValue.{GoValue, GoHeap, no_items, item}
use go_libddwaf.Truncation.{add_truncation, object_too_deep, sizes_of}
use go_libddwaf.Encoder.{Setting, State, resolve_pointer, encode_string, encode_map_key_from_string}
use go_libddwaf.Encoder.Containers.{array_loop, encode_map_key}
use go_libddwaf.Encoder.Encode.{encode}
use go_libddwaf.Encoder.Depth.{depth_of, measured, encode_value}
use go_libddwaf.Encoder.Depth.Ends.{Ends, depth_of-Ends}
use go_libddwaf.Encoder.Depth.Exact.{depth_of_exact}
use go_libddwaf.Encoder.Depth.Children.{nests}
use go_libddwaf.Encoder.Depth.Whole.{DepthReported, encode_value-Reported}

abbrev slice : GoValue → GoValue
slice v =
    GoValue.sequence (record { elem_uint8 = false; is_byte_slice = false })
      (item v (item (GoValue.int (pos 1)) no_items))

-- Three levels, the inner one behind a pointer.
abbrev nested : GoValue
nested = slice (slice (GoValue.pointer 0))

-- Address 0 holds a slice of ints, every other address a slice that contains the address.
abbrev heap : GoHeap
heap zero = slice (GoValue.bool true)
heap (suc a) = slice (GoValue.pointer (suc a))

abbrev never_done : ℕ → Bool
never_done k = leb 40 k

abbrev shallow : Setting
shallow = record {
  heap = heap;
  expired = λ k. false;
  stray = 0;
  container_max_size = 4;
  string_max_size = 8;
  object_max_depth = 1;
}

abbrev empty_state : State
empty_state = record { store = record { memory = []; refs = no_refs }; truncations = []; polls = 0 }

measured-nested : depth_of heap never_done 5 nested 0 ≡ measured 3 false 7
unfolding depth_of resolve_pointer
measured-nested = refl

-- The context is done at the fourth question.
measured_cycle : depth_of heap (leb 4) 9 (GoValue.pointer 1) 0 ≡ measured 4 true 5
unfolding depth_of resolve_pointer
measured_cycle = refl

depth_of-Ends_example : Ends 1 (depth_of heap (leb 4) 5 (GoValue.pointer 1) 0)
depth_of-Ends_example =
    depth_of-Ends heap (leb 4) 4 4 (GoValue.pointer 1) 0 (λ k b. ground arith) (omega arith)

depth_of_exact_example :
    (nests heap 3 nested ≡ true) × ((false || not (nests heap (4 + 0) nested)) ≡ true)
depth_of_exact_example =
    depth_of_exact heap never_done 5 nested 0 (record { depth = 3; stopped = false; asked = 7 }) 0
      measured-nested

encode_value-Reported_example :
    DepthReported heap nested (encode_value shallow never_done 41 nested empty_state).2
encode_value-Reported_example =
    encode_value-Reported shallow never_done 40 40 nested empty_state refl (λ k b. ground arith)
      (omega arith)

abbrev depths : Option State → List ℤ
depths none = []
depths (some s) = sizes_of object_too_deep s.truncations

reported_depth : depths (encode_value shallow never_done 41 nested empty_state).2 ≡ pos 3 ∷ []
unfolding sizes_of encode_value encode encode_map_key resolve_pointer encode_string
    encode_map_key_from_string alloc_waf_string alloc_waf_array alloc_waf_map_key load_object
    store_object add_truncation array_loop depth_of
reported_depth = refl

-- The timer that runs out at question `n`.
abbrev expiring : ℕ → Setting
expiring n = record shallow { expired = leb n }

-- The object is too deep, and the timer has run out when its depth is to be measured: -1 is left.
placeholder_left :
    depths (encode_value (expiring 4) never_done 41 nested empty_state).2 ≡ negsuc 0 ∷ []
unfolding sizes_of encode_value encode encode_map_key resolve_pointer encode_string
    encode_map_key_from_string alloc_waf_string alloc_waf_array alloc_waf_map_key load_object
    store_object add_truncation array_loop depth_of
placeholder_left = refl
