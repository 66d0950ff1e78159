-- ===== src/Encoder/Encode.antt =====
-- encoder.go: `encode`.
use go_libddwaf.Base.{ℕ, zero, suc, none, some, if◌then◌else◌}
use go_libddwaf.Base.Int.{negsuc}
use go_libddwaf.Errors.{timeout, unsupported_value, too_many_indirections, max_depth_exceeded}
use go_libddwaf.WafObject.{
  WafObject, waf_nil_type, waf_bool_type, waf_int_type, waf_uint_type, waf_float_type,
}
use go_libddwaf.GoValue.{
  GoValue, invalid, nil, bool, int, uint, float, string, pointer, interface, sequence, dict, struct,
}
use go_libddwaf.Truncation.{object_too_deep}
use go_libddwaf.Encoder.{
  Setting, State, encode_native, word_of, bool_word, exhausted, truncated, resolve_pointer,
  indirection_limit, encode_string,
}
use go_libddwaf.Encoder.Containers.{Encoded, EncodeValue, encode_array, encode_map, encode_struct}

-- The placeholder -1 that `measureObjectDepth` replaces.
abbrev pub too_deep : WafObject → State → Encoded
too_deep obj s = (some max_depth_exceeded, obj, truncated object_too_deep (negsuc 0) s)

abbrev pub done : WafObject × State → Encoded
done (obj, s) = (none, obj, s)

-- The `switch` down to the cases that need no depth; all that follow go to `deeper`.
unfoldable pub encode_resolved : Setting → EncodeValue → GoValue → WafObject → State → Encoded
encode_resolved g deeper (pointer a) obj s = (some too_many_indirections, obj, s)
encode_resolved g deeper (interface v) obj s = (some too_many_indirections, obj, s)
encode_resolved g deeper invalid obj s = (some unsupported_value, obj, s)
encode_resolved g deeper (nil k) obj s = (none, encode_native 0 waf_nil_type obj, s)
encode_resolved g deeper (bool b) obj s =
    (none, encode_native (bool_word g.stray b) waf_bool_type obj, s)
encode_resolved g deeper (int z) obj s = (none, encode_native (word_of z) waf_int_type obj, s)
encode_resolved g deeper (uint n) obj s = (none, encode_native n waf_uint_type obj, s)
encode_resolved g deeper (float n) obj s = (none, encode_native n waf_float_type obj, s)
encode_resolved g deeper (string str) obj s = done (encode_string g str obj s)
encode_resolved g deeper (sequence t items) obj s =
    if t.elem_uint8 then (none, obj, s) else deeper (sequence t items) obj s
encode_resolved g deeper v obj s = deeper v obj s

-- The cases below `depth <= 0`, with the function for the elements.
unfoldable pub encode_container : Setting → EncodeValue → EncodeValue
unfolding encode_array encode_map encode_struct
encode_container g enc (sequence t items) obj s = done (encode_array g enc items obj s)
encode_container g enc (dict entries) obj s = done (encode_map g enc entries obj s)
encode_container g enc (struct fields) obj s = done (encode_struct g enc fields obj s)
encode_container g enc v obj s = (some unsupported_value, obj, s)

abbrev pub with_timer : Setting → EncodeValue → EncodeValue
with_timer g enc v obj s =
    let (stop, t) = exhausted g s in
    if stop then (some timeout, obj, t) else enc (resolve_pointer g.heap indirection_limit v) obj t

-- The number is `depth`, which falls by 1 on the way into a container.
unfoldable pub encode : Setting → ℕ → EncodeValue
unfolding encode_resolved encode_container
encode g zero = with_timer g (encode_resolved g (λ v. too_deep))
encode g (suc depth) = with_timer g (encode_resolved g (encode_container g (encode g depth)))
