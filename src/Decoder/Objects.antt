-- ===== src/Decoder/Objects.antt =====
-- decoder.go: `decodeObject`, `decodeArray` and `decodeMap`.
use go_libddwaf.Base.{
  ℕ, zero, suc, ◌%◌, ◌^◌, ◌-◌, Bool, not, Text, text_eq, ltb, ◌==◌, if◌then◌else◌,
}
use go_libddwaf.Base.Int.{ℤ, pos, negsuc}
use go_libddwaf.Errors.{unsupported_value, invalid_object_type}
use go_libddwaf.WafObject.{
  WafObject, waf_map_type, waf_array_type, waf_string_type, waf_int_type, waf_uint_type,
  waf_float_type, waf_bool_type, waf_nil_type, is_nil, is_array, is_map,
}
use go_libddwaf.Memory.{Memory}
use go_libddwaf.Decoder.{
  Decoded, ok, err, unfinished, ◌>>=◌, cast_with_offset, parameter_of, string_of,
}

-- A Go `any` as the decoder builds it: `float` is a bit pattern, `dict` a `map[string]any`.
mutual
  pub data Any : Type 0 where
    null : Any
    bool : Bool → Any
    int : ℤ → Any
    uint float : ℕ → Any
    string : Text → Any
    array : Anys → Any
    dict : Members → Any

  pub data Anys : Type 0 where
    no_anys : Anys
    any : Any → Anys → Anys

  pub data Members : Type 0 where
    no_members : Members
    member : Text → Any → Members → Members

-- result[key] = val
unfoldable pub put : Text → Any → Members → Members
put k v no_members = member k v no_members
put k v (member j w r) = if text_eq j k then member j v r else member j w (put k v r)

-- int64(obj.Value)
abbrev pub signed_word : ℕ → ℤ
signed_word n = if ltb n (2 ^ 63) then pos n else negsuc (2 ^ 64 - n - 1)

-- UintptrToNative[bool]: the lowest byte.
abbrev pub bool_of_word : ℕ → Bool
bool_of_word n = not (n % 2 ^ 8 == 0)

-- The loops run over the `left` entries from index `i` on of the array at `a`.
module _ (m : Memory) (dec : WafObject → Decoded Any) (a : ℕ) where
  unfoldable pub array_from : ℕ → ℕ → Decoded Anys
  array_from zero i = ok no_anys
  array_from (suc left) i = do
    elem ← cast_with_offset m a i
    val ← dec elem
    rest ← array_from left (suc i)
    ok (any val rest)

  unfoldable pub map_from : ℕ → ℕ → Members → Decoded Members
  map_from zero i result = ok result
  map_from (suc left) i result = do
    elem ← cast_with_offset m a i
    key ← parameter_of m elem
    val ← dec elem
    map_from left (suc i) (put key val result)

-- `null` stands for the nil slice and the nil map.
module _ (m : Memory) (dec : WafObject → Decoded Any) where
  unfoldable pub decode_array : WafObject → Decoded Any
  unfolding array_from
  decode_array obj =
      if is_nil obj
      then ok null
      else if is_array obj
      then (do events ← array_from m dec obj.value obj.nb_entries 0; ok (array events))
      else err invalid_object_type

  unfoldable pub decode_map : WafObject → Decoded Any
  unfolding map_from
  decode_map obj =
      if is_nil obj
      then ok null
      else if is_map obj
      then (do result ← map_from m dec obj.value obj.nb_entries 0 no_members; ok (dict result))
      else err invalid_object_type

  -- The `switch` on the object's type.
  unfoldable pub decode_by_type : WafObject → Decoded Any
  unfolding decode_array decode_map
  decode_by_type obj =
      if obj.type == waf_map_type
      then decode_map obj
      else if obj.type == waf_array_type
      then decode_array obj
      else if obj.type == waf_string_type
      then (do str ← string_of m obj; ok (string str))
      else if obj.type == waf_int_type
      then ok (int (signed_word obj.value))
      else if obj.type == waf_uint_type
      then ok (uint obj.value)
      else if obj.type == waf_float_type
      then ok (float obj.value)
      else if obj.type == waf_bool_type
      then ok (bool (bool_of_word obj.value))
      else if obj.type == waf_nil_type
      then ok null
      else err unsupported_value

-- The number bounds the nesting.
unfoldable pub decode_object : Memory → ℕ → WafObject → Decoded Any
unfolding decode_by_type
decode_object m zero obj = unfinished
decode_object m (suc fuel) obj = decode_by_type m (decode_object m fuel) obj
