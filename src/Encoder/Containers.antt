-- ===== src/Encoder/Containers.antt =====
-- encoder.go: `encodeArray`, `encodeMap` and `encodeStruct`, over the function `enc` that encodes one
-- element. The array that `AllocWafArray` returns lies at `obj.value`, and `length` or `currIndex`
-- counts the elements that are kept.
use go_libddwaf.Base.{
  ℕ, suc, Bool, true, false, ◌||◌, Option, none, some, [], Text, bytes, text_eq, ltb, ◌==◌,
  if◌then◌else◌,
}
use go_libddwaf.Base.Int.{pos}
use go_libddwaf.Errors.{Error, invalid_map_key}
use go_libddwaf.WafObject.{WafObject, waf_invalid_type, is_unusable}
use go_libddwaf.Memory.{load_object, store_object}
use go_libddwaf.RefPool.{Container, array_container, map_container, alloc_waf_array}
use go_libddwaf.GoValue.{
  GoValue, string, sequence, nil, nil_slice, FieldType, Items, no_items, item, Entries, no_entries,
  entry, Fields, no_fields, field, count_items, count_entries, count_fields, bytes_of,
}
use go_libddwaf.Truncation.{container_too_large}
use go_libddwaf.Encoder.{
  Setting, State, encode_native, exhausted, truncated, resolve_pointer, indirection_limit,
  encode_map_key_from_string, get_field_name_from_type,
}

-- The error, what the object has become, and the new state.
abbrev pub Encoded : Type 0
Encoded = Option Error × WafObject × State

abbrev pub EncodeValue : Type 0
EncodeValue = GoValue → WafObject → State → Encoded

-- `&objArray[i]` of the array at `a`.
abbrev pub slot : State → ℕ → ℕ → WafObject
slot s a i = load_object s.store.memory a i

abbrev pub fill_slot : ℕ → ℕ → WafObject → State → State
fill_slot a i o s = record s {
  store = record s.store { memory = store_object s.store.memory a i o };
}

-- The capacity of a container of `n` elements.
abbrev pub capacity_of : Setting → ℕ → ℕ
capacity_of g n = if ltb g.container_max_size n then g.container_max_size else n

abbrev pub new_array : WafObject → Container → ℕ → State → WafObject × State
new_array obj typ size s =
    let (o, st) = alloc_waf_array obj typ size s.store in (o, record s { store = st })

-- `obj.NbEntries = length`, unless the loop returned early.
abbrev pub fix_size : Option ℕ → WafObject → WafObject
fix_size none obj = obj
fix_size (some n) obj = record obj { nb_entries = n }

abbrev pub is_error : Option Error → Bool
is_error none = false
is_error (some e) = true

-- A value that cannot be encoded becomes a no-op under its key.
abbrev pub or_noop : Option Error → WafObject → WafObject
or_noop none o = o
or_noop (some e) o = encode_native 0 waf_invalid_type o

abbrev pub next_index : Option Error → WafObject → ℕ → ℕ
next_index err o i = if is_error err || is_unusable o then i else suc i

-- The text of a map key, if it is a string or a `[]byte` once resolved.
abbrev pub key_text : GoValue → Option Text
key_text (string str) = some str
key_text (sequence t items) = if t.is_byte_slice then some (bytes_of items) else none
key_text (nil (nil_slice true)) = some []
key_text v = none

unfoldable pub encode_map_key : Setting → GoValue → WafObject → State → Encoded
encode_map_key g v obj s = elim (key_text (resolve_pointer g.heap indirection_limit v)) [
  | none ↦ (some invalid_map_key, obj, s)
  | some str ↦ let (o, t) = encode_map_key_from_string g str obj s in (none, o, t)
]

-- `!usable || ok && tag == AppsecFieldTagValueIgnore`; else the field's name.
abbrev is_ignored : Option Text → Bool
is_ignored none = false
is_ignored (some tag) = text_eq tag (bytes "ignore")

abbrev pub used_name : FieldType → Option Text
used_name t = if is_ignored t.ddwaf then none else get_field_name_from_type t

-- Each loop returns `none` if the timer stopped it, and else the number of elements kept.
module _ (g : Setting) (enc : EncodeValue) (a capacity full : ℕ) where
  unfoldable pub array_loop : Items → ℕ → State → Option ℕ × State
  array_loop no_items i s = (some i, s)
  array_loop (item v r) i s =
      let (stop, t) = exhausted g s in
      let (err, o, u) = enc v (slot t a i) t in
      let rest = array_loop r (next_index err o i) (fill_slot a i o u) in
      if stop
      then (none, t)
      else if i == capacity
      then (some i, truncated container_too_large (pos full) t)
      else rest

  unfoldable pub map_loop : Entries → ℕ → State → Option ℕ × State
  map_loop no_entries i s = (some i, s)
  map_loop (entry k v r) i s =
      let (stop, t) = exhausted g s in
      let (bad_key, o, u) = encode_map_key g k (slot t a i) t in
      let (err, o', u') = enc v o u in
      let skipped = map_loop r i u in
      let kept = map_loop r (suc i) (fill_slot a i (or_noop err o') u') in
      if stop
      then (none, t)
      else if i == capacity
      then (some i, truncated container_too_large (pos full) t)
      else if is_error bad_key
      then skipped
      else kept

  unfoldable pub struct_loop : Fields → ℕ → State → Option ℕ × State
  struct_loop no_fields i s = (some i, s)
  struct_loop (field ft v r) i s =
      let (stop, t) = exhausted g s in
      let ignored = struct_loop r i t in
      let kept = λ (name : Text).
        let (o, u) = encode_map_key_from_string g name (slot t a i) t in
        let (err, o', u') = enc v o u in
        struct_loop r (suc i) (fill_slot a i (or_noop err o') u') in
      if stop
      then (none, t)
      else if i == capacity
      then (some i, truncated container_too_large (pos full) t)
      else elim (used_name ft) [ none ↦ ignored | some name ↦ kept name ]

module _ (g : Setting) (enc : EncodeValue) where
  unfoldable pub encode_array : Items → WafObject → State → WafObject × State
  unfolding array_loop
  encode_array items obj s =
      let capacity = capacity_of g (count_items items) in
      let (o, t) = new_array obj array_container capacity s in
      let (n, u) = array_loop g enc o.value capacity (count_items items) items 0 t in
      (fix_size n o, u)

  unfoldable pub encode_map : Entries → WafObject → State → WafObject × State
  unfolding map_loop
  encode_map entries obj s =
      let capacity = capacity_of g (count_entries entries) in
      let (o, t) = new_array obj map_container capacity s in
      let (n, u) = map_loop g enc o.value capacity (count_entries entries) entries 0 t in
      (fix_size n o, u)

  -- The fields that are kept fill the array in order.
  fill_struct : Fields → WafObject → State → WafObject × State
  unfolding struct_loop
  fill_struct fields obj s =
      let capacity = capacity_of g (count_fields fields) in
      let (o, t) = new_array obj map_container capacity s in
      let (n, u) = struct_loop g enc o.value capacity (count_fields fields) fields 0 t in
      (fix_size n o, u)

  unfoldable pub encode_struct : Fields → WafObject → State → WafObject × State
  unfolding fill_struct
  encode_struct fields obj s =
      let (stop, t) = exhausted g s in if stop then (obj, t) else fill_struct fields obj t
