-- ===== src/Encoder/Depth.antt =====
-- encoder.go: `depthOf`, which measures how deep a value is, and `Encode`.
pub mod Ends
pub mod Children
pub mod Exact
pub mod Whole
mod Tests
use go_libddwaf.Base.{
  ℕ, zero, suc, Bool, true, false, not, Option, none, some, [], ◌∷◌, length, ltb, ◌==◌, insert, max,
  if◌then◌else◌,
}
use go_libddwaf.Base.Int.{pos}
use go_libddwaf.Errors.{Error}
use go_libddwaf.WafObject.{
  WafObject, zero_object, waf_max_container_size, waf_max_string_length, waf_max_container_depth,
}
use go_libddwaf.GoValue.{
  GoValue, sequence, dict, struct, nil, nil_slice, nil_map, GoHeap, Items, no_items, item, Entries,
  no_entries, entry, FieldType, Fields, no_fields, field,
}
use go_libddwaf.Truncation.{Truncations, object_too_deep, sizes_of, reason_key}
use go_libddwaf.Encoder.{
  Setting, State, exhausted, resolve_pointer, indirection_limit, get_field_name_from_type,
}
use go_libddwaf.Encoder.Encode.{encode}

-- What `depthOf` returns: the depth, and whether the context stopped it; and the number of questions
-- that the context has been asked.
pub record Measured : Type 0 where
  pub depth : ℕ
  pub stopped : Bool
  pub asked : ℕ

abbrev pub measured : ℕ → Bool → ℕ → Option Measured
measured d b n = some (record { depth = d; stopped = b; asked = n })

-- `depth + 1`
abbrev pub one_more : Option Measured → Option Measured
one_more none = none
one_more (some r) = measured (suc r.depth) r.stopped r.asked

abbrev pub is_usable : FieldType → Bool
is_usable t = elim (get_field_name_from_type t) [ none ↦ false | some name ↦ true ]

-- The loops over the children, with the greatest depth so far; `none` if one of them has no result.
module _ (rec : GoValue → ℕ → Option Measured) where
  -- What one child adds, before the rest of the loop.
  abbrev pub with_child : ℕ → Option Measured → (ℕ → ℕ → Option Measured) → Option Measured
  with_child depth none rest = none
  with_child depth (some r) rest =
      let go = rest (max depth r.depth) r.asked in
      if r.stopped then measured (max depth r.depth) true r.asked else go

  unfoldable pub items_depth : Items → ℕ → ℕ → Option Measured
  items_depth no_items depth n = measured depth false n
  items_depth (item v l) depth n = with_child depth (rec v n) (items_depth l)

  unfoldable pub entries_depth : Entries → ℕ → ℕ → Option Measured
  entries_depth no_entries depth n = measured depth false n
  entries_depth (entry k v l) depth n = with_child depth (rec v n) (entries_depth l)

  unfoldable pub fields_depth : Fields → ℕ → ℕ → Option Measured
  fields_depth no_fields depth n = measured depth false n
  fields_depth (field t v l) depth n =
      let child = with_child depth (rec v n) (fields_depth l) in
      if is_usable t then child else fields_depth l depth n

  -- The `switch` on the kind; a nil slice and a nil map have no elements.
  unfoldable pub kind_depth : GoValue → ℕ → Option Measured
  unfolding items_depth entries_depth fields_depth
  kind_depth (sequence t l) n =
      let inner = one_more (items_depth l 0 n) in
      if t.is_byte_slice then measured 0 false n else inner
  kind_depth (dict l) n = one_more (entries_depth l 0 n)
  kind_depth (struct l) n = one_more (fields_depth l 0 n)
  kind_depth (nil (nil_slice is_byte_slice)) n =
      if is_byte_slice then measured 0 false n else measured 1 false n
  kind_depth (nil nil_map) n = measured 1 false n
  kind_depth v n = measured 0 false n

-- `done k` is the answer of `ctx.Err()` to question number `k`. A value can contain itself: the fuel
-- bounds the levels, `none` is out of fuel.
unfoldable pub depth_of : GoHeap → (ℕ → Bool) → ℕ → GoValue → ℕ → Option Measured
unfolding kind_depth
depth_of h done zero v n = none
depth_of h done (suc fuel) v n =
    let inner = kind_depth (depth_of h done fuel) (resolve_pointer h indirection_limit v) (suc n) in
    if done n then measured 0 true (suc n) else inner

abbrev pub record_depth : Option Measured → State → Option State
record_depth none s = none
record_depth (some r) s =
    some (record s { truncations = insert object_too_deep (pos r.depth ∷ []) s.truncations })

-- measureObjectDepth
unfoldable pub measure_object_depth : Setting → (ℕ → Bool) → ℕ → GoValue → State → Option State
unfolding depth_of insert
measure_object_depth g done fuel v s = record_depth (depth_of g.heap done fuel v 0) s

-- The limits of `newLimitedEncoder`.
abbrev pub limited : Setting → Setting
limited g = record g {
  container_max_size = waf_max_container_size;
  string_max_size = waf_max_string_length;
  object_max_depth = waf_max_container_depth;
}

-- What follows `encode` in `Encode`.
abbrev pub finish : Setting → (ℕ → Bool) → ℕ → GoValue → State → Option State
finish g done fuel v s =
    let (stop, t) = exhausted g s in
    let deeper = measure_object_depth g done fuel v t in
    if length (sizes_of object_too_deep s.truncations) == 0
    then some s
    else if stop
    then some t
    else deeper

-- Encode
unfoldable pub encode_value :
    Setting → (ℕ → Bool) → ℕ → GoValue → State → Option Error × WafObject × Option State
unfolding encode measure_object_depth sizes_of
encode_value g done fuel v s =
    let (err, o, t) = encode g g.object_max_depth v zero_object s in
    (err, o, finish g done fuel v t)
