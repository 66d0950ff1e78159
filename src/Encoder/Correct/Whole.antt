-- ===== src/Encoder/Correct/Whole.antt =====
-- encoder.go: `encodeArray`, `encodeMap` and `encodeStruct` as wholes.
use go_libddwaf.Base.{
  ℕ, ◌≤◌, ◌≡◌, refl, Option, some, [], arith, length, take, Option-cases, inl, inr,
}
use go_libddwaf.WafObject.{WafObject}
use go_libddwaf.RefPool.{array_container, map_container}
use go_libddwaf.GoValue.{
  GoValue, Items, no_items, item, Entries, no_entries, entry, Fields, no_fields, field, count_items,
  count_entries, count_fields,
}
use go_libddwaf.Encoder.{Setting, State, resolve_pointer, indirection_limit}
use go_libddwaf.Encoder.Containers.{
  EncodeValue, capacity_of, array_loop, map_loop, struct_loop, encode_array, encode_map,
  encode_struct, key_text, used_name,
}
use go_libddwaf.Tree.{Tree}
use go_libddwaf.Tree.Spec.{usable, item_trees, entry_trees, field_trees}
use go_libddwaf.Encoder.Correct.{memory_of, Correct, Unlimited, Clear, asked}
use go_libddwaf.Encoder.Correct.Arrays.{array_loop_lem}
use go_libddwaf.Encoder.Correct.Keys.{Blank}
use go_libddwaf.Encoder.Correct.Maps.{map_loop_lem, struct_loop_lem}
use go_libddwaf.Encoder.Correct.Frame.{Fills, whole, WholeRight, whole_lem, take-capacity}

module _ (g : Setting) (f : GoValue → Option Tree) where
  length-items : (items : Items) → length (item_trees g f items) ≤ count_items items
  unfolding item_trees
  length-items no_items = omega arith
  length-items (item v r) = elim (Option-cases (usable (f v))) [
    | inl e ↦ rw e (omega (arith, length-items r))
    | inr (t, e) ↦ rw e (omega (arith, length-items r))
  ]

  length-entries : (entries : Entries) → length (entry_trees g f entries) ≤ count_entries entries
  unfolding entry_trees
  length-entries no_entries = omega arith
  length-entries (entry key v r) =
      elim (Option-cases (key_text (resolve_pointer g.heap indirection_limit key))) [
        | inl e ↦ rw e (omega (arith, length-entries r))
        | inr (t, e) ↦ rw e (omega (arith, length-entries r))
      ]

  length-fields : (fields : Fields) → length (field_trees g f fields) ≤ count_fields fields
  unfolding field_trees
  length-fields no_fields = omega arith
  length-fields (field ft v r) = elim (Option-cases (used_name ft)) [
    | inl e ↦ rw e (omega (arith, length-fields r))
    | inr (t, e) ↦ rw e (omega (arith, length-fields r))
  ]

module _ (g : Setting) (never : Unlimited g) (enc : EncodeValue) (f : GoValue → Option Tree)
    (right : Correct enc f) where
  array_none :
      (cap full : ℕ) (l : Items)
      → cap ≡ 0
      → (a : ℕ) (s : State)
      → ((array_loop g enc a cap full l 0 s).0 ≡ some 0)
        × (memory_of (array_loop g enc a cap full l 0 s).1 ≡ memory_of s)
  unfolding array_loop
  array_none cap full no_items z a s = (refl, refl)
  array_none cap full (item v r) z a s = rw (never s.polls, z) (refl, refl)

  array-Fills :
      (cap full : ℕ) (l : Items)
      → Fills Clear cap (item_trees g f l) (λ a s. array_loop g enc a cap full l 0 s)
  array-Fills cap full l = record {
    none_fits = array_none cap full l;
    some_fit = λ k s. array_loop_lem g never enc f right k cap full l 0 s [] (omega arith);
  }

  map_none :
      (cap full : ℕ) (l : Entries)
      → cap ≡ 0
      → (a : ℕ) (s : State)
      → ((map_loop g enc a cap full l 0 s).0 ≡ some 0)
        × (memory_of (map_loop g enc a cap full l 0 s).1 ≡ memory_of s)
  unfolding map_loop
  map_none cap full no_entries z a s = (refl, refl)
  map_none cap full (entry k v r) z a s = rw (never s.polls, z) (refl, refl)

  map-Fills :
      (cap full : ℕ) (l : Entries)
      → Fills Blank cap (entry_trees g f l) (λ a s. map_loop g enc a cap full l 0 s)
  map-Fills cap full l = record {
    none_fits = map_none cap full l;
    some_fit = λ k s. map_loop_lem g never enc f right k cap full l 0 s [] (omega arith);
  }

  struct_none :
      (cap full : ℕ) (l : Fields)
      → cap ≡ 0
      → (a : ℕ) (s : State)
      → ((struct_loop g enc a cap full l 0 s).0 ≡ some 0)
        × (memory_of (struct_loop g enc a cap full l 0 s).1 ≡ memory_of s)
  unfolding struct_loop
  struct_none cap full no_fields z a s = (refl, refl)
  struct_none cap full (field ft v r) z a s = rw (never s.polls, z) (refl, refl)

  struct-Fills :
      (cap full : ℕ) (l : Fields)
      → Fills Blank cap (field_trees g f l) (λ a s. struct_loop g enc a cap full l 0 s)
  struct-Fills cap full l = record {
    none_fits = struct_none cap full l;
    some_fit = λ k s. struct_loop_lem g never enc f right k cap full l 0 s [] (omega arith);
  }

  pub encode_array_lem :
      (items : Items) (obj : WafObject) (s : State)
      → WholeRight array_container obj
          (take g.container_max_size (item_trees g f items))
          (memory_of s)
          (encode_array g enc items obj s)
  unfolding encode_array
  encode_array_lem items obj s =
      rw (← take-capacity g (count_items items) (item_trees g f items) (length-items g f items)) (
        whole_lem (capacity_of g (count_items items)) array_container obj s (refl, refl, refl)
          (array-Fills (capacity_of g (count_items items)) (count_items items) items))

  pub encode_map_lem :
      (entries : Entries) (obj : WafObject) (s : State)
      → WholeRight map_container obj
          (take g.container_max_size (entry_trees g f entries))
          (memory_of s)
          (encode_map g enc entries obj s)
  unfolding encode_map
  encode_map_lem entries obj s =
      rw
        (← take-capacity g (count_entries entries) (entry_trees g f entries)
          (length-entries g f entries))
        (whole_lem (capacity_of g (count_entries entries)) map_container obj s refl
          (map-Fills (capacity_of g (count_entries entries)) (count_entries entries) entries))

  pub encode_struct_lem :
      (fields : Fields) (obj : WafObject) (s : State)
      → WholeRight map_container obj
          (take g.container_max_size (field_trees g f fields))
          (memory_of s)
          (encode_struct g enc fields obj s)
  unfolding encode_struct
  encode_struct_lem fields obj s =
      rw
        (
          ← take-capacity g (count_fields fields) (field_trees g f fields)
              (length-fields g f fields),
          never s.polls,
        )
        (whole_struct (asked s))
    where
      cap : ℕ
      cap = capacity_of g (count_fields fields)

      whole_struct :
          (t : State)
          → WholeRight map_container obj (take cap (field_trees g f fields)) (memory_of t) (
              whole obj map_container cap
                (λ a u. struct_loop g enc a cap (count_fields fields) fields 0 u)
                t)
      whole_struct t =
          whole_lem cap map_container obj t refl (struct-Fills cap (count_fields fields) fields)
