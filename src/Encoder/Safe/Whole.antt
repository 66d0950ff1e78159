-- ===== src/Encoder/Safe/Whole.antt =====
-- encoder.go under any timer: `encodeArray`, `encodeMap` and `encodeStruct` as wholes.
use go_libddwaf.Base.{
  ℕ, zero, suc, ◌≤◌, ◌≡◌, refl, Option, none, some, List, [], arith, All, length, ltb, replicate,
  Bool-cases, ltb→le, ◌⊎◌, inl, inr,
}
use go_libddwaf.WafObject.{WafObject, zero_object, waf_array_type, waf_map_type}
use go_libddwaf.Tree.Holds.{ArrayAt}
use go_libddwaf.Memory.{Memory, objects, next_address}
use go_libddwaf.Memory.Growth.{Same-refl, Same-of-Grows, Grows-Keeps, Grows-allocate}
use go_libddwaf.RefPool.{
  Container, array_container, map_container, container_type, alloc_waf_array, keep_array,
}
use go_libddwaf.GoValue.{
  Items, no_items, item, Entries, no_entries, entry, Fields, no_fields, field, count_items,
  count_entries, count_fields,
}
use go_libddwaf.Encoder.{Setting, State}
use go_libddwaf.Encoder.Containers.{
  EncodeValue, capacity_of, fix_size, array_loop, map_loop, struct_loop, encode_array, encode_map,
  encode_struct,
}
use go_libddwaf.Encoder.Correct.{memory_of, asked}
use go_libddwaf.Encoder.Correct.Frame.{whole, alloc_some}
use go_libddwaf.Encoder.Safe.{
  KeyOk, Careful, CarefulValue, Careful-same, Careful-trans, SafeSlot, SafeSlot-Same, All-Same,
  Retained-array,
}
use go_libddwaf.Encoder.Safe.Slots.{Slots, Slots-start}
use go_libddwaf.Encoder.Safe.Loops.{
  InRange, Leaves, array_loop-Leaves, map_loop-Leaves, struct_loop-Leaves,
}

type-container :
    (typ : Container) → (container_type typ ≡ waf_array_type) ⊎ (container_type typ ≡ waf_map_type)
type-container array_container = inl refl
type-container map_container = inr refl

-- A container whose array can be read, with any size within the array.
Safe-fix :
    (g : Setting) (d lo cap : ℕ) (m : Memory) (x : Option ℕ) (o : WafObject) (os : List WafObject)
    → InRange cap x
    → o.nb_entries ≡ cap
    → length os ≡ cap
    → cap ≤ g.container_max_size
    → KeyOk g lo m o
    → (o.type ≡ waf_array_type) ⊎ (o.type ≡ waf_map_type)
    → ArrayAt lo m o.value os
    → All (SafeSlot g d lo m) os
    → SafeSlot g (suc d) lo m (fix_size x o)
Safe-fix g d lo cap m none o os b n e c key ty at h =
    (key, inr (inr (os, ty, omega arith, omega arith, at, h)))
Safe-fix g d lo cap m (some i) o os b n e c key ty at h =
    (key, inr (inr (os, ty, omega (arith, b), omega arith, at, h)))

-- A loop over `cap` slots, if there are any, that leaves them as they can be read.
record Careless (g : Setting) (d cap : ℕ) (loop : ℕ → State → Option ℕ × State) : Type 0 where
  none_fits :
      cap ≡ 0 → (a : ℕ) (s : State) → InRange 0 (loop a s).0 × ((loop a s).1.store ≡ s.store)
  some_fit :
      (k : ℕ) (s : State) → Slots g d k cap (memory_of s) → Leaves g d k cap s (loop (suc k) s)

module _ (g : Setting) (d : ℕ) (typ : Container) (obj : WafObject) (s : State) where
  whole_none :
      {loop : ℕ → State → Option ℕ × State}
      → Careless g d 0 loop
      → Careful g (suc d) obj s (whole obj typ 0 loop s).0 (whole obj typ 0 loop s).1
  unfolding alloc_waf_array
  whole_none {loop} c =
      let (b, same) = c.none_fits refl 0 s in
      rw same (record {
        grows = Same-refl 0 _;
        safe = λ lo l h.
            Safe-fix g d lo 0 _ (loop 0 s).0 _ [] b refl refl (omega arith) h.0 (type-container typ)
              (inl refl) tt;
        retained = λ lo h. h;
      })

  whole_some :
      {loop : ℕ → State → Option ℕ × State} (cap : ℕ)
      → suc cap ≤ g.container_max_size
      → Careless g d (suc cap) loop
      → Careful g
          (suc d)
          obj
          s
          (whole obj typ (suc cap) loop s).0
          (whole obj typ (suc cap) loop s).1
  unfolding keep_array
  whole_some {loop} cap few c =
      let st = keep_array s.store (suc cap) in
      let l =
        c.some_fit (length (memory_of s)) (record s { store = st })
          (Slots-start g d (suc cap) (memory_of s)) in
      let room = Grows-allocate (objects (replicate (suc cap) zero_object)) (memory_of s) in
      let grown = Grows-Keeps (omega arith) room l.keeps in
      rw (alloc_some obj typ cap s.store) (record {
        grows = grown;
        safe = λ lo b h.
            Safe-fix g d lo (suc cap) _
              (loop (suc (length (memory_of s))) (record s { store = st })).0
              (record obj {
                type = container_type typ;
                nb_entries = suc cap;
                value = next_address s.store.memory;
              })
              l.slots.os l.index refl l.slots.size few
              (SafeSlot-Same g (omega arith) (Same-of-Grows grown) (suc d) obj h).0
              (type-container typ) (inr (length (memory_of s), refl, b, l.slots.at))
              (All-Same g (omega arith) (Same-refl (suc (length (memory_of s))) _) d l.slots.os
                l.slots.safe);
        retained = λ lo h. l.retained lo (Retained-array lo s.store (suc cap) h);
      })

  whole-Careful :
      {loop : ℕ → State → Option ℕ × State} (cap : ℕ)
      → cap ≤ g.container_max_size
      → Careless g d cap loop
      → Careful g (suc d) obj s (whole obj typ cap loop s).0 (whole obj typ cap loop s).1
  whole-Careful zero few c = whole_none c
  whole-Careful (suc cap) few c = whole_some cap few c

capacity-le : (g : Setting) (n : ℕ) → capacity_of g n ≤ g.container_max_size
capacity-le g n = elim (Bool-cases (ltb g.container_max_size n)) [
  | inl e ↦ rw e (omega arith)
  | inr e ↦ rw e (ltb→le _ _ e)
]

module _ (g : Setting) (d : ℕ) (enc : EncodeValue) (careful : CarefulValue g d enc)
    (cap full : ℕ) where
  array_none :
      (l : Items) (a : ℕ) (s : State)
      → cap ≡ 0
      → InRange 0 (array_loop g enc a cap full l 0 s).0
        × ((array_loop g enc a cap full l 0 s).1.store ≡ s.store)
  unfolding array_loop
  array_none no_items a s e = (omega arith, refl)
  array_none (item v r) a s e = elim (Bool-cases (g.expired s.polls)) [
    | inl stop ↦ rw stop (tt, refl)
    | inr go ↦ rw (go, e) (omega arith, refl)
  ]

  array-Careless : (l : Items) → Careless g d cap (λ a s. array_loop g enc a cap full l 0 s)
  array-Careless l = record {
    none_fits = λ e a s. array_none l a s e;
    some_fit = λ k s. array_loop-Leaves enc careful full l 0 s (omega arith);
  }

  map_none :
      (l : Entries) (a : ℕ) (s : State)
      → cap ≡ 0
      → InRange 0 (map_loop g enc a cap full l 0 s).0
        × ((map_loop g enc a cap full l 0 s).1.store ≡ s.store)
  unfolding map_loop
  map_none no_entries a s e = (omega arith, refl)
  map_none (entry k v r) a s e = elim (Bool-cases (g.expired s.polls)) [
    | inl stop ↦ rw stop (tt, refl)
    | inr go ↦ rw (go, e) (omega arith, refl)
  ]

  map-Careless : (l : Entries) → Careless g d cap (λ a s. map_loop g enc a cap full l 0 s)
  map-Careless l = record {
    none_fits = λ e a s. map_none l a s e;
    some_fit = λ k s. map_loop-Leaves enc careful full l 0 s (omega arith);
  }

  struct_none :
      (l : Fields) (a : ℕ) (s : State)
      → cap ≡ 0
      → InRange 0 (struct_loop g enc a cap full l 0 s).0
        × ((struct_loop g enc a cap full l 0 s).1.store ≡ s.store)
  unfolding struct_loop
  struct_none no_fields a s e = (omega arith, refl)
  struct_none (field t v r) a s e = elim (Bool-cases (g.expired s.polls)) [
    | inl stop ↦ rw stop (tt, refl)
    | inr go ↦ rw (go, e) (omega arith, refl)
  ]

  struct-Careless : (l : Fields) → Careless g d cap (λ a s. struct_loop g enc a cap full l 0 s)
  struct-Careless l = record {
    none_fits = λ e a s. struct_none l a s e;
    some_fit = λ k s. struct_loop-Leaves enc careful full l 0 s (omega arith);
  }

module _ (g : Setting) (d : ℕ) (enc : EncodeValue) (careful : CarefulValue g d enc) where
  pub encode_array-Careful :
      (l : Items) (o : WafObject) (s : State)
      → let (o', s') = encode_array g enc l o s in Careful g (suc d) o s o' s'
  unfolding encode_array
  encode_array-Careful l o s =
      let n = count_items l in
      whole-Careful g d array_container o s (capacity_of g n) (capacity-le g n)
        (array-Careless g d enc careful (capacity_of g n) n l)

  pub encode_map-Careful :
      (l : Entries) (o : WafObject) (s : State)
      → let (o', s') = encode_map g enc l o s in Careful g (suc d) o s o' s'
  unfolding encode_map
  encode_map-Careful l o s =
      let n = count_entries l in
      whole-Careful g d map_container o s (capacity_of g n) (capacity-le g n)
        (map-Careless g d enc careful (capacity_of g n) n l)

  pub encode_struct-Careful :
      (l : Fields) (o : WafObject) (s : State)
      → let (o', s') = encode_struct g enc l o s in Careful g (suc d) o s o' s'
  unfolding encode_struct
  encode_struct-Careful l o s = elim (Bool-cases (g.expired s.polls)) [
    | inl stop ↦ rw stop (Careful-same g (suc d) o refl)
    | inr go ↦
        let n = count_fields l in
        rw go (
          Careful-trans (Careful-same g (suc d) o refl) (
            whole-Careful g d map_container o (asked s) (capacity_of g n) (capacity-le g n)
              (struct-Careless g d enc careful (capacity_of g n) n l)))
  ]
