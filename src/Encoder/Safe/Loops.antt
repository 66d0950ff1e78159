-- ===== src/Encoder/Safe/Loops.antt =====
-- encoder.go under any timer: the loops of `encodeArray`, `encodeMap` and `encodeStruct`.
use go_libddwaf.Base.{
  ℕ, suc, ◌≤◌, ◌<◌, ◌≡◌, refl, false, Option, none, some, arith, ◌==◌, Bool-cases, Option-cases,
  inl, inr,
}
use go_libddwaf.Errors.{Error}
use go_libddwaf.WafObject.{WafObject, waf_invalid_type}
use go_libddwaf.Memory.Growth.{Keeps, Keeps-refl, Keeps-trans, Keeps-of-Grows}
use go_libddwaf.GoValue.{
  GoValue, Items, no_items, item, Entries, no_entries, entry, Fields, no_fields, field,
}
use go_libddwaf.Encoder.{Setting, State, encode_map_key_from_string}
use go_libddwaf.Encoder.Containers.{
  EncodeValue, slot, fill_slot, next_index, or_noop, is_error, used_name, encode_map_key,
  array_loop, map_loop, struct_loop,
}
use go_libddwaf.Encoder.Correct.{memory_of, asked}
use go_libddwaf.Encoder.Safe.{
  Careful, CarefulValue, Careful-plain, Careful-trans, Careful-same, Retained,
}
use go_libddwaf.Encoder.Safe.Slots.{
  Slots, Slots-in, Slots-Grows, slot-Slots, Keeps-Slots, store-Slots, Retained-store,
}
use go_libddwaf.Encoder.Safe.Texts.{encode_key-Careful, encode_map_key-Careful}

-- A loop ends with an index within the array, or was stopped.
abbrev pub InRange : ℕ → Option ℕ → Type 0
InRange cap none = Unit {0}
InRange cap (some n) = n ≤ cap

-- What a loop over block `k` leaves of the state that it began with.
pub record Leaves (g : Setting) (d k cap : ℕ) (s : State) (r : Option ℕ × State) : Type 0 where
  pub index : InRange cap r.0
  pub slots : Slots g d k cap (memory_of r.1)
  pub keeps : Keeps k (memory_of s) (memory_of r.1)
  pub retained : (lo : ℕ) → Retained lo s.store → Retained lo r.1.store

module _ {g : Setting} {d k cap : ℕ} where
  -- The loop stops here, with nothing but the timer and the truncations changed.
  Leaves-here :
      {s t : State} (x : Option ℕ)
      → t.store ≡ s.store
      → InRange cap x
      → Slots g d k cap (memory_of s)
      → Leaves g d k cap s (x, t)
  Leaves-here {s} {t} x e b f = record {
    index = b;
    slots = rw e f;
    keeps = rw e (Keeps-refl k (memory_of s));
    retained = rw e (λ lo h. h);
  }

  -- An element is written into its slot, and the loop goes on.
  Leaves-write :
      {s u : State} {o : WafObject} {r : Option ℕ × State} (i : ℕ)
      → i < cap
      → Slots g d k cap (memory_of s)
      → Careful g d (slot s (suc k) i) s o u
      → (Slots g d k cap (memory_of (fill_slot (suc k) i o u))
          → Leaves g d k cap (fill_slot (suc k) i o u) r)
      → Leaves g d k cap s r
  Leaves-write {s} {u} {o} {r} i b f c go =
      let grown = Slots-Grows c.grows f in
      let written = store-Slots i o (c.safe (suc k) (Slots-in f) (slot-Slots i b f)) grown in
      let rest = go written in
      record {
        index = rest.index;
        slots = rest.slots;
        keeps =
            Keeps-trans (Keeps-of-Grows c.grows) (Keeps-trans (Keeps-Slots i o grown) rest.keeps);
        retained =
            λ lo h. rest.retained lo (Retained-store lo u.store (suc k) i o (c.retained lo h));
      }

  Leaves-asked :
      {s : State} {r : Option ℕ × State} → Leaves g d k cap (asked s) r → Leaves g d k cap s r
  Leaves-asked l = record {
    index = l.index;
    slots = l.slots;
    keeps = l.keeps;
    retained = l.retained;
  }

  -- An entry is left out, and the loop goes on.
  Leaves-skip :
      {s u : State} {o o' : WafObject} {r : Option ℕ × State}
      → Slots g d k cap (memory_of s)
      → Careful g d o s o' u
      → (Slots g d k cap (memory_of u) → Leaves g d k cap u r)
      → Leaves g d k cap s r
  Leaves-skip f c go =
      let rest = go (Slots-Grows c.grows f) in
      record {
        index = rest.index;
        slots = rest.slots;
        keeps = Keeps-trans (Keeps-of-Grows c.grows) rest.keeps;
        retained = λ lo h. rest.retained lo (c.retained lo h);
      }

next_index-le :
    (cap : ℕ) (err : Option Error) (o : WafObject) (i : ℕ) → i < cap → next_index err o i ≤ cap
next_index-le cap err o i b = ground arith

below : (cap i : ℕ) → i ≤ cap → (i == cap) ≡ false → i < cap
below cap i b ne = ground (arith, ne)

or_noop-Careful :
    (g : Setting) (d : ℕ) (err : Option Error) (o : WafObject) (s : State)
    → Careful g d o s (or_noop err o) s
or_noop-Careful g d none o s = Careful-same g d o refl
or_noop-Careful g d (some e) o s = Careful-plain g d o refl 0 waf_invalid_type refl

module _ {g : Setting} {d : ℕ} (enc : EncodeValue) (careful : CarefulValue g d enc) where
  -- The value under a key, and what it becomes if it cannot be encoded.
  value-Careful :
      (v : GoValue) (o : WafObject) (s : State)
      → let (err, o', s') = enc v o s in Careful g d o s (or_noop err o') s'
  value-Careful v o s =
      let (err, o', s') = enc v o s in Careful-trans (careful v o s) (or_noop-Careful g d err o' s')

  module _ {k cap : ℕ} (full : ℕ) where
    pub array_loop-Leaves :
        (l : Items) (i : ℕ) (s : State)
        → i ≤ cap
        → Slots g d k cap (memory_of s)
        → Leaves g d k cap s (array_loop g enc (suc k) cap full l i s)
    unfolding array_loop
    array_loop-Leaves no_items i s b f = Leaves-here (some i) refl b f
    array_loop-Leaves (item v r) i s b f = elim (Bool-cases (g.expired s.polls)) [
      | inl stop ↦ rw stop (Leaves-here none refl tt f)
      | inr go ↦ elim (Bool-cases (i == cap)) [
        | inl e ↦ rw (go, e) (Leaves-here (some i) refl b f)
        | inr ne ↦
            let o = slot (asked s) (suc k) i in
            let (err, o', u) = enc v o (asked s) in
            rw (go, ne)
              (Leaves-asked (
                Leaves-write i (below cap i b ne) f (careful v o (asked s)) (
                  array_loop-Leaves r (next_index err o' i) (fill_slot (suc k) i o' u)
                    (next_index-le cap err o' i (below cap i b ne)))))
      ]
    ]

    pub map_loop-Leaves :
        (l : Entries) (i : ℕ) (s : State)
        → i ≤ cap
        → Slots g d k cap (memory_of s)
        → Leaves g d k cap s (map_loop g enc (suc k) cap full l i s)
    unfolding map_loop
    map_loop-Leaves no_entries i s b f = Leaves-here (some i) refl b f
    map_loop-Leaves (entry key v r) i s b f = elim (Bool-cases (g.expired s.polls)) [
      | inl stop ↦ rw stop (Leaves-here none refl tt f)
      | inr go ↦ elim (Bool-cases (i == cap)) [
        | inl e ↦ rw (go, e) (Leaves-here (some i) refl b f)
        | inr ne ↦
            let o = slot (asked s) (suc k) i in
            let (bad_key, o', u) = encode_map_key g key o (asked s) in
            let (err, o'', u') = enc v o' u in
            let named = encode_map_key-Careful g d key o (asked s) in
            elim (Bool-cases (is_error bad_key)) [
              | inl bad ↦
                  rw (go, ne, bad) (Leaves-asked (Leaves-skip f named (map_loop-Leaves r i u b)))
              | inr fine ↦
                  rw (go, ne, fine)
                    (Leaves-asked (
                      Leaves-write i (below cap i b ne) f
                        (Careful-trans named (value-Careful v o' u))
                        (map_loop-Leaves r (suc i) (fill_slot (suc k) i (or_noop err o'') u')
                          (below cap i b ne))))
            ]
      ]
    ]

    pub struct_loop-Leaves :
        (l : Fields) (i : ℕ) (s : State)
        → i ≤ cap
        → Slots g d k cap (memory_of s)
        → Leaves g d k cap s (struct_loop g enc (suc k) cap full l i s)
    unfolding struct_loop
    struct_loop-Leaves no_fields i s b f = Leaves-here (some i) refl b f
    struct_loop-Leaves (field t v r) i s b f = elim (Bool-cases (g.expired s.polls)) [
      | inl stop ↦ rw stop (Leaves-here none refl tt f)
      | inr go ↦ elim (Bool-cases (i == cap)) [
        | inl e ↦ rw (go, e) (Leaves-here (some i) refl b f)
        | inr ne ↦ elim (Option-cases (used_name t)) [
          | inl ignored ↦ rw (go, ne, ignored) (Leaves-asked (struct_loop-Leaves r i (asked s) b f))
          | inr (name, used) ↦
              let o = slot (asked s) (suc k) i in
              let (o', u) = encode_map_key_from_string g name o (asked s) in
              let (err, o'', u') = enc v o' u in
              rw (go, ne, used)
                (Leaves-asked (
                  Leaves-write i (below cap i b ne) f
                    (Careful-trans (encode_key-Careful g d name o (asked s)) (value-Careful v o' u))
                    (struct_loop-Leaves r (suc i) (fill_slot (suc k) i (or_noop err o'') u')
                      (below cap i b ne))))
        ]
      ]
    ]
