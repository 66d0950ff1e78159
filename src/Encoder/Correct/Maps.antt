-- ===== src/Encoder/Correct/Maps.antt =====
-- encoder.go: the loops of `encodeMap` and `encodeStruct`.
use go_libddwaf.Base.{
  ℕ, suc, ◌≤◌, ◌<◌, ◌≡◌, ◌∙◌, ap, true, false, Option, none, some, List, [], ◌∷◌, ◌++◌, Text, arith,
  ◌==◌, Bool-cases, Option-cases, ==_iff, get_elem?_lt, inl, inr,
}
use go_libddwaf.Base.Int.{pos}
use go_libddwaf.WafObject.{WafObject}
use go_libddwaf.Memory.Growth.{Keeps-trans, Keeps-of-Grows, Same-refl, Same-trans, Same-of-Grows}
use go_libddwaf.GoValue.{GoValue, FieldType, Entries, no_entries, entry, Fields, no_fields, field}
use go_libddwaf.Truncation.{container_too_large}
use go_libddwaf.Encoder.{
  Setting, State, truncated, clip, encode_map_key_from_string, resolve_pointer, indirection_limit,
}
use go_libddwaf.Encoder.Containers.{
  EncodeValue, slot, fill_slot, or_noop, key_text, used_name, encode_map_key, map_loop, struct_loop,
}
use go_libddwaf.Encoder.Filled.{Filled, Filled-Grows, Keeps-store, slot-Filled, Filled-keep}
use go_libddwaf.Tree.{Tree, Child}
use go_libddwaf.Tree.Holds.{TextAt-Same, Holds-Same}
use go_libddwaf.Tree.Spec.{or_hole, entry_trees, field_trees}
use go_libddwaf.Encoder.Correct.{
  memory_of, Correct, Unlimited, Loops, asked, Loops-keep, Loops-end, Loops-full,
}
use go_libddwaf.Encoder.Correct.Keys.{Blank, encode-Keyed, Outcome-or_noop}

module _ (g : Setting) (never : Unlimited g) (enc : EncodeValue) (f : GoValue → Option Tree)
    (right : Correct enc f) (k cap full : ℕ) where
  -- The slot with its key, and the slot with its value.
  abbrev keyed : Text → ℕ → State → WafObject × State
  keyed str i s = encode_map_key_from_string g str (slot s (suc k) i) (asked s)

  abbrev valued : Text → GoValue → ℕ → State → State
  valued str v i s =
      let (o, u) = keyed str i s in
      let (err, o', u') = enc v o u in fill_slot (suc k) i (or_noop err o') u'

  -- One entry is kept, given the claim for the rest of the loop.
  entry_round :
      (str : Text) (v : GoValue) (more : List Child) (i : ℕ) (s : State) (kept : List Child)
      (r : Option ℕ × State)
      → i < cap
      → Filled Blank k cap i (memory_of s) kept
      → (Filled Blank k cap
            (suc i)
            (memory_of (valued str v i s))
            (kept ++ (clip g.string_max_size str, or_hole (f v)) ∷ [])
          → Loops Blank k cap
              (suc i)
              (memory_of (valued str v i s))
              (kept ++ (clip g.string_max_size str, or_hole (f v)) ∷ [])
              more
              r)
      → Loops Blank k cap i
          (memory_of s)
          kept
          ((clip g.string_max_size str, or_hole (f v)) ∷ more)
          r
  entry_round str v more i s kept r b filled ih =
      let blank = slot-Filled b filled in
      let (o, u) = keyed str i s in
      let (err, o', u') = enc v o u in
      let named =
        encode-Keyed g str (slot s (suc k) i) (asked s) (ap (λ w. w.parameter_name) blank) in
      let done = right v o u in
      let (key, holds) =
        Outcome-or_noop (f v) _ _ o err o' (named.untyped ∙ ap (λ w. w.type) blank) done.outcome in
      let low = get_elem?_lt (memory_of s) k _ filled.at in
      let name =
        TextAt-Same low (Same-of-Grows done.grows) _ _ (clip g.string_max_size str) named.name in
      let filled' = Filled-Grows (Same-trans named.grows done.grows) filled in
      Loops-keep b
        (Keeps-trans (Keeps-of-Grows (Same-trans named.grows done.grows))
          (Keeps-store (or_noop err o') filled'))
        (ih (
          Filled-keep (or_noop err o') _ (or_hole (f v)) b (rw (key.0, key.1) name)
            (Holds-Same (omega (arith, named.grows.longer, low)) (Same-refl _ _) (or_hole (f v)) _
              holds)
            filled'))

  map_loop_full :
      (key v : GoValue) (r : Entries) (i : ℕ) (s : State)
      → (i == cap) ≡ true
      → map_loop g enc (suc k) cap full (entry key v r) i s
        ≡ (some i, truncated container_too_large (pos full) (asked s))
  unfolding map_loop
  map_loop_full key v r i s e = rw (never s.polls, e)

  map_loop_skip :
      (key v : GoValue) (r : Entries) (i : ℕ) (s : State)
      → (i == cap) ≡ false
      → key_text (resolve_pointer g.heap indirection_limit key) ≡ none
      → map_loop g enc (suc k) cap full (entry key v r) i s
        ≡ map_loop g enc (suc k) cap full r i (asked s)
  unfolding map_loop encode_map_key
  map_loop_skip key v r i s e n = rw (never s.polls, e, n, encode_map_key)

  map_loop_keep :
      (key v : GoValue) (str : Text) (r : Entries) (i : ℕ) (s : State)
      → (i == cap) ≡ false
      → key_text (resolve_pointer g.heap indirection_limit key) ≡ some str
      → map_loop g enc (suc k) cap full (entry key v r) i s
        ≡ map_loop g enc (suc k) cap full r (suc i) (valued str v i s)
  unfolding map_loop encode_map_key
  map_loop_keep key v str r i s e n = rw (never s.polls, e, n, encode_map_key)

  struct_loop_full :
      (t : FieldType) (v : GoValue) (r : Fields) (i : ℕ) (s : State)
      → (i == cap) ≡ true
      → struct_loop g enc (suc k) cap full (field t v r) i s
        ≡ (some i, truncated container_too_large (pos full) (asked s))
  unfolding struct_loop
  struct_loop_full t v r i s e = rw (never s.polls, e)

  struct_loop_skip :
      (t : FieldType) (v : GoValue) (r : Fields) (i : ℕ) (s : State)
      → (i == cap) ≡ false
      → used_name t ≡ none
      → struct_loop g enc (suc k) cap full (field t v r) i s
        ≡ struct_loop g enc (suc k) cap full r i (asked s)
  unfolding struct_loop
  struct_loop_skip t v r i s e n = rw (never s.polls, e, n)

  struct_loop_keep :
      (t : FieldType) (v : GoValue) (str : Text) (r : Fields) (i : ℕ) (s : State)
      → (i == cap) ≡ false
      → used_name t ≡ some str
      → struct_loop g enc (suc k) cap full (field t v r) i s
        ≡ struct_loop g enc (suc k) cap full r (suc i) (valued str v i s)
  unfolding struct_loop
  struct_loop_keep t v str r i s e n = rw (never s.polls, e, n)

  -- The loop keeps the first entries with a usable key, up to the capacity.
  pub map_loop_lem :
      (entries : Entries) (i : ℕ) (s : State) (kept : List Child)
      → i ≤ cap
      → Filled Blank k cap i (memory_of s) kept
      → Loops Blank k cap i
          (memory_of s)
          kept
          (entry_trees g f entries)
          (map_loop g enc (suc k) cap full entries i s)
  unfolding map_loop entry_trees
  map_loop_lem no_entries i s kept b filled = Loops-end s filled
  map_loop_lem (entry key v r) i s kept b filled = elim (Bool-cases (i == cap)) [
    | inl e ↦
        rw (map_loop_full key v r i s e)
          (Loops-full (entry_trees g f (entry key v r)) _ ((==_iff i cap).0 e) filled)
    | inr e ↦ elim (Option-cases (key_text (resolve_pointer g.heap indirection_limit key))) [
      | inl n ↦ rw (map_loop_skip key v r i s e n, n) (map_loop_lem r i (asked s) kept b filled)
      | inr (str, n) ↦
          rw (map_loop_keep key v str r i s e n, n)
            (entry_round str v (entry_trees g f r) i s kept _ (ground arith) filled
              (map_loop_lem r (suc i) (valued str v i s) _ (ground arith)))
    ]
  ]

  -- The loop keeps the first fields with a usable name, up to the capacity.
  pub struct_loop_lem :
      (fields : Fields) (i : ℕ) (s : State) (kept : List Child)
      → i ≤ cap
      → Filled Blank k cap i (memory_of s) kept
      → Loops Blank k cap i
          (memory_of s)
          kept
          (field_trees g f fields)
          (struct_loop g enc (suc k) cap full fields i s)
  unfolding struct_loop field_trees
  struct_loop_lem no_fields i s kept b filled = Loops-end s filled
  struct_loop_lem (field t v r) i s kept b filled = elim (Bool-cases (i == cap)) [
    | inl e ↦
        rw (struct_loop_full t v r i s e)
          (Loops-full (field_trees g f (field t v r)) _ ((==_iff i cap).0 e) filled)
    | inr e ↦ elim (Option-cases (used_name t)) [
      | inl n ↦ rw (struct_loop_skip t v r i s e n, n) (struct_loop_lem r i (asked s) kept b filled)
      | inr (str, n) ↦
          rw (struct_loop_keep t v str r i s e n, n)
            (entry_round str v (field_trees g f r) i s kept _ (ground arith) filled
              (struct_loop_lem r (suc i) (valued str v i s) _ (ground arith)))
    ]
  ]
