-- ===== src/Encoder/Depth/Ends.antt =====
-- encoder.go: `depthOf` ends once its context is done, however a value contains itself.
use go_libddwaf.Base.{
  ℕ, zero, suc, ◌+◌, ◌≤◌, ◌≡◌, Bool, true, false, Option, none, some, arith, Bool-cases, inl, inr,
  if◌then◌else◌, max,
}
use go_libddwaf.GoValue.{
  GoValue, GoHeap, sequence, dict, struct, nil, nil_slice, nil_map, Items, no_items, item, Entries,
  no_entries, entry, Fields, no_fields, field,
}
use go_libddwaf.Encoder.{resolve_pointer, indirection_limit}
use go_libddwaf.Encoder.Depth.{
  Measured, is_usable, one_more, with_child, items_depth, entries_depth, fields_depth, kind_depth,
  depth_of,
}

-- There is a result, after at least `n` questions.
abbrev pub Ends : ℕ → Option Measured → Type 0
Ends n none = ⊥
Ends n (some r) = n ≤ r.asked

one_more-Ends : (n : ℕ) (x : Option Measured) → Ends n x → Ends n (one_more x)
one_more-Ends n none h = h
one_more-Ends n (some r) h = h

Ends-le : (n n' : ℕ) (x : Option Measured) → n ≤ n' → Ends n' x → Ends n x
Ends-le n n' none b h = h
Ends-le n n' (some r) b h = omega arith

Ends-if :
    (n : ℕ) (b : Bool) (x y : Option Measured) → Ends n x → Ends n y → Ends n (if b then x else y)
Ends-if n true x y h k = h
Ends-if n false x y h k = k

module _ (rec : GoValue → ℕ → Option Measured) (m : ℕ)
    (ends : (v : GoValue) (n : ℕ) → m ≤ n → Ends n (rec v n)) where
  with_child-Ends :
      (d n : ℕ) (x : Option Measured) (rest : ℕ → ℕ → Option Measured)
      → Ends n x
      → ((d' n' : ℕ) → n ≤ n' → Ends n (rest d' n'))
      → Ends n (with_child rec d x rest)
  with_child-Ends d n none rest h k = h
  with_child-Ends d n (some r) rest h k = elim (Bool-cases r.stopped) [
    | inl e ↦ rw e h
    | inr e ↦ rw e (k (max d r.depth) r.asked h)
  ]

  items_depth-Ends : (l : Items) (d n : ℕ) → m ≤ n → Ends n (items_depth rec l d n)
  unfolding items_depth
  items_depth-Ends no_items d n b = omega arith
  items_depth-Ends (item v l) d n b =
      with_child-Ends d n (rec v n) (items_depth rec l) (ends v n b)
        (λ d' n' c. Ends-le n n' _ c (items_depth-Ends l d' n' (omega arith)))

  entries_depth-Ends : (l : Entries) (d n : ℕ) → m ≤ n → Ends n (entries_depth rec l d n)
  unfolding entries_depth
  entries_depth-Ends no_entries d n b = omega arith
  entries_depth-Ends (entry k v l) d n b =
      with_child-Ends d n (rec v n) (entries_depth rec l) (ends v n b)
        (λ d' n' c. Ends-le n n' _ c (entries_depth-Ends l d' n' (omega arith)))

  fields_depth-Ends : (l : Fields) (d n : ℕ) → m ≤ n → Ends n (fields_depth rec l d n)
  unfolding fields_depth
  fields_depth-Ends no_fields d n b = omega arith
  fields_depth-Ends (field t v l) d n b =
      Ends-if n (is_usable t) _ (fields_depth rec l d n)
        (with_child-Ends d n (rec v n) (fields_depth rec l) (ends v n b)
          (λ d' n' c. Ends-le n n' _ c (fields_depth-Ends l d' n' (omega arith))))
        (fields_depth-Ends l d n b)

  kind_depth-Ends : (v : GoValue) → Ends m (kind_depth rec v m)
  unfolding kind_depth
  kind_depth-Ends (sequence t l) = elim (Bool-cases t.is_byte_slice) [
    | inl e ↦ simp e (omega arith)
    | inr e ↦ simp e (one_more-Ends m _ (items_depth-Ends l 0 m (omega arith)))
  ]
  kind_depth-Ends (dict l) = one_more-Ends m _ (entries_depth-Ends l 0 m (omega arith))
  kind_depth-Ends (struct l) = one_more-Ends m _ (fields_depth-Ends l 0 m (omega arith))
  kind_depth-Ends (nil (nil_slice b)) = ground arith
  kind_depth-Ends (nil nil_map) = omega arith
  kind_depth-Ends (nil _) = omega arith
  kind_depth-Ends _ = omega arith

-- If the context is done from question `last` on, `depthOf` returns, for every value and even if it
-- contains itself, with fuel for one level more than there are questions left; it asks at least once.
pub depth_of-Ends :
    (h : GoHeap) (done : ℕ → Bool) (last fuel : ℕ) (v : GoValue) (n : ℕ)
    → ((k : ℕ) → last ≤ k → done k ≡ true)
    → last ≤ n + fuel
    → Ends (suc n) (depth_of h done (suc fuel) v n)
unfolding depth_of
depth_of-Ends h done last zero v n expires b = rw (expires n (omega arith)) (omega arith)
depth_of-Ends h done last (suc fuel) v n expires b = elim (Bool-cases (done n)) [
  | inl e ↦ rw e (omega arith)
  | inr e ↦ rw e (
      kind_depth-Ends (depth_of h done (suc fuel)) (suc n)
        (λ w k c.
          Ends-le k (suc k) (depth_of h done (suc fuel) w k) (omega arith)
            (depth_of-Ends h done last fuel w k expires (omega arith)))
        (resolve_pointer h indirection_limit v))
]
