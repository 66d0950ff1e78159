-- ===== src/Encoder/Depth/Children.antt =====
-- encoder.go: `depthOf` as a loop over the children of a container.
use go_libddwaf.Base.{
  ℕ, zero, suc, ◌≡◌, refl, ap, Bool, true, false, ◌||◌, ◌==◌, Option, none, some, List, [], ◌∷◌,
  if◌then◌else◌, max,
}
use go_libddwaf.GoValue.{
  GoValue, GoHeap, sequence, dict, struct, nil, nil_slice, nil_map, Items, no_items, item, Entries,
  no_entries, entry, Fields, no_fields, field,
}
use go_libddwaf.Encoder.{resolve_pointer, indirection_limit}
use go_libddwaf.Encoder.Depth.{
  Measured, measured, is_usable, one_more, with_child, items_depth, entries_depth, fields_depth,
  kind_depth,
}

-- The children of a container that are measured.
abbrev pub items_list : Items → List GoValue
items_list no_items = []
items_list (item v l) = v ∷ items_list l

abbrev pub values_list : Entries → List GoValue
values_list no_entries = []
values_list (entry k v l) = v ∷ values_list l

abbrev pub usable_list : Fields → List GoValue
usable_list no_fields = []
usable_list (field t v l) = let rest = usable_list l in if is_usable t then v ∷ rest else rest

-- The children, if the value is a container.
abbrev pub children : GoValue → Option (List GoValue)
children (sequence t l) = if t.is_byte_slice then none else some (items_list l)
children (dict l) = some (values_list l)
children (struct l) = some (usable_list l)
children (nil (nil_slice is_byte_slice)) = if is_byte_slice then none else some []
children (nil nil_map) = some []
children v = none

abbrev pub any : (GoValue → Bool) → List GoValue → Bool
any p [] = false
any p (v ∷ l) = p v || any p l

abbrev pub any_child : Bool → (GoValue → Bool) → Option (List GoValue) → Bool
any_child last p none = false
any_child last p (some l) = last || any p l

-- Whether `n` containers are nested in a value, itself included, behind pointers and interfaces.
unfoldable pub nests : GoHeap → ℕ → GoValue → Bool
nests h zero v = true
nests h (suc n) v =
    any_child (n == 0) (nests h n) (children (resolve_pointer h indirection_limit v))

-- `depthOf` over a list of children.
unfoldable pub list_depth : (GoValue → ℕ → Option Measured) → List GoValue → ℕ → ℕ → Option Measured
list_depth rec [] d n = measured d false n
list_depth rec (v ∷ l) d n = with_child rec d (rec v n) (list_depth rec l)

module _ (rec : GoValue → ℕ → Option Measured) where
  with_child_ext :
      (d : ℕ) (x : Option Measured) (f k : ℕ → ℕ → Option Measured)
      → ((a b : ℕ) → f a b ≡ k a b)
      → with_child rec d x f ≡ with_child rec d x k
  with_child_ext d none f k e = refl
  with_child_ext d (some r) f k e = rw (e (max d r.depth) r.asked) refl

  items_depth-list :
      (l : Items) (d n : ℕ) → items_depth rec l d n ≡ list_depth rec (items_list l) d n
  unfolding items_depth list_depth
  items_depth-list no_items d n = refl
  items_depth-list (item v l) d n = with_child_ext d (rec v n) _ _ (items_depth-list l)

  entries_depth-list :
      (l : Entries) (d n : ℕ) → entries_depth rec l d n ≡ list_depth rec (values_list l) d n
  unfolding entries_depth list_depth
  entries_depth-list no_entries d n = refl
  entries_depth-list (entry k v l) d n = with_child_ext d (rec v n) _ _ (entries_depth-list l)

  usable_step :
      (b : Bool) (v : GoValue) (l : List GoValue) (d n : ℕ) (x y : Option Measured)
      → x ≡ with_child rec d (rec v n) (list_depth rec l)
      → y ≡ list_depth rec l d n
      → (if b then x else y) ≡ list_depth rec (if b then v ∷ l else l) d n
  unfolding list_depth
  usable_step true v l d n x y p q = p
  usable_step false v l d n x y p q = q

  fields_depth-list :
      (l : Fields) (d n : ℕ) → fields_depth rec l d n ≡ list_depth rec (usable_list l) d n
  unfolding fields_depth list_depth
  fields_depth-list no_fields d n = refl
  fields_depth-list (field t v l) d n =
      usable_step (is_usable t) v (usable_list l) d n _ _
        (with_child_ext d (rec v n) _ _ (fields_depth-list l)) (fields_depth-list l d n)

  abbrev pub measure_children : Option (List GoValue) → ℕ → Option Measured
  measure_children none n = measured 0 false n
  measure_children (some l) n = one_more (list_depth rec l 0 n)

  bytes_step :
      (b : Bool) (l : List GoValue) (n : ℕ) (x : Option Measured)
      → x ≡ one_more (list_depth rec l 0 n)
      → (if b then measured 0 false n else x) ≡ measure_children (if b then none else some l) n
  bytes_step true l n x e = refl
  bytes_step false l n x e = e

  pub kind_depth-children :
      (v : GoValue) (n : ℕ) → kind_depth rec v n ≡ measure_children (children v) n
  unfolding kind_depth list_depth
  kind_depth-children (sequence t l) n =
      bytes_step t.is_byte_slice (items_list l) n _ (ap one_more (items_depth-list l 0 n))
  kind_depth-children (dict l) n = ap one_more (entries_depth-list l 0 n)
  kind_depth-children (struct l) n = ap one_more (fields_depth-list l 0 n)
  kind_depth-children (nil (nil_slice b)) n = bytes_step b [] n _ refl
  kind_depth-children (nil nil_map) n = refl
  kind_depth-children (nil _) n = refl
  kind_depth-children _ n = refl
