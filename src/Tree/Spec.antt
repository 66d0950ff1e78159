-- ===== src/Tree/Spec.antt =====
-- encoder.go, said without memory, timer or loop counters: the tree that a Go value stands for under
-- the limits of an encoder, `none` where it cannot be encoded.
use go_libddwaf.Base.{ℕ, zero, suc, Option, none, some, List, [], ◌∷◌, Text, take, if◌then◌else◌}
use go_libddwaf.Base.Int.{wrap64}
use go_libddwaf.GoValue.{
  GoValue, Items, no_items, item, Entries, no_entries, entry, Fields, no_fields, field,
}
use go_libddwaf.Encoder.{Setting, clip, resolve_pointer, indirection_limit}
use go_libddwaf.Encoder.Containers.{key_text, used_name}
use go_libddwaf.Tree.{Tree, hole, null, bool, int, uint, float, string, array, map, Child, branches}

-- Arrays leave out what has no impact on the WAF.
abbrev pub usable : Option Tree → Option Tree
usable none = none
usable (some hole) = none
usable (some null) = none
usable (some t) = some t

-- Maps keep the key of what cannot be encoded.
abbrev pub or_hole : Option Tree → Tree
or_hole none = hole
or_hole (some t) = t

abbrev pub cons_some : Option Tree → List Child → List Child
cons_some none l = l
cons_some (some t) l = ([], t) ∷ l

module _ (g : Setting) (f : GoValue → Option Tree) where
  unfoldable pub item_trees : Items → List Child
  item_trees no_items = []
  item_trees (item v r) = cons_some (usable (f v)) (item_trees r)

  abbrev pub cons_child : Option Text → Option Tree → List Child → List Child
  cons_child none t l = l
  cons_child (some k) t l = (clip g.string_max_size k, or_hole t) ∷ l

  unfoldable pub entry_trees : Entries → List Child
  entry_trees no_entries = []
  entry_trees (entry k v r) =
      cons_child (key_text (resolve_pointer g.heap indirection_limit k)) (f v) (entry_trees r)

  unfoldable pub field_trees : Fields → List Child
  field_trees no_fields = []
  field_trees (field t v r) = cons_child (used_name t) (f v) (field_trees r)

  -- The first `container_max_size` children are kept.
  unfoldable pub tree_of_container : GoValue → Option Tree
  unfolding item_trees entry_trees field_trees
  tree_of_container (GoValue.sequence t items) =
      some (array (branches (take g.container_max_size (item_trees items))))
  tree_of_container (GoValue.dict entries) =
      some (map (branches (take g.container_max_size (entry_trees entries))))
  tree_of_container (GoValue.struct fields) =
      some (map (branches (take g.container_max_size (field_trees fields))))
  tree_of_container v = none

module _ (g : Setting) (deeper : GoValue → Option Tree) where
  unfoldable pub tree_of_resolved : GoValue → Option Tree
  tree_of_resolved (GoValue.pointer a) = none
  tree_of_resolved (GoValue.interface v) = none
  tree_of_resolved GoValue.invalid = none
  tree_of_resolved (GoValue.nil k) = some null
  tree_of_resolved (GoValue.bool b) = some (bool b)
  tree_of_resolved (GoValue.int z) = some (int (wrap64 z))
  tree_of_resolved (GoValue.uint n) = some (uint n)
  tree_of_resolved (GoValue.float n) = some (float n)
  tree_of_resolved (GoValue.string s) = some (string (clip g.string_max_size s))
  tree_of_resolved (GoValue.sequence t items) =
      if t.elem_uint8 then some hole else deeper (GoValue.sequence t items)
  tree_of_resolved v = deeper v

-- The number is the depth that is left: without any, no container can be encoded.
unfoldable pub tree_of : Setting → ℕ → GoValue → Option Tree
unfolding tree_of_resolved tree_of_container
tree_of g zero v = tree_of_resolved g (λ w. none) (resolve_pointer g.heap indirection_limit v)
tree_of g (suc depth) v =
    tree_of_resolved g (tree_of_container g (tree_of g depth))
      (resolve_pointer g.heap indirection_limit v)
