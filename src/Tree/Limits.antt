-- ===== src/Tree/Limits.antt =====
-- encoder.go: the trees of encoded values keep to the three limits of the encoder.
use go_libddwaf.Base.{
  ℕ, zero, suc, ◌≤◌, Option, none, some, List, [], ◌∷◌, Text, arith, length, take, length-take, ltb,
  Bool-cases, inl, inr, tests,
}
use go_libddwaf.GoValue.{
  GoValue, Items, no_items, item, Entries, no_entries, entry, Fields, no_fields, field,
}
use go_libddwaf.Encoder.{Setting, clip, resolve_pointer, indirection_limit}
use go_libddwaf.Tree.{
  Tree, hole, null, bool, int, uint, float, string, array, map, Branches, no_branches, branch,
  count_branches, Child, branches, height, height_branches,
}
use go_libddwaf.Tree.Spec.{
  usable, or_hole, cons_some, cons_child, item_trees, entry_trees, field_trees, tree_of,
  tree_of_resolved, tree_of_container,
}

-- At most `depth` levels, `c` children to a container, `n` bytes to a text or a key.
abbrev mutual
  pub Fits : (c n depth : ℕ) → Tree → Type 0
  Fits c n d (string s) = length s ≤ n
  Fits c n zero (array b) = ⊥
  Fits c n (suc d) (array b) = (count_branches b ≤ c) × AllFit c n d b
  Fits c n zero (map b) = ⊥
  Fits c n (suc d) (map b) = (count_branches b ≤ c) × AllFit c n d b
  Fits c n d t = Unit {0}

  pub AllFit : (c n depth : ℕ) → Branches → Type 0
  AllFit c n d no_branches = Unit {0}
  AllFit c n d (branch k t r) = (length k ≤ n) × Fits c n d t × AllFit c n d r

abbrev pub FitsIfAny : (c n depth : ℕ) → Option Tree → Type 0
FitsIfAny c n d none = Unit {0}
FitsIfAny c n d (some t) = Fits c n d t

-- A tree that fits is no higher than the depth.
mutual
  pub height-Fits : (c n d : ℕ) (t : Tree) → Fits c n d t → height t ≤ d
  height-Fits c n d hole h = omega arith
  height-Fits c n d null h = omega arith
  height-Fits c n d (bool b) h = omega arith
  height-Fits c n d (int z) h = omega arith
  height-Fits c n d (uint k) h = omega arith
  height-Fits c n d (float k) h = omega arith
  height-Fits c n d (string s) h = omega arith
  height-Fits c n zero (array b) h = absurd h
  height-Fits c n (suc d) (array b) h = omega (arith, height-AllFit c n d b h.1)
  height-Fits c n zero (map b) h = absurd h
  height-Fits c n (suc d) (map b) h = omega (arith, height-AllFit c n d b h.1)

  pub height-AllFit : (c n d : ℕ) (b : Branches) → AllFit c n d b → height_branches b ≤ d
  height-AllFit c n d no_branches h = omega arith
  height-AllFit c n d (branch k t r) h =
      omega (arith, height-Fits c n d t h.1, height-AllFit c n d r h.2)

pub length-clip : (n : ℕ) (s : Text) → length (clip n s) ≤ n
unfolding clip
length-clip n s = elim (Bool-cases (ltb n (length s))) [
  | inl e ↦ rw e (omega (arith, length-take n s))
  | inr e ↦ rw e (omega (tests, e))
]

count-take : (n : ℕ) (l : List Child) → count_branches (branches (take n l)) ≤ n
count-take zero l = omega arith
count-take (suc n) [] = omega arith
count-take (suc n) (x ∷ l) = omega (arith, count-take n l)

AllFit-take :
    (c n d k : ℕ) (l : List Child) → AllFit c n d (branches l) → AllFit c n d (branches (take k l))
AllFit-take c n d zero l h = tt
AllFit-take c n d (suc k) [] h = tt
AllFit-take c n d (suc k) (x ∷ l) h = (h.0, h.1, AllFit-take c n d k l h.2)

usable-Fits :
    (c n d : ℕ) (x : Option Tree) (l : List Child)
    → FitsIfAny c n d x
    → AllFit c n d (branches l)
    → AllFit c n d (branches (cons_some (usable x) l))
usable-Fits c n d none l h r = r
usable-Fits c n d (some hole) l h r = r
usable-Fits c n d (some null) l h r = r
usable-Fits c n d (some (bool b)) l h r = (omega arith, h, r)
usable-Fits c n d (some (int z)) l h r = (omega arith, h, r)
usable-Fits c n d (some (uint k)) l h r = (omega arith, h, r)
usable-Fits c n d (some (float k)) l h r = (omega arith, h, r)
usable-Fits c n d (some (string s)) l h r = (omega arith, h, r)
usable-Fits c n d (some (array b)) l h r = (omega arith, h, r)
usable-Fits c n d (some (map b)) l h r = (omega arith, h, r)

or_hole-Fits : (c n d : ℕ) (x : Option Tree) → FitsIfAny c n d x → Fits c n d (or_hole x)
or_hole-Fits c n d none h = tt
or_hole-Fits c n d (some t) h = h

module _ (g : Setting) (f : GoValue → Option Tree) (d : ℕ)
    (fits : (v : GoValue) → FitsIfAny g.container_max_size g.string_max_size d (f v)) where
  abbrev AllFitHere : List Child → Type 0
  AllFitHere l = AllFit g.container_max_size g.string_max_size d (branches l)

  child-AllFit :
      (k : Option Text) (v : GoValue) (l : List Child)
      → AllFitHere l
      → AllFitHere (cons_child g f k (f v) l)
  child-AllFit none v l h = h
  child-AllFit (some k) v l h =
      (length-clip g.string_max_size k, or_hole-Fits _ _ _ (f v) (fits v), h)

  items-AllFit : (l : Items) → AllFitHere (item_trees g f l)
  unfolding item_trees
  items-AllFit no_items = tt
  items-AllFit (item v r) = usable-Fits _ _ _ (f v) (item_trees g f r) (fits v) (items-AllFit r)

  entries-AllFit : (l : Entries) → AllFitHere (entry_trees g f l)
  unfolding entry_trees
  entries-AllFit no_entries = tt
  entries-AllFit (entry k v r) = child-AllFit _ v (entry_trees g f r) (entries-AllFit r)

  fields-AllFit : (l : Fields) → AllFitHere (field_trees g f l)
  unfolding field_trees
  fields-AllFit no_fields = tt
  fields-AllFit (field t v r) = child-AllFit _ v (field_trees g f r) (fields-AllFit r)

  container-Fits :
      (v : GoValue)
      → FitsIfAny g.container_max_size g.string_max_size (suc d) (tree_of_container g f v)
  unfolding tree_of_container
  container-Fits (GoValue.sequence t l) =
      (count-take _ (item_trees g f l), AllFit-take _ _ _ _ (item_trees g f l) (items-AllFit l))
  container-Fits (GoValue.dict l) =
      (count-take _ (entry_trees g f l), AllFit-take _ _ _ _ (entry_trees g f l) (entries-AllFit l))
  container-Fits (GoValue.struct l) =
      (count-take _ (field_trees g f l), AllFit-take _ _ _ _ (field_trees g f l) (fields-AllFit l))
  container-Fits _ = tt

resolved-Fits :
    (g : Setting) (deeper : GoValue → Option Tree) (d : ℕ)
    → ((v : GoValue) → FitsIfAny g.container_max_size g.string_max_size d (deeper v))
    → (v : GoValue)
    → FitsIfAny g.container_max_size g.string_max_size d (tree_of_resolved g deeper v)
unfolding tree_of_resolved
resolved-Fits g deeper d h (GoValue.string s) = length-clip g.string_max_size s
resolved-Fits g deeper d h (GoValue.sequence t l) = elim (Bool-cases t.elem_uint8) [
  | inl e ↦ simp e tt
  | inr e ↦ simp e (h (GoValue.sequence t l))
]
resolved-Fits g deeper d h (GoValue.dict l) = h (GoValue.dict l)
resolved-Fits g deeper d h (GoValue.struct l) = h (GoValue.struct l)
resolved-Fits g deeper d h GoValue.opaque = h GoValue.opaque
resolved-Fits g deeper d h _ = tt

-- Whatever the value, its tree is at most `depth` levels deep, no container has more than
-- `container_max_size` children, and no text or key is longer than `string_max_size` bytes.
pub tree_of-Fits :
    (g : Setting) (depth : ℕ) (v : GoValue)
    → FitsIfAny g.container_max_size g.string_max_size depth (tree_of g depth v)
unfolding tree_of
tree_of-Fits g zero v =
    resolved-Fits g (λ w. none) 0 (λ w. tt) (resolve_pointer g.heap indirection_limit v)
tree_of-Fits g (suc d) v =
    resolved-Fits g (tree_of_container g (tree_of g d)) (suc d)
      (container-Fits g (tree_of g d) d (tree_of-Fits g d))
      (resolve_pointer g.heap indirection_limit v)
