-- ===== src/Tree.antt =====
-- What an encoded value means, apart from memory and time: a tree of WAF values. `hole` is the object
-- without a type that stands for a value that could not be encoded.
pub mod Spec
pub mod Holds
pub mod ReadBack
pub mod Limits
pub mod Reports
mod Tests
use go_libddwaf.Base.{
  ℕ, zero, suc, ◌+◌, Bool, true, false, Option, none, some, List, [], ◌∷◌, ◌++◌, Text, take,
  text_eq, if◌then◌else◌, max,
}
use go_libddwaf.Base.Int.{ℤ}
use go_libddwaf.Errors.{unsupported_value}
use go_libddwaf.Decoder.{Decoded, ok, err, ◌>>=◌}
use go_libddwaf.Decoder.Objects.{Any, Anys, no_anys, any, Members, no_members, put}

mutual
  pub data Tree : Type 0 where
    hole null : Tree
    bool : Bool → Tree
    int : ℤ → Tree
    uint float : ℕ → Tree
    string : Text → Tree
    array map : Branches → Tree

  -- The elements of an array have the empty key.
  pub data Branches : Type 0 where
    no_branches : Branches
    branch : Text → Tree → Branches → Branches

abbrev pub Child : Type 0
Child = Text × Tree

abbrev pub branches : List Child → Branches
branches [] = no_branches
branches ((k, t) ∷ r) = branch k t (branches r)

abbrev pub count_branches : Branches → ℕ
count_branches no_branches = 0
count_branches (branch k t r) = suc (count_branches r)

-- The levels of nesting.
abbrev mutual
  pub height : Tree → ℕ
  height (array b) = suc (height_branches b)
  height (map b) = suc (height_branches b)
  height t = 0

  pub height_branches : Branches → ℕ
  height_branches no_branches = 0
  height_branches (branch k t r) = max (height t) (height_branches r)

-- What the decoder makes of a tree: an object without a type is an error.
unfoldable mutual
  pub read : Tree → Decoded Any
  read hole = err unsupported_value
  read null = ok Any.null
  read (bool b) = ok (Any.bool b)
  read (int z) = ok (Any.int z)
  read (uint n) = ok (Any.uint n)
  read (float n) = ok (Any.float n)
  read (string s) = ok (Any.string s)
  read (array b) = do l ← read_items b; ok (Any.array l)
  read (map b) = do l ← read_members b no_members; ok (Any.dict l)

  pub read_items : Branches → Decoded Anys
  read_items no_branches = ok no_anys
  read_items (branch k t r) = do v ← read t; l ← read_items r; ok (any v l)

  pub read_members : Branches → Members → Decoded Members
  read_members no_branches acc = ok acc
  read_members (branch k t r) acc = do v ← read t; read_members r (put k v acc)
