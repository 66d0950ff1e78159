-- ===== src/Tree/Holds.antt =====
-- When an object in memory represents a tree, and which writes leave that so.
use go_libddwaf.Base.{
  ℕ, suc, ◌≤◌, ◌≡◌, ◌∙◌, ◌⊎◌, inl, inr, some, List, [], ◌∷◌, ◌++◌, Text, arith, length, get_elem?,
  get_elem?_lt,
}
use go_libddwaf.WafObject.{
  WafObject, waf_invalid_type, waf_nil_type, waf_bool_type, waf_int_type, waf_uint_type,
  waf_float_type, waf_string_type, waf_array_type, waf_map_type,
}
use go_libddwaf.Memory.{Memory, chars, objects}
use go_libddwaf.Memory.Growth.{Same}
use go_libddwaf.Decoder.Objects.{signed_word, bool_of_word}
use go_libddwaf.Tree.{
  Tree, hole, null, bool, int, uint, float, string, array, map, Branches, no_branches, branch,
  count_branches, Child, branches,
}

-- A text of `n` bytes at address `a`, in a block from `lo` on; the empty text has no block.
abbrev pub TextAt : ℕ → Memory → ℕ → ℕ → Text → Type 0
TextAt lo m a n [] = a ≡ 0
TextAt lo m a n (c ∷ s) =
    (k : ℕ) × (a ≡ suc k) × (lo ≤ k) × (get_elem? m k ≡ some (chars (c ∷ s))) × (n ≡ length (c ∷ s))

-- The array `os` at address `a`, in a block from `lo` on; the empty array may have no block.
abbrev pub ArrayAt : ℕ → Memory → ℕ → List WafObject → Type 0
ArrayAt lo m a os =
    (os ≡ []) ⊎ ((k : ℕ) × (a ≡ suc k) × (lo ≤ k) × (get_elem? m k ≡ some (objects os)))

abbrev mutual
  pub Holds : ℕ → Memory → WafObject → Tree → Type 0
  Holds lo m o hole = o.type ≡ waf_invalid_type
  Holds lo m o null = o.type ≡ waf_nil_type
  Holds lo m o (bool b) = (o.type ≡ waf_bool_type) × (bool_of_word o.value ≡ b)
  Holds lo m o (int z) = (o.type ≡ waf_int_type) × (signed_word o.value ≡ z)
  Holds lo m o (uint n) = (o.type ≡ waf_uint_type) × (o.value ≡ n)
  Holds lo m o (float n) = (o.type ≡ waf_float_type) × (o.value ≡ n)
  Holds lo m o (string s) = (o.type ≡ waf_string_type) × TextAt lo m o.value o.nb_entries s
  Holds lo m o (array b) =
      (os : List WafObject) × (o.type ≡ waf_array_type)
      × (o.nb_entries ≡ count_branches b)
      × ArrayAt lo m o.value os
      × Elems lo m os b
  Holds lo m o (map b) =
      (os : List WafObject) × (o.type ≡ waf_map_type)
      × (o.nb_entries ≡ count_branches b)
      × ArrayAt lo m o.value os
      × Elems lo m os b

  -- The array begins with the children.
  pub Elems : ℕ → Memory → List WafObject → Branches → Type 0
  Elems lo m os no_branches = Unit {0}
  Elems lo m [] (branch key t r) = ⊥
  Elems lo m (o ∷ os) (branch key t r) =
      TextAt lo m o.parameter_name o.parameter_name_length key × Holds lo m o t × Elems lo m os r

-- Representation survives whatever leaves the blocks from `lo` on as they are.
module _ {lo lo' : ℕ} (low : lo' ≤ lo) {m m' : Memory} (s : Same lo m m') where
  pub TextAt-Same : (a n : ℕ) (str : Text) → TextAt lo m a n str → TextAt lo' m' a n str
  TextAt-Same a n [] h = h
  TextAt-Same a n (c ∷ str) (k, e, b, at, len) =
      (k, e, omega arith, s.same k b (get_elem?_lt m k _ at) ∙ at, len)

  pub ArrayAt-Same : (a : ℕ) (os : List WafObject) → ArrayAt lo m a os → ArrayAt lo' m' a os
  ArrayAt-Same a os (inl e) = inl e
  ArrayAt-Same a os (inr (k, e, b, at)) =
      inr (k, e, omega arith, s.same k b (get_elem?_lt m k _ at) ∙ at)

  mutual
    pub Holds-Same : (t : Tree) (o : WafObject) → Holds lo m o t → Holds lo' m' o t
    Holds-Same hole o h = h
    Holds-Same null o h = h
    Holds-Same (bool b) o h = h
    Holds-Same (int z) o h = h
    Holds-Same (uint n) o h = h
    Holds-Same (float n) o h = h
    Holds-Same (string str) o h = (h.0, TextAt-Same o.value o.nb_entries str h.1)
    Holds-Same (array b) o (os, ty, n, at, es) =
        (os, ty, n, ArrayAt-Same o.value os at, Elems-Same b os es)
    Holds-Same (map b) o (os, ty, n, at, es) =
        (os, ty, n, ArrayAt-Same o.value os at, Elems-Same b os es)

    pub Elems-Same : (b : Branches) (os : List WafObject) → Elems lo m os b → Elems lo' m' os b
    Elems-Same no_branches os h = tt
    Elems-Same (branch key t r) [] h = absurd h
    Elems-Same (branch key t r) (o ∷ os) h = (
      TextAt-Same o.parameter_name o.parameter_name_length key h.0,
      Holds-Same t o h.1,
      Elems-Same r os h.2,
    )

-- The elements that are kept, followed by anything.
pub Elems-append :
    (lo : ℕ) (m : Memory) (os rest : List WafObject) (l : List Child)
    → Elems lo m os (branches l)
    → Elems lo m (os ++ rest) (branches l)
Elems-append lo m os rest [] h = tt
Elems-append lo m [] rest (c ∷ l) h = absurd h
Elems-append lo m (o ∷ os) rest (c ∷ l) h = (h.0, h.1, Elems-append lo m os rest l h.2)

-- One more element, behind as many as are kept.
pub Elems-snoc :
    (lo : ℕ) (m : Memory) (os : List WafObject) (o : WafObject) (l : List Child) (key : Text)
    (t : Tree)
    → length os ≡ length l
    → Elems lo m os (branches l)
    → TextAt lo m o.parameter_name o.parameter_name_length key
    → Holds lo m o t
    → Elems lo m (os ++ o ∷ []) (branches (l ++ (key, t) ∷ []))
Elems-snoc lo m [] o [] key t e h k v = (k, v, tt)
Elems-snoc lo m [] o (c ∷ l) key t e h k v = absurd h
Elems-snoc lo m (x ∷ os) o [] key t e h k v = absurd (omega arith)
Elems-snoc lo m (x ∷ os) o (c ∷ l) key t e h k v =
    (h.0, h.1, Elems-snoc lo m os o l key t (omega arith) h.2 k v)
