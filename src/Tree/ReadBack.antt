-- ===== src/Tree/ReadBack.antt =====
-- decoder.go: what `decodeObject` reads where a tree is represented.
use go_libddwaf.Base.{
  ℕ, zero, suc, ◌<◌, ◌≡◌, refl, sym, ap, subst, true, some, List, [], ◌∷◌, ◌++◌, Text, arith,
  length, take_all, get_elem?, get_elem?-middle, append_assoc, length-append, leb, inl, inr,
}
use mathlib.Core.Path.{fun_ext}
use go_libddwaf.WafObject.{WafObject}
use go_libddwaf.Memory.{Memory, objects}
use go_libddwaf.Decoder.{Decoded, ok, ◌>>=◌, gostring_sized, cast_with_offset}
use go_libddwaf.Decoder.Objects.{
  Any, any, Members, no_members, put, array_from, map_from, decode_object,
}
use go_libddwaf.Tree.{
  Tree, hole, null, bool, int, uint, float, string, array, map, Branches, no_branches, branch,
  count_branches, height, height_branches, read, read_items, read_members,
}
use go_libddwaf.Tree.Holds.{TextAt, ArrayAt, Holds, Elems}

module _ (lo : ℕ) (m : Memory) where
  pub gostring-TextAt : (a n : ℕ) (s : Text) → TextAt lo m a n s → gostring_sized m a n ≡ ok s
  unfolding gostring_sized
  gostring-TextAt a n [] e = rw e
  gostring-TextAt a n (c ∷ s) (k, e, b, at, len) =
      let fits : leb n (length (c ∷ s)) ≡ true = ground arith in
      rw e (
        rw at (
          rw (fits, len)
            (ap {B = Decoded Text} ok (take_all (length (c ∷ s)) (c ∷ s) (omega arith)))))

  pub cast-middle :
      (k : ℕ) (front rest : List WafObject) (o : WafObject)
      → get_elem? m k ≡ some (objects (front ++ o ∷ rest))
      → cast_with_offset m (suc k) (length front) ≡ ok o
  unfolding cast_with_offset
  cast-middle k front rest o at = rw at (rw (get_elem?-middle front rest o))

  module _ (dec : WafObject → Decoded Any) (h : ℕ)
      (reads : (t : Tree) (o : WafObject) → height t < h → Holds lo m o t → dec o ≡ read t) where
    array_from-Elems :
        (k : ℕ) (b : Branches) (i : ℕ) (front os : List WafObject)
        → length front ≡ i
        → height_branches b < h
        → get_elem? m k ≡ some (objects (front ++ os))
        → Elems lo m os b
        → array_from m dec (suc k) (count_branches b) i ≡ read_items b
    unfolding array_from read
    array_from-Elems k no_branches i front os e d at es = refl
    array_from-Elems k (branch key t r) i front [] e d at es = absurd es
    array_from-Elems k (branch key t r) i front (o ∷ os) e d at es =
        rw (← e, cast-middle k front os o at, reads t o (omega arith) es.1)
          (ap (λ l. read t >>= λ v. l >>= λ w. ok (any v w))
            (array_from-Elems k r (suc (length front)) (front ++ o ∷ []) os
              (omega (arith, length-append front (o ∷ []))) (omega arith)
              (rw (append_assoc front (o ∷ []) os) at) es.2))

    map_from-Elems :
        (k : ℕ) (b : Branches) (i : ℕ) (front os : List WafObject) (acc : Members)
        → length front ≡ i
        → height_branches b < h
        → get_elem? m k ≡ some (objects (front ++ os))
        → Elems lo m os b
        → map_from m dec (suc k) (count_branches b) i acc ≡ read_members b acc
    unfolding map_from read
    map_from-Elems k no_branches i front os acc e d at es = refl
    map_from-Elems k (branch key t r) i front [] acc e d at es = absurd es
    map_from-Elems k (branch key t r) i front (o ∷ os) acc e d at es =
        rw
          (
            ← e,
            cast-middle k front os o at,
            gostring-TextAt o.parameter_name o.parameter_name_length key es.0,
            reads t o (omega arith) es.1,
          )
          (ap (λ l. read t >>= l)
            (fun_ext λ v.
              map_from-Elems k r (suc (length front)) (front ++ o ∷ []) os (put key v acc)
                (omega (arith, length-append front (o ∷ []))) (omega arith)
                (rw (append_assoc front (o ∷ []) os) at) es.2))

    array_from-ArrayAt :
        (b : Branches) (a : ℕ) (os : List WafObject)
        → height_branches b < h
        → ArrayAt lo m a os
        → Elems lo m os b
        → array_from m dec a (count_branches b) 0 ≡ read_items b
    unfolding array_from read
    array_from-ArrayAt no_branches a os d at es = refl
    array_from-ArrayAt (branch key t r) a os d (inl e) es =
        absurd (subst (λ l. Elems lo m l (branch key t r)) e es)
    array_from-ArrayAt (branch key t r) a os d (inr (k, e, b, at)) es =
        subst
          (λ p.
            array_from m dec p (count_branches (branch key t r)) 0 ≡ read_items (branch key t r))
          (sym e) (array_from-Elems k (branch key t r) 0 [] os refl d at es)

    map_from-ArrayAt :
        (b : Branches) (a : ℕ) (os : List WafObject)
        → height_branches b < h
        → ArrayAt lo m a os
        → Elems lo m os b
        → map_from m dec a (count_branches b) 0 no_members ≡ read_members b no_members
    unfolding map_from read
    map_from-ArrayAt no_branches a os d at es = refl
    map_from-ArrayAt (branch key t r) a os d (inl e) es =
        absurd (subst (λ l. Elems lo m l (branch key t r)) e es)
    map_from-ArrayAt (branch key t r) a os d (inr (k, e, b, at)) es =
        subst
          (λ p.
            map_from m dec p (count_branches (branch key t r)) 0 no_members
            ≡ read_members (branch key t r) no_members)
          (sym e) (map_from-Elems k (branch key t r) 0 [] os no_members refl d at es)

  -- With fuel for its height, an object that represents a tree is read as that tree.
  pub decode_object-Holds :
      (fuel : ℕ) (t : Tree) (o : WafObject)
      → height t < fuel
      → Holds lo m o t
      → decode_object m fuel o ≡ read t
  unfolding decode_object read
  decode_object-Holds zero t o d h = absurd (omega arith)
  decode_object-Holds (suc fuel) hole o d h = rw h
  decode_object-Holds (suc fuel) null o d h = rw h
  decode_object-Holds (suc fuel) (bool b) o d h = rw (h.0, h.1)
  decode_object-Holds (suc fuel) (int z) o d h = rw (h.0, h.1)
  decode_object-Holds (suc fuel) (uint n) o d h = rw (h.0, h.1)
  decode_object-Holds (suc fuel) (float n) o d h = rw (h.0, h.1)
  decode_object-Holds (suc fuel) (string s) o d h =
      rw (h.0, gostring-TextAt o.value o.nb_entries s h.1)
  decode_object-Holds (suc fuel) (array b) o d (os, ty, n, at, es) =
      rw (ty, n)
        (ap (λ l. l >>= λ x. ok (Any.array x))
          (array_from-ArrayAt (decode_object m fuel) fuel (decode_object-Holds fuel) b o.value os
            (omega arith) at es))
  decode_object-Holds (suc fuel) (map b) o d (os, ty, n, at, es) =
      rw (ty, n)
        (ap (λ l. l >>= λ x. ok (Any.dict x))
          (map_from-ArrayAt (decode_object m fuel) fuel (decode_object-Holds fuel) b o.value os
            (omega arith) at es))
