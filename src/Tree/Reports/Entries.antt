-- ===== src/Tree/Reports/Entries.antt =====
-- decoder.go: the loops of the decoders of reports, where the entries represent trees.
use go_libddwaf.Base.{
  ℕ, suc, ◌≡◌, refl, sym, ◌∙◌, ap, subst, false, ◌&&◌, Option, none, some, List, [], ◌∷◌, ◌++◌,
  Text, arith, ltb, length, get_elem?, append_assoc, append-nil, length-append, ◌==◌, inl, inr,
}
use go_libddwaf.WafObject.{WafObject}
use go_libddwaf.Memory.{Memory, objects}
use go_libddwaf.Decoder.{Decoded, ok}
use go_libddwaf.Decoder.Reports.{guard_map, string_array_from, decode_string_array, fold_entries}
use go_libddwaf.Tree.{Tree, map, Branches, no_branches, branch, count_branches}
use go_libddwaf.Tree.Holds.{ArrayAt, Holds, Elems}
use go_libddwaf.Tree.ReadBack.{gostring-TextAt, cast-middle}
use go_libddwaf.Tree.Reports.{text_branches, texts_tree, field}

module _ (lo : ℕ) (m : Memory) where
  -- The guard against an address that is missing.
  not_nil_ptr :
      (a n : ℕ) (b : Branches) (os : List WafObject)
      → n ≡ count_branches b
      → ArrayAt lo m a os
      → Elems lo m os b
      → (a == 0 && ltb 0 n) ≡ false
  not_nil_ptr a n no_branches os e at es = ground (arith, e)
  not_nil_ptr a n (branch key t r) os e (inl x) es =
      absurd (subst (λ l. Elems lo m l (branch key t r)) x es)
  not_nil_ptr a n (branch key t r) os e (inr (k, x, b, at)) es = ground (arith, x)

  module _ {A : Type 0} (f : Text → WafObject → A → Decoded A) where
    -- What the entries do to the result, one after the other.
    abbrev pub Folds : Branches → A → A → Type 0
    Folds no_branches acc last = acc ≡ last
    Folds (branch key t rest) acc last =
        (next : A) × ((elem : WafObject) → Holds lo m elem t → f key elem acc ≡ ok next)
        × Folds rest next last

    fold_entries-at :
        (k : ℕ) (b : Branches) (i : ℕ) (front os : List WafObject) (acc last : A)
        → length front ≡ i
        → get_elem? m k ≡ some (objects (front ++ os))
        → Elems lo m os b
        → Folds b acc last
        → fold_entries m f (suc k) (count_branches b) i acc ≡ ok last
    unfolding fold_entries
    fold_entries-at k no_branches i front os acc last e at es h = ap ok h
    fold_entries-at k (branch key t r) i front [] acc last e at es h = absurd es
    fold_entries-at k (branch key t r) i front (o ∷ os) acc last e at es (next, h, rest) =
        rw
          (
            ← e,
            cast-middle lo m k front os o at,
            gostring-TextAt lo m o.parameter_name o.parameter_name_length key es.0,
            h o es.1,
          )
          (fold_entries-at k r (suc (length front)) (front ++ o ∷ []) os next last
            (omega (arith, length-append front (o ∷ []))) (rw (append_assoc front (o ∷ []) os) at)
            es.2 rest)

    fold_entries-ArrayAt :
        (a : ℕ) (b : Branches) (os : List WafObject) (acc last : A)
        → ArrayAt lo m a os
        → Elems lo m os b
        → Folds b acc last
        → fold_entries m f a (count_branches b) 0 acc ≡ ok last
    unfolding fold_entries
    fold_entries-ArrayAt a no_branches os acc last at es h = ap ok h
    fold_entries-ArrayAt a (branch key t r) os acc last (inl e) es h =
        absurd (subst (λ l. Elems lo m l (branch key t r)) e es)
    fold_entries-ArrayAt a (branch key t r) os acc last (inr (k, e, b, at)) es h =
        subst (λ p. fold_entries m f p (count_branches (branch key t r)) 0 acc ≡ ok last) (sym e)
          (fold_entries-at k (branch key t r) 0 [] os acc last refl at es h)

    -- The decoders of maps, behind their guards.
    pub guard_map-Holds :
        (o : WafObject) (b : Branches) (acc last : A)
        → Holds lo m o (map b)
        → Folds b acc last
        → guard_map o (fold_entries m f o.value o.nb_entries 0 acc) ≡ ok last
    guard_map-Holds o b acc last (os, ty, n, at, es) h =
        let fine = not_nil_ptr o.value o.nb_entries b os n at es in
        let right = fold_entries-ArrayAt o.value b os acc last at es h in
        rw ty (rw fine (rw n right))

    -- One field, there or not.
    abbrev pub Shows : Text → Option Tree → A → A → Type 0
    Shows key none acc next = acc ≡ next
    Shows key (some t) acc next = (elem : WafObject) → Holds lo m elem t → f key elem acc ≡ ok next

    pub field-Folds :
        (key : Text) (x : Option Tree) (rest : Branches) (acc next last : A)
        → Shows key x acc next
        → Folds rest next last
        → Folds (field key x rest) acc last
    field-Folds key none rest acc next last e h = subst (λ a. Folds rest a last) (sym e) h
    field-Folds key (some t) rest acc next last s h = (next, s, h)

  string_array_from-at :
      (k : ℕ) (l : List Text) (i : ℕ) (front os : List WafObject) (strs : List Text)
      → length front ≡ i
      → get_elem? m k ≡ some (objects (front ++ os))
      → Elems lo m os (text_branches l)
      → string_array_from m (suc k) (count_branches (text_branches l)) i strs ≡ ok (strs ++ l)
  unfolding string_array_from
  string_array_from-at k [] i front os strs e at es = ap ok (sym (append-nil strs))
  string_array_from-at k (s ∷ l) i front [] strs e at es = absurd es
  string_array_from-at k (s ∷ l) i front (o ∷ os) strs e at es =
      rw
        (
          ← e,
          cast-middle lo m k front os o at,
          es.1.0,
          gostring-TextAt lo m o.value o.nb_entries s es.1.1,
        )
        (string_array_from-at k l (suc (length front)) (front ++ o ∷ []) os (strs ++ s ∷ [])
            (omega (arith, length-append front (o ∷ []))) (rw (append_assoc front (o ∷ []) os) at)
            es.2
          ∙ ap ok (append_assoc strs (s ∷ []) l))

  string_array_from-ArrayAt :
      (a : ℕ) (l : List Text) (os : List WafObject)
      → ArrayAt lo m a os
      → Elems lo m os (text_branches l)
      → string_array_from m a (count_branches (text_branches l)) 0 [] ≡ ok l
  unfolding string_array_from
  string_array_from-ArrayAt a [] os at es = refl
  string_array_from-ArrayAt a (s ∷ l) os (inl e) es =
      absurd (subst (λ x. Elems lo m x (text_branches (s ∷ l))) e es)
  string_array_from-ArrayAt a (s ∷ l) os (inr (k, e, b, at)) es =
      subst (λ p. string_array_from m p (count_branches (text_branches (s ∷ l))) 0 [] ≡ ok (s ∷ l))
        (sym e) (string_array_from-at k (s ∷ l) 0 [] os [] refl at es)

  pub decode_string_array-Holds :
      (o : WafObject) (l : List Text) → Holds lo m o (texts_tree l) → decode_string_array m o ≡ ok l
  unfolding decode_string_array
  decode_string_array-Holds o l (os, ty, n, at, es) =
      let fine = not_nil_ptr o.value o.nb_entries (text_branches l) os n at es in
      rw ty (rw fine (rw n (string_array_from-ArrayAt o.value l os at es)))
