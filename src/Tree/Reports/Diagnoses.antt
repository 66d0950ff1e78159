-- ===== src/Tree/Reports/Diagnoses.antt =====
-- decoder.go: the decoders that `decodeDiagnostics` calls, where the parts of a report are represented.
use go_libddwaf.Base.{
  ℕ, ◌≡◌, refl, ◌∙◌, sym, ap, Option, none, some, List, [], ◌∷◌, ◌++◌, Text, bytes, append-nil,
  append_assoc, subst, text_key, Distinct, Distinct-Lacks, insert-last,
}
use go_libddwaf.WafObject.{WafObject}
use go_libddwaf.Memory.{Memory}
use go_libddwaf.Diagnostics.{DiagnosticAddresses, DiagnosticEntry, no_addresses, no_entry}
use go_libddwaf.Decoder.{Decoded, ok, ◌>>=◌, string_of}
use go_libddwaf.Decoder.Reports.{
  decode_string_array, decode_errors, add_errors, decode_diagnostic_addresses, set_addresses,
  decode_diagnostics_entry, set_entry,
}
use go_libddwaf.Tree.{Tree, string, map}
use go_libddwaf.Tree.Holds.{Holds}
use go_libddwaf.Tree.ReadBack.{gostring-TextAt}
use go_libddwaf.Tree.Reports.{
  error_branches, texts_field, text_field, errors_field, addresses_tree, tree_field, entry_tree,
}
use go_libddwaf.Tree.Reports.Entries.{
  Folds, Shows, field-Folds, guard_map-Holds, decode_string_array-Holds,
}

-- A condition on what is there.
abbrev pub Each : {A : Type 0} → (A → Type 0) → Option A → Type 0
Each P none = Unit {0}
Each P (some a) = P a

Each-Unit : {A : Type 0} (x : Option A) → Each (λ a. Unit {0}) x
Each-Unit none = tt
Each-Unit (some a) = tt

module _ (lo : ℕ) (m : Memory) where
  string_of-Holds : (o : WafObject) (s : Text) → Holds lo m o (string s) → string_of m o ≡ ok s
  string_of-Holds o s h = gostring-TextAt lo m o.value o.nb_entries s h.1

  -- Each error is put behind those before it.
  errors-Folds :
      (before errors : List (Text × List Text))
      → Distinct (before ++ errors)
      → Folds lo m (add_errors m) (error_branches errors) before (before ++ errors)
  unfolding add_errors
  errors-Folds before [] d = sym (append-nil before)
  errors-Folds before ((k, ids) ∷ errors) d = (
    before ++ (k, ids) ∷ [],
    λ elem h.
        rw (decode_string_array-Holds lo m elem ids h)
          (ap ok (insert-last k ids before (Distinct-Lacks before k ids errors d))),
    subst (λ all. Folds lo m (add_errors m) (error_branches errors) (before ++ (k, ids) ∷ []) all)
        (append_assoc before ((k, ids) ∷ []) errors)
        (errors-Folds (before ++ (k, ids) ∷ []) errors
          (subst Distinct (sym (append_assoc before ((k, ids) ∷ []) errors)) d)),
  )

  decode_errors-Holds :
      (o : WafObject) (errors : List (Text × List Text))
      → Distinct errors
      → Holds lo m o (map (error_branches errors))
      → decode_errors m o ≡ ok errors
  unfolding decode_errors
  decode_errors-Holds o errors d h =
      guard_map-Holds lo m (add_errors m) o (error_branches errors) [] errors h
        (errors-Folds [] errors d)

  -- A field that is set to what is decoded.
  module _ {A : Type 0} (f : Text → WafObject → A → Decoded A) (key : Text) where
    texts-Shows :
        (with : List Text → A)
        → ((elem : WafObject)
            → f key elem (with []) ≡ (decode_string_array m elem >>= λ l. ok (with l)))
        → (l : List Text) → Shows lo m f key (texts_field l) (with []) (with l)
    texts-Shows with sets [] = refl
    texts-Shows with sets (s ∷ l) = λ elem h.
        sets elem ∙ ap (λ x. x >>= λ l. ok (with l)) (decode_string_array-Holds lo m elem (s ∷ l) h)

    pub text-Shows :
        (with : Text → A)
        → ((elem : WafObject) → f key elem (with []) ≡ (string_of m elem >>= λ s. ok (with s)))
        → (s : Text) → Shows lo m f key (text_field s) (with []) (with s)
    text-Shows with sets [] = refl
    text-Shows with sets (c ∷ s) =
        λ elem h. sets elem ∙ ap (λ x. x >>= λ s. ok (with s)) (string_of-Holds elem (c ∷ s) h)

    errors-Shows :
        (with : List (Text × List Text) → A)
        → ((elem : WafObject) → f key elem (with []) ≡ (decode_errors m elem >>= λ d. ok (with d)))
        → (errors : List (Text × List Text)) → Distinct errors
        → Shows lo m f key (errors_field errors) (with []) (with errors)
    errors-Shows with sets [] d = refl
    errors-Shows with sets (e ∷ errors) d = λ elem h.
        sets elem ∙ ap (λ x. x >>= λ l. ok (with l)) (decode_errors-Holds elem (e ∷ errors) d h)

    module _ {B : Type 0} (tree : B → Tree) (dec : WafObject → Decoded B) (P : B → Type 0)
        (reads : (b : B) (o : WafObject) → P b → Holds lo m o (tree b) → dec o ≡ ok b) where
      pub tree-Shows :
          (with : Option B → A)
          → ((elem : WafObject) → f key elem (with none) ≡ (dec elem >>= λ b. ok (with (some b))))
          → (x : Option B) → Each P x
          → Shows lo m f key (tree_field tree x) (with none) (with x)
      tree-Shows with sets none p = refl
      tree-Shows with sets (some b) p =
          λ elem h. sets elem ∙ ap (λ x. x >>= λ c. ok (with (some c))) (reads b elem p h)

  decode_diagnostic_addresses-Holds :
      (o : WafObject) (a : DiagnosticAddresses)
      → Holds lo m o (addresses_tree a)
      → decode_diagnostic_addresses m o ≡ ok a
  unfolding decode_diagnostic_addresses set_addresses
  decode_diagnostic_addresses-Holds o a h =
      let f = set_addresses m in
      guard_map-Holds lo m f o _ no_addresses a h (
        field-Folds lo m f (bytes "required") (texts_field a.required) _ _ _ _
          (texts-Shows f (bytes "required") (λ l. record { required = l; optional = [] })
            (λ elem. refl) a.required)
          (field-Folds lo m f (bytes "optional") (texts_field a.optional) _ _ _ _
            (texts-Shows f (bytes "optional") (λ l. record { required = a.required; optional = l })
              (λ elem. refl) a.optional)
            refl))

  entry_of :
      Option DiagnosticAddresses
      → List (Text × List Text)
      → Text
      → List Text
      → List Text
      → DiagnosticEntry
  entry_of a d s l f = record { addresses = a; errors = d; error = s; loaded = l; failed = f }

  pub decode_diagnostics_entry-Holds :
      (e : DiagnosticEntry) (o : WafObject)
      → Distinct e.errors
      → Holds lo m o (entry_tree e)
      → decode_diagnostics_entry m o ≡ ok e
  unfolding decode_diagnostics_entry set_entry entry_of
  decode_diagnostics_entry-Holds e o d h =
      let f = set_entry m in
      guard_map-Holds lo m f o _ no_entry e h (
        field-Folds lo m f (bytes "addresses") (tree_field addresses_tree e.addresses) _ _ _ _
          (tree-Shows f (bytes "addresses") addresses_tree (decode_diagnostic_addresses m)
            (λ a. Unit {0}) (λ a x p. decode_diagnostic_addresses-Holds x a)
            (λ a. entry_of a [] [] [] []) (λ elem. refl) e.addresses (Each-Unit e.addresses))
          (field-Folds lo m f (bytes "error") (text_field e.error) _ _ _ _
            (text-Shows f (bytes "error") (λ s. entry_of e.addresses [] s [] []) (λ elem. refl)
              e.error)
            (field-Folds lo m f (bytes "errors") (errors_field e.errors) _ _ _ _
              (errors-Shows f (bytes "errors") (λ d. entry_of e.addresses d e.error [] [])
                (λ elem. refl) e.errors d)
              (field-Folds lo m f (bytes "failed") (texts_field e.failed) _ _ _ _
                (texts-Shows f (bytes "failed") (λ l. entry_of e.addresses e.errors e.error [] l)
                  (λ elem. refl) e.failed)
                (field-Folds lo m f (bytes "loaded") (texts_field e.loaded) _ _ _ _
                  (texts-Shows f (bytes "loaded")
                    (λ l. entry_of e.addresses e.errors e.error l e.failed) (λ elem. refl) e.loaded)
                  refl)))))
