-- ===== src/Tree/Reports.antt =====
-- The specification of the ruleset reports that decoder.go reads: the tree that stands for diagnostics.
-- A field that is empty is left out.
pub mod Entries
pub mod Diagnoses
pub mod Whole
mod Tests
use go_libddwaf.Base.{Option, none, some, List, [], ◌∷◌, Text, bytes}
use go_libddwaf.Diagnostics.{DiagnosticAddresses, DiagnosticEntry, Diagnostics}
use go_libddwaf.Tree.{Tree, string, array, map, Branches, no_branches, branch}

abbrev pub text_branches : List Text → Branches
text_branches [] = no_branches
text_branches (s ∷ l) = branch [] (string s) (text_branches l)

abbrev pub texts_tree : List Text → Tree
texts_tree l = array (text_branches l)

abbrev pub error_branches : List (Text × List Text) → Branches
error_branches [] = no_branches
error_branches ((message, ids) ∷ errors) = branch message (texts_tree ids) (error_branches errors)

-- A field with its key, if it is there.
abbrev pub field : Text → Option Tree → Branches → Branches
field key none rest = rest
field key (some t) rest = branch key t rest

abbrev pub texts_field : List Text → Option Tree
texts_field [] = none
texts_field (s ∷ l) = some (texts_tree (s ∷ l))

abbrev pub text_field : Text → Option Tree
text_field [] = none
text_field (c ∷ s) = some (string (c ∷ s))

abbrev pub errors_field : List (Text × List Text) → Option Tree
errors_field [] = none
errors_field (e ∷ errors) = some (map (error_branches (e ∷ errors)))

abbrev pub addresses_tree : DiagnosticAddresses → Tree
addresses_tree a = map (
    field (bytes "required") (texts_field a.required)
      (field (bytes "optional") (texts_field a.optional) no_branches))

abbrev pub tree_field : {A : Type 0} → (A → Tree) → Option A → Option Tree
tree_field tree none = none
tree_field tree (some a) = some (tree a)

abbrev pub entry_tree : DiagnosticEntry → Tree
entry_tree e = map (
    field (bytes "addresses") (tree_field addresses_tree e.addresses) (
      field (bytes "error") (text_field e.error) (
        field (bytes "errors") (errors_field e.errors) (
          field (bytes "failed") (texts_field e.failed)
            (field (bytes "loaded") (texts_field e.loaded) no_branches)))))

abbrev pub entry_field : Option DiagnosticEntry → Option Tree
entry_field = tree_field entry_tree

abbrev pub report : Diagnostics → Tree
report d = map (
    field (bytes "custom_rules") (entry_field d.custom_rules) (
      field (bytes "exclusions") (entry_field d.exclusions) (
        field (bytes "rules") (entry_field d.rules) (
          field (bytes "rules_data") (entry_field d.rules_data) (
            field (bytes "rules_override") (entry_field d.rules_overrides) (
              field (bytes "processors") (entry_field d.processors) (
                field (bytes "scanners") (entry_field d.scanners)
                  (field (bytes "ruleset_version") (text_field d.version) no_branches))))))))
