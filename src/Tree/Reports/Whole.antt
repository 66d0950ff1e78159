-- ===== src/Tree/Reports/Whole.antt =====
-- decoder.go: `decodeDiagnostics`, where a report is represented.
use go_libddwaf.Base.{ℕ, ◌≡◌, refl, Option, none, some, [], Text, bytes, text_key, Distinct}
use go_libddwaf.WafObject.{WafObject}
use go_libddwaf.Memory.{Memory}
use go_libddwaf.Diagnostics.{DiagnosticEntry, Diagnostics, no_diagnostics}
use go_libddwaf.Decoder.{ok, ◌>>=◌}
use go_libddwaf.Decoder.Reports.{decode_diagnostics_entry, decode_diagnostics, set_diagnostics}
use go_libddwaf.Tree.{Branches}
use go_libddwaf.Tree.Holds.{Holds}
use go_libddwaf.Tree.Reports.{field, text_field, entry_tree, entry_field, report}
use go_libddwaf.Tree.Reports.Entries.{Folds, field-Folds, guard_map-Holds}
use go_libddwaf.Tree.Reports.Diagnoses.{
  Each, text-Shows, tree-Shows, decode_diagnostics_entry-Holds,
}

-- The messages of an entry's errors are distinct, as the keys of a Go map are.
abbrev pub EntryOk : DiagnosticEntry → Type 0
EntryOk e = Distinct e.errors

pub record ReportOk (d : Diagnostics) : Type 0 where
  pub rules : Each EntryOk d.rules
  pub custom_rules : Each EntryOk d.custom_rules
  pub exclusions : Each EntryOk d.exclusions
  pub rules_overrides : Each EntryOk d.rules_overrides
  pub rules_data : Each EntryOk d.rules_data
  pub processors : Each EntryOk d.processors
  pub scanners : Each EntryOk d.scanners

abbrev Slot : Type 0
Slot = Option DiagnosticEntry

-- Diagnostics, in the order of the report.
abbrev parts : Slot → Slot → Slot → Slot → Slot → Slot → Slot → Text → Diagnostics
parts custom excl rules data_ over proc scan version = record {
  rules = rules;
  custom_rules = custom;
  exclusions = excl;
  rules_overrides = over;
  rules_data = data_;
  processors = proc;
  scanners = scan;
  version = version;
}

module _ (lo : ℕ) (m : Memory) where
  -- One entry and the rest.
  entry-Folds :
      (key : Text) (with : Slot → Diagnostics) (rest : Branches) (last : Diagnostics)
      → ((elem : WafObject)
          → set_diagnostics m key elem (with none)
            ≡ (decode_diagnostics_entry m elem >>= λ e. ok (with (some e))))
      → (x : Slot) → Each EntryOk x
      → Folds lo m (set_diagnostics m) rest (with x) last
      → Folds lo m (set_diagnostics m) (field key (entry_field x) rest) (with none) last
  entry-Folds key with rest last sets x p =
      field-Folds lo m (set_diagnostics m) key (entry_field x) rest (with none) (with x) last (
        tree-Shows lo m (set_diagnostics m) key entry_tree (decode_diagnostics_entry m) EntryOk
          (λ e o q h. decode_diagnostics_entry-Holds lo m e o q h) with sets x p)

  -- Wherever in memory an object represents the report of diagnostics whose error messages are distinct in
  -- each entry, `decodeDiagnostics` returns these diagnostics.
  pub decode_diagnostics-Holds :
      (d : Diagnostics) (o : WafObject)
      → ReportOk d
      → Holds lo m o (report d)
      → decode_diagnostics m o ≡ ok d
  unfolding decode_diagnostics set_diagnostics
  decode_diagnostics-Holds d o v h =
      guard_map-Holds lo m (set_diagnostics m) o _ no_diagnostics d h (
        entry-Folds (bytes "custom_rules") (λ x. parts x none none none none none none []) _ d
          (λ elem. refl) d.custom_rules v.custom_rules
          (entry-Folds (bytes "exclusions")
            (λ x. parts d.custom_rules x none none none none none []) _ d (λ elem. refl)
            d.exclusions v.exclusions
            (entry-Folds (bytes "rules")
              (λ x. parts d.custom_rules d.exclusions x none none none none []) _ d (λ elem. refl)
              d.rules v.rules
              (entry-Folds (bytes "rules_data")
                (λ x. parts d.custom_rules d.exclusions d.rules x none none none []) _ d
                (λ elem. refl) d.rules_data v.rules_data
                (entry-Folds (bytes "rules_override")
                  (λ x. parts d.custom_rules d.exclusions d.rules d.rules_data x none none []) _ d
                  (λ elem. refl) d.rules_overrides v.rules_overrides
                  (entry-Folds (bytes "processors")
                    (λ x.
                      parts d.custom_rules d.exclusions d.rules d.rules_data d.rules_overrides x
                        none [])
                    _ d (λ elem. refl) d.processors v.processors
                    (entry-Folds (bytes "scanners")
                      (λ x.
                        parts d.custom_rules d.exclusions d.rules d.rules_data d.rules_overrides
                          d.processors x [])
                      _ d (λ elem. refl) d.scanners v.scanners
                      (field-Folds lo m (set_diagnostics m) (bytes "ruleset_version")
                        (text_field d.version) _ _ _ _
                        (text-Shows lo m (set_diagnostics m) (bytes "ruleset_version")
                          (λ x.
                            parts d.custom_rules d.exclusions d.rules d.rules_data d.rules_overrides
                              d.processors d.scanners x)
                          (λ elem. refl) d.version)
                        refl))))))))
