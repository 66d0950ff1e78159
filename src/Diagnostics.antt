-- ===== src/Diagnostics.antt =====
-- waf.go: the diagnostics that libddwaf reports about a ruleset.
use go_libddwaf.Base.{Option, none, some, List, [], ◌∷◌, ◌++◌, Text, bytes, text_eq, if◌then◌else◌}

pub record DiagnosticAddresses : Type 0 where
  pub required : List Text
  pub optional : List Text

-- `errors` is a Go map from the message to the entities in error, as an association list.
pub record DiagnosticEntry : Type 0 where
  pub addresses : Option DiagnosticAddresses
  pub errors : List (Text × List Text)
  pub error : Text
  pub loaded : List Text
  pub failed : List Text

pub record Diagnostics : Type 0 where
  pub rules : Option DiagnosticEntry
  pub custom_rules : Option DiagnosticEntry
  pub exclusions : Option DiagnosticEntry
  pub rules_overrides : Option DiagnosticEntry
  pub rules_data : Option DiagnosticEntry
  pub processors : Option DiagnosticEntry
  pub scanners : Option DiagnosticEntry
  pub version : Text

-- The zero values of the three structs.
abbrev pub no_addresses : DiagnosticAddresses
no_addresses = record { required = []; optional = [] }

abbrev pub no_entry : DiagnosticEntry
no_entry = record { addresses = none; errors = []; error = []; loaded = []; failed = [] }

abbrev pub no_diagnostics : Diagnostics
no_diagnostics = record {
  rules = none;
  custom_rules = none;
  exclusions = none;
  rules_overrides = none;
  rules_data = none;
  processors = none;
  scanners = none;
  version = [];
}

-- An entry with a non-empty `Error` adds one error, named after its field.
field_error : Text → Option DiagnosticEntry → List (Text × Text)
field_error field none = []
field_error field (some entry) = if text_eq entry.error [] then [] else (field, entry.error) ∷ []

-- The rolled-up errors of `TopLevelError`; the empty list is its nil. Go iterates over `fields`
-- in no fixed order: here it is the order of the literal.
unfoldable pub top_level_error : Diagnostics → List (Text × Text)
unfolding field_error
top_level_error d =
    field_error (bytes "rules") d.rules
    ++ (field_error (bytes "custom_rules") d.custom_rules
        ++ (field_error (bytes "exclusions") d.exclusions
            ++ (field_error (bytes "rules_override") d.rules_overrides
                ++ (field_error (bytes "rules_data") d.rules_data
                    ++ (field_error (bytes "processors") d.processors
                        ++ field_error (bytes "scanners") d.scanners)))))
