-- ===== src/Tree/Reports/Tests.antt =====
-- decoder.go: a report in memory, and the witness of the theorem.
use go_libddwaf.Base.{◌≡◌, refl, inr, some, [], ◌∷◌, bytes, arith, text_key}
use go_libddwaf.WafObject.{WafObject, zero_object, waf_string_type, waf_array_type, waf_map_type}
use go_libddwaf.Memory.{Memory, chars, objects}
use go_libddwaf.Diagnostics.{Diagnostics, no_entry, no_diagnostics}
use go_libddwaf.Decoder.{ok, cast_with_offset, gostring_sized}
use go_libddwaf.Decoder.Reports.{decode_diagnostics}
use go_libddwaf.Tree.Holds.{Holds}
use go_libddwaf.Tree.Reports.{report}
use go_libddwaf.Tree.Reports.Whole.{decode_diagnostics-Holds}

abbrev rule_id : WafObject
rule_id = record zero_object { type = waf_string_type; value = 3; nb_entries = 2 }

abbrev loaded_field : WafObject
loaded_field = record {
  parameter_name = 2;
  parameter_name_length = 6;
  type = waf_array_type;
  value = 6;
  nb_entries = 1;
}

abbrev rules_field : WafObject
rules_field = record {
  parameter_name = 1;
  parameter_name_length = 5;
  type = waf_map_type;
  value = 7;
  nb_entries = 1;
}

abbrev version_field : WafObject
version_field = record {
  parameter_name = 4;
  parameter_name_length = 15;
  type = waf_string_type;
  value = 5;
  nb_entries = 3;
}

abbrev report_memory : Memory
report_memory =
    chars (bytes "rules")
    ∷ chars (bytes "loaded")
    ∷ chars (bytes "r1")
    ∷ chars (bytes "ruleset_version")
    ∷ chars (bytes "1.0")
    ∷ objects (rule_id ∷ [])
    ∷ objects (loaded_field ∷ [])
    ∷ objects (rules_field ∷ version_field ∷ [])
    ∷ []

abbrev report_object : WafObject
report_object = record zero_object { type = waf_map_type; value = 8; nb_entries = 2 }

abbrev reported : Diagnostics
reported = record no_diagnostics {
  rules = some (record no_entry { loaded = bytes "r1" ∷ [] });
  version = bytes "1.0";
}

report_decoded : decode_diagnostics report_memory report_object ≡ ok reported
unfolding decode_diagnostics cast_with_offset gostring_sized
report_decoded = refl

report-Holds : Holds 0 report_memory report_object (report reported)
report-Holds = (
  rules_field ∷ version_field ∷ [],
  refl,
  refl,
  inr (7, refl, omega arith, refl),
  (
    (0, refl, omega arith, refl, refl),
    (
      loaded_field ∷ [],
      refl,
      refl,
      inr (6, refl, omega arith, refl),
      (
        (1, refl, omega arith, refl, refl),
        (
          rule_id ∷ [],
          refl,
          refl,
          inr (5, refl, omega arith, refl),
          (refl, (refl, (2, refl, omega arith, refl, refl)), tt),
        ),
        tt,
      ),
    ),
    ((3, refl, omega arith, refl, refl), (refl, (4, refl, omega arith, refl, refl)), tt),
  ),
)

decode_diagnostics-Holds_example : decode_diagnostics report_memory report_object ≡ ok reported
decode_diagnostics-Holds_example =
    decode_diagnostics-Holds 0 report_memory reported report_object
      (record {
        rules = tt;
        custom_rules = tt;
        exclusions = tt;
        rules_overrides = tt;
        rules_data = tt;
        processors = tt;
        scanners = tt;
      })
      report-Holds
