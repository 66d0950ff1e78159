-- ===== src/Context/Tests.antt =====
-- context.go: the witnesses of the theorems on merged truncations and on results.
use go_libddwaf.Base.{ℕ, ◌≡◌, refl, some, none, inr, [], ◌∷◌, bytes, arith, lookup, text_key}
use go_libddwaf.Base.Int.{pos, wrap64}
use go_libddwaf.WafObject.{
  WafObject, zero_object, waf_string_type, waf_array_type, waf_map_type, waf_nil_type,
}
use go_libddwaf.Memory.{Memory, chars, objects}
use go_libddwaf.Decoder.{ok}
use go_libddwaf.Decoder.Objects.{Any, any, no_anys, member, no_members, put}
use go_libddwaf.Decoder.Reports.{decode_string_array}
use go_libddwaf.Truncation.{
  Truncations, string_too_long, container_too_large, object_too_deep, reason_key, sizes_of,
}
use go_libddwaf.Tree.{Tree, branch, no_branches, read}
use go_libddwaf.Tree.Holds.{Holds}
use go_libddwaf.Context.{WafResult, zero_result, waf_match, unwrap_waf_result}
use go_libddwaf.Context.Merge.{merge}
use go_libddwaf.Context.Laws.{lookup-merge, sizes_of-record_all, record_all}
use go_libddwaf.Context.Unwrap.{unwrap-Holds, unwrap_timeout}

abbrev first : Truncations
first = (string_too_long, pos 4 ∷ []) ∷ (object_too_deep, pos 9 ∷ []) ∷ []

abbrev second : Truncations
second = (container_too_large, pos 300 ∷ []) ∷ (string_too_long, pos 5 ∷ pos 6 ∷ []) ∷ []

lookup-merge_example :
    lookup string_too_long (merge first second) ≡ some (pos 4 ∷ pos 5 ∷ pos 6 ∷ [])
unfolding lookup
lookup-merge_example = lookup-merge string_too_long first second

sizes_recorded :
    sizes_of string_too_long (record_all first (second ∷ [] ∷ second ∷ []))
    ≡ pos 4 ∷ pos 5 ∷ pos 6 ∷ pos 5 ∷ pos 6 ∷ []
unfolding sizes_of lookup
sizes_recorded = sizes_of-record_all string_too_long first (second ∷ [] ∷ second ∷ [])

abbrev text_object : WafObject
text_object = record zero_object { type = waf_string_type; value = 1; nb_entries = 1 }

-- ["x"] and {"x": "x"}
abbrev shared : Memory
shared =
    chars (bytes "x")
    ∷ objects (text_object ∷ [])
    ∷ objects (record text_object { parameter_name = 1; parameter_name_length = 1 } ∷ [])
    ∷ []

abbrev sample_result : ℕ → WafResult
sample_result timed_out = record {
  timed_out = timed_out;
  events = record zero_object { type = waf_array_type; value = 2; nb_entries = 1 };
  actions = record zero_object { type = waf_nil_type };
  derivatives = record zero_object { type = waf_map_type; value = 3; nb_entries = 1 };
  total_runtime = 5;
}

abbrev x_text : Tree
x_text = Tree.string (bytes "x")

abbrev event_list : Any
event_list = Any.array (any (Any.string (bytes "x")) no_anys)

sample_events : Holds 0 shared (sample_result 0).events (Tree.array (branch [] x_text no_branches))
sample_events = (
  text_object ∷ [],
  refl,
  refl,
  inr (1, refl, omega arith, refl),
  (refl, (refl, (0, refl, omega arith, refl, refl)), tt),
)

sample_derivatives :
    Holds 0 shared (sample_result 0).derivatives (Tree.map (branch (bytes "x") x_text no_branches))
sample_derivatives = (
  record text_object { parameter_name = 1; parameter_name_length = 1 } ∷ [],
  refl,
  refl,
  inr (2, refl, omega arith, refl),
  ((0, refl, omega arith, refl, refl), (refl, (0, refl, omega arith, refl, refl)), tt),
)

sample_actions : decode_string_array shared (sample_result 0).actions ≡ ok []
unfolding decode_string_array
sample_actions = refl

unwrap-Holds_example :
    unwrap_waf_result shared 1 waf_match (sample_result 0)
    ≡ ok (
      record {
        events = event_list;
        derivatives = Any.dict (member (bytes "x") (Any.string (bytes "x")) no_members);
        actions = [];
        time_spent = pos 5;
      },
      none,
    )
unfolding wrap64 read put
unwrap-Holds_example =
    unwrap-Holds 0 shared 1 (sample_result 0) (branch (bytes "x") x_text no_branches)
      (branch [] x_text no_branches)
      (Any.dict (member (bytes "x") (Any.string (bytes "x")) no_members)) event_list [] refl
      (omega arith) sample_derivatives refl sample_events refl sample_actions

unwrap_timeout_example :
    unwrap_waf_result shared 1 waf_match (sample_result 1)
    ≡ ok (record zero_result { events = event_list; time_spent = pos 5 }, none)
unfolding wrap64 read
unwrap_timeout_example =
    (unwrap_timeout 0 shared 1 (sample_result 1) (branch [] x_text no_branches) event_list []
      (omega arith) (omega arith) sample_events refl sample_actions).1
