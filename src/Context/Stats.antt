-- ===== src/Context/Stats.antt =====
-- context.go and metrics.go: what a context reports.
use go_libddwaf.Base.{
  ℕ, ◌≡◌, refl, ◌∙◌, Option, some, List, [], ◌∷◌, ◌++◌, Text, bytes, text_eq, Dict, lookup, insert,
  text_key, false, lookup-insert_self, lookup-insert_ne,
}
use go_libddwaf.Base.Int.{ℤ}
use go_libddwaf.Truncation.{
  Truncations, TruncationReason, string_too_long, container_too_large, object_too_deep,
}
use go_libddwaf.Encoder.{word_of}
use go_libddwaf.Metrics
use go_libddwaf.Metrics.{or_empty}
use go_libddwaf.Context.Run.{Context, waf_run_tag, waf_duration_tag}

-- `timers` is `none` for nil.
pub record Stats : Type 0 where
  pub timers : Option (Dict Text ℤ)
  pub timeout_count : ℕ
  pub truncations : Truncations

-- Context.Stats: copies of what the context keeps.
abbrev pub stats : Context → Stats
stats ctx = record {
  timers = Metrics.copy ctx.metrics;
  timeout_count = ctx.timeout_count;
  truncations = ctx.truncations;
}

unfoldable pub total_runtime : Context → ℕ × ℕ
unfolding Metrics.get
total_runtime ctx = (
  word_of (Metrics.get waf_run_tag ctx.metrics),
  word_of (Metrics.get waf_duration_tag ctx.metrics),
)

abbrev pub total_timeouts : Context → ℕ
total_timeouts ctx = ctx.timeout_count

-- TruncationReason.String
abbrev pub reason_string : TruncationReason → Text
reason_string object_too_deep = bytes "depth"
reason_string container_too_large = bytes "container-size"
reason_string string_too_long = bytes "string-size"

abbrev pub waf_timeout_tag : Text
waf_timeout_tag = bytes "_dd.appsec.waf.timeouts"

abbrev pub waf_truncation_tag : Text
waf_truncation_tag = bytes "_dd.appsec.waf.truncations"

-- What a tag holds; `F` is float64.
pub data Tag (F : Type 0) : Type 0 where
  micros : F → Tag F
  count : ℕ → Tag F
  sizes : List ℤ → Tag F

-- `in_micros` divides a number of nanoseconds by 1000, in float64.
module _ {F : Type 0} (in_micros : ℤ → F) where
  unfoldable pub timer_tags : Dict Text ℤ → Dict Text (Tag F) → Dict Text (Tag F)
  unfolding insert
  timer_tags [] tags = tags
  timer_tags ((k, v) ∷ timers) tags = timer_tags timers (insert k (micros (in_micros v)) tags)

  abbrev pub reason_tag : TruncationReason → Text
  reason_tag reason = waf_truncation_tag ++ (bytes "." ++ reason_string reason)

  unfoldable pub truncation_tags : Truncations → Dict Text (Tag F) → Dict Text (Tag F)
  unfolding insert
  truncation_tags [] tags = tags
  truncation_tags ((reason, list) ∷ truncations) tags =
      truncation_tags truncations (insert (reason_tag reason) (sizes list) tags)

  -- Stats.Metrics
  unfoldable pub metrics : Stats → Dict Text (Tag F)
  unfolding timer_tags truncation_tags insert
  metrics s =
      truncation_tags s.truncations
        (insert waf_timeout_tag (count s.timeout_count) (timer_tags (or_empty s.timers) []))

  reason_tag_ne : (r : TruncationReason) → text_eq (reason_tag r) waf_timeout_tag ≡ false
  reason_tag_ne string_too_long = refl
  reason_tag_ne container_too_large = refl
  reason_tag_ne object_too_deep = refl

  -- The tags of the truncations leave that of the timeouts.
  truncation_tags_keeps :
      (t : Truncations) (tags : Dict Text (Tag F))
      → lookup waf_timeout_tag (truncation_tags t tags) ≡ lookup waf_timeout_tag tags
  unfolding truncation_tags
  truncation_tags_keeps [] tags = refl
  truncation_tags_keeps ((r, l) ∷ t) tags =
      truncation_tags_keeps t (insert (reason_tag r) (sizes l) tags)
      ∙ lookup-insert_ne (reason_tag r) waf_timeout_tag (sizes l) tags (reason_tag_ne r)

  -- The tag of the timeouts holds their count, whatever the timers and the truncations are called.
  metrics-timeouts : (s : Stats) → lookup waf_timeout_tag (metrics s) ≡ some (count s.timeout_count)
  unfolding metrics
  metrics-timeouts s =
      truncation_tags_keeps s.truncations
        (insert waf_timeout_tag (count s.timeout_count) (timer_tags (or_empty s.timers) []))
      ∙ lookup-insert_self waf_timeout_tag (count s.timeout_count)
          (timer_tags (or_empty s.timers) [])
