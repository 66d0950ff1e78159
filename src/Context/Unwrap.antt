-- ===== src/Context/Unwrap.antt =====
-- context.go: what `unwrapWafResult` returns where libddwaf's objects represent trees.
use go_libddwaf.Base.{
  ℕ, suc, ◌<◌, ◌≡◌, refl, sym, ◌∙◌, ap, subst, true, false, none, some, List, [], Text, arith, ltb,
  if◌then◌else◌, Bool-cases, max, inl, inr,
}
use go_libddwaf.Base.Int.{pos, wrap64}
use go_libddwaf.Errors.{timeout}
use go_libddwaf.WafObject.{WafObject, waf_map_type, waf_array_type}
use go_libddwaf.Memory.{Memory}
use go_libddwaf.Decoder.{Decoded, ok, ◌>>=◌}
use go_libddwaf.Decoder.Objects.{Any, decode_array, decode_map, decode_object, decode_by_type}
use go_libddwaf.Decoder.Reports.{decode_string_array, string_array_from}
use go_libddwaf.Tree.{array, map, Branches, height_branches, read}
use go_libddwaf.Tree.Holds.{Holds}
use go_libddwaf.Tree.ReadBack.{decode_object-Holds}
use go_libddwaf.Context.{
  WafResult, Result, Unwrapped, zero_result, waf_ok, waf_match, returned, unwrap_derivatives,
  unwrap_actions, unwrap_match, unwrap_waf_result,
}

module _ (lo : ℕ) (m : Memory) (fuel : ℕ) where
  by_type-map :
      (o : WafObject)
      → o.type ≡ waf_map_type
      → decode_object m (suc fuel) o ≡ decode_map m (decode_object m fuel) o
  unfolding decode_object decode_by_type
  by_type-map o e = rw e refl

  by_type-array :
      (o : WafObject)
      → o.type ≡ waf_array_type
      → decode_object m (suc fuel) o ≡ decode_array m (decode_object m fuel) o
  unfolding decode_object decode_by_type
  by_type-array o e = rw e refl

  decode_map-Holds :
      (b : Branches) (o : WafObject)
      → height_branches b < fuel
      → Holds lo m o (map b)
      → decode_map m (decode_object m fuel) o ≡ read (map b)
  decode_map-Holds b o d h =
      sym (by_type-map o h.1) ∙ decode_object-Holds lo m (suc fuel) (map b) o (omega arith) h

  decode_array-Holds :
      (b : Branches) (o : WafObject)
      → height_branches b < fuel
      → Holds lo m o (array b)
      → decode_array m (decode_object m fuel) o ≡ read (array b)
  decode_array-Holds b o d h =
      sym (by_type-array o h.1) ∙ decode_object-Holds lo m (suc fuel) (array b) o (omega arith) h

  no_entries_nil :
      (o : WafObject) (l : List Text) → o.nb_entries ≡ 0 → decode_string_array m o ≡ ok l → l ≡ []
  unfolding decode_string_array string_array_from
  no_entries_nil o l none_left e = ground arith

  abbrev outcome : WafResult → Any → Any → List Text → Result
  outcome r events derivatives actions = record {
    events = events;
    derivatives = derivatives;
    actions = actions;
    time_spent = wrap64 (pos r.total_runtime);
  }

  module _ (r : WafResult) (actions : List Text)
      (read_actions : decode_string_array m r.actions ≡ ok actions) where
    unwrap_actions_right :
        (events derivatives : Any)
        → unwrap_actions m fuel r (outcome r events derivatives [])
          ≡ ok (outcome r events derivatives actions, none)
    unfolding unwrap_actions
    unwrap_actions_right events derivatives =
        let decoded : Decoded (List Text) → Unwrapped =
          λ x. returned [] x >>= λ p. ok (outcome r events derivatives p.0, p.1) in
        elim (Bool-cases (ltb 0 r.actions.nb_entries)) [
          | inl h ↦
              subst
                (λ c.
                  (if c
                    then decoded (decode_string_array m r.actions)
                    else ok (outcome r events derivatives [], none))
                  ≡ ok (outcome r events derivatives actions, none))
                (sym h) (ap decoded read_actions)
          | inr h ↦ rw (h, no_entries_nil r.actions actions (ground (arith, h)) read_actions) refl
        ]

    unwrap_match_right :
        (b : Branches) (events derivatives : Any)
        → height_branches b < fuel
        → Holds lo m r.events (array b)
        → read (array b) ≡ ok events
        → unwrap_match m fuel r (outcome r Any.null derivatives [])
          ≡ ok (outcome r events derivatives actions, none)
    unfolding unwrap_match
    unwrap_match_right b events derivatives d holds e =
        let decoded = decode_array-Holds b r.events d holds ∙ e in
        ap
          (λ x. returned Any.null x >>= λ p. elim p.1 [
            | none ↦ unwrap_actions m fuel r (outcome r p.0 derivatives [])
            | some x ↦ ok (outcome r p.0 derivatives [], some x)
          ])
          decoded
        ∙ unwrap_actions_right events derivatives

-- After a run that matched and did not time out, where the derivatives and the events represent trees
-- that can be read, no deeper than the fuel, and the actions can be decoded, `unwrapWafResult` returns
-- these three and no error.
pub unwrap-Holds :
    (lo : ℕ) (m : Memory) (fuel : ℕ) (r : WafResult) (d e : Branches) (derivatives events : Any)
    (actions : List Text)
    → r.timed_out ≡ 0
    → max (height_branches d) (height_branches e) < fuel
    → Holds lo m r.derivatives (map d)
    → read (map d) ≡ ok derivatives
    → Holds lo m r.events (array e)
    → read (array e) ≡ ok events
    → decode_string_array m r.actions ≡ ok actions
    → unwrap_waf_result m fuel waf_match r
      ≡ ok (
        record {
          events = events;
          derivatives = derivatives;
          actions = actions;
          time_spent = wrap64 (pos r.total_runtime);
        },
        none,
      )
unfolding unwrap_waf_result unwrap_derivatives
unwrap-Holds lo m fuel r d e derivatives events actions fine b dh dr eh er ar =
    let decoded = decode_map-Holds lo m fuel d r.derivatives (omega arith) dh ∙ dr in
    let in_time : ltb 0 r.timed_out ≡ false = ground arith in
    rw in_time (
      ap
        (λ x.
          returned Any.null x >>= λ p. unwrap_match m fuel r (outcome lo m fuel r Any.null p.0 []))
        decoded
      ∙ unwrap_match_right lo m fuel r actions ar e events derivatives (omega arith) eh er)

-- After a run that timed out, where the events represent a tree that can be read, no deeper than the
-- fuel, and the actions can be decoded, `unwrapWafResult` returns the timeout error if libddwaf found
-- no match, but no error if it found one.
pub unwrap_timeout :
    (lo : ℕ) (m : Memory) (fuel : ℕ) (r : WafResult) (e : Branches) (events : Any)
    (actions : List Text)
    → 0 < r.timed_out
    → height_branches e < fuel
    → Holds lo m r.events (array e)
    → read (array e) ≡ ok events
    → decode_string_array m r.actions ≡ ok actions
    → (unwrap_waf_result m fuel waf_ok r
        ≡ ok (record zero_result { time_spent = wrap64 (pos r.total_runtime) }, some timeout))
      × (unwrap_waf_result m fuel waf_match r
          ≡ ok (
            record zero_result {
              events = events;
              actions = actions;
              time_spent = wrap64 (pos r.total_runtime);
            },
            none,
          ))
unfolding unwrap_waf_result unwrap_derivatives
unwrap_timeout lo m fuel r e events actions late b eh er ar =
    let timed : ltb 0 r.timed_out ≡ true = ground arith in
    (rw timed refl, rw timed (unwrap_match_right lo m fuel r actions ar e events Any.null b eh er))
