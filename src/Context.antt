-- ===== src/Context.antt =====
-- context.go: what a context makes of a call of ddwaf_run, and of the truncations of its encoders.
pub mod Merge
pub mod Laws
pub mod Unwrap
pub mod Run
pub mod Life
pub mod Sequence
pub mod Race
pub mod Stats
pub mod Results
mod Tests
use go_libddwaf.Base.{ℕ, Option, none, some, List, [], Text, length, ltb, ◌==◌, if◌then◌else◌}
use go_libddwaf.Base.Int.{ℤ, pos, negsuc, eq_ℤ, wrap64}
use go_libddwaf.Errors.{
  Error, internal, invalid_object, invalid_argument, timeout, unknown_return_code,
}
use go_libddwaf.WafObject.{WafObject}
use go_libddwaf.Memory.{Memory}
use go_libddwaf.Truncation.{Truncations, reason_key}
use go_libddwaf.Context.Merge.{merge}
use go_libddwaf.Decoder.{Decoded, ok, err, fault, unfinished, ◌>>=◌}
use go_libddwaf.Decoder.Objects.{Any, null, decode_array, decode_map, decode_object}
use go_libddwaf.Decoder.Reports.{decode_string_array}

-- The truncations of a context after one of its encoders has recorded `new`.
unfoldable pub record_truncations : Truncations → Truncations → Truncations
unfolding merge
record_truncations context new = if ltb 0 (length new) then merge context new else context

-- What libddwaf fills in; `timed_out` is the byte `Timeout`.
pub record WafResult : Type 0 where
  pub timed_out : ℕ
  pub events : WafObject
  pub actions : WafObject
  pub derivatives : WafObject
  pub total_runtime : ℕ

-- `events` and `derivatives` are `null` for the nil slice and map, `actions` is empty for nil.
pub record Result : Type 0 where
  pub events : Any
  pub derivatives : Any
  pub actions : List Text
  pub time_spent : ℤ

abbrev pub zero_result : Result
zero_result = record { events = null; derivatives = null; actions = []; time_spent = pos 0 }

-- `WafReturnCode`, an int32.
abbrev pub waf_err_internal : ℤ
waf_err_internal = negsuc 2

abbrev pub waf_err_invalid_object : ℤ
waf_err_invalid_object = negsuc 1

abbrev pub waf_err_invalid_argument : ℤ
waf_err_invalid_argument = negsuc 0

abbrev pub waf_ok : ℤ
waf_ok = pos 0

abbrev pub waf_match : ℤ
waf_match = pos 1

unfoldable pub go_run_error : ℤ → Error
go_run_error rc =
    if eq_ℤ rc waf_err_internal
    then internal
    else if eq_ℤ rc waf_err_invalid_object
    then invalid_object
    else if eq_ℤ rc waf_err_invalid_argument
    then invalid_argument
    else unknown_return_code rc

-- The two results of a Go call: the value, `nil` where there is an error, and the error.
abbrev pub returned {ℓ} : {A : Type ℓ} → A → Decoded A → Decoded (A × Option Error)
returned nil (ok a) = ok (a, none)
returned nil (err e) = ok (nil, some e)
returned nil fault = fault
returned nil unfinished = unfinished

-- What `unwrapWafResult` returns.
abbrev pub Unwrapped : Type 0
Unwrapped = Decoded (Result × Option Error)

-- The number bounds the nesting of the objects.
module _ (m : Memory) (fuel : ℕ) where
  -- The derivatives are decoded unless the run timed out.
  unfoldable pub unwrap_derivatives : WafResult → Decoded (Any × Option Error)
  unfolding decode_map decode_object
  unwrap_derivatives r =
      if ltb 0 r.timed_out
      then ok (null, some timeout)
      else returned null (decode_map m (decode_object m fuel) r.derivatives)

  -- The last part: the actions, if there are any, after events that were decoded.
  unfoldable pub unwrap_actions : WafResult → Result → Unwrapped
  unfolding decode_string_array
  unwrap_actions r res =
      if ltb 0 r.actions.nb_entries
      then (do
        (actions, e) ← returned [] (decode_string_array m r.actions)
        ok (record res { actions = actions }, e))
      else ok (res, none)

  -- What follows a match: `err` is overwritten.
  unfoldable pub unwrap_match : WafResult → Result → Unwrapped
  unfolding decode_array decode_object unwrap_actions
  unwrap_match r res = do
    (events, e) ← returned null (decode_array m (decode_object m fuel) r.events)
    let res' = record res { events = events } in
        elim e [ none ↦ unwrap_actions r res' | some x ↦ ok (res', some x) ]

  unfoldable pub unwrap_waf_result : ℤ → WafResult → Unwrapped
  unfolding unwrap_derivatives unwrap_match go_run_error wrap64
  unwrap_waf_result ret r = do
    (derivatives, e) ← unwrap_derivatives r
    let res = record zero_result {
      derivatives = derivatives;
      time_spent = wrap64 (pos r.total_runtime);
    } in
        if eq_ℤ ret waf_ok
        then ok (res, e)
        else if eq_ℤ ret waf_match
        then unwrap_match r res
        else ok (res, some (go_run_error ret))
