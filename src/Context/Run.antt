-- ===== src/Context/Run.antt =====
-- context.go: a context, and `Run` with `ddwaf_run` as a parameter.
pub mod Whole
pub mod Objects
pub mod Encodings
pub mod Steps
pub mod Laws
pub mod Samples
mod Tests
use go_libddwaf.Base.{
  ℕ, suc, ◌+◌, ◌*◌, ◌/◌, ◌%◌, ◌^◌, Bool, true, false, ◌&&◌, Option, none, some, List, [], ◌∷◌, Text,
  bytes, ◌⊎◌, inl, inr, ◌==◌, if◌then◌else◌,
}
use go_libddwaf.Base.Int.{ℤ, pos, pos_part}
use go_libddwaf.Errors.{Error, timeout}
use go_libddwaf.WafObject.{WafObject}
use go_libddwaf.Memory.{Memory}
use go_libddwaf.RefPool.{RefPool, no_refs, append}
use go_libddwaf.GoValue.{GoValue, GoHeap, Entries, count_entries}
use go_libddwaf.Truncation.{Truncations}
use go_libddwaf.Encoder.{Setting, State, exhausted}
use go_libddwaf.Encoder.Depth.{limited, encode_value}
use go_libddwaf.Timer.{BaseTimer, exhausted_at, stop_timer, remaining_at, with_components}
use go_libddwaf.Timer.Nodes.{Node, child_stopped, add_time, sum_exhausted, sum_remaining}
use go_libddwaf.Timer.Trees.{TimerError, new_node, new_leaf, start_below, with_budget_of}
use go_libddwaf.Metrics.{MetricsStore}
use go_libddwaf.Metrics
use go_libddwaf.Decoder.{Decoded, ok, fault, unfinished, ◌>>=◌}
use go_libddwaf.Context.{WafResult, Result, zero_result, record_truncations, unwrap_waf_result}

-- The handle is shared with other contexts and is passed beside it. `memory` is what Go and libddwaf
-- share; `timer` is the root of the timer tree, which is never started.
pub record Context : Type 0 where
  pub cgo_refs : RefPool
  pub c_context : ℕ
  pub timeout_count : ℕ
  pub timer : Node
  pub metrics : MetricsStore
  pub truncations : Truncations
  pub memory : Memory

-- A nil map is `none`.
pub record RunAddressData : Type 0 where
  pub persistent : Option Entries
  pub ephemeral : Option Entries

abbrev pub map_length : Option Entries → ℕ
map_length none = 0
map_length (some entries) = count_entries entries

abbrev pub is_empty : RunAddressData → Bool
is_empty d = (map_length d.persistent == 0) && (map_length d.ephemeral == 0)

abbrev pub waf_encode_tag : Text
waf_encode_tag = bytes "_dd.appsec.waf.encode"

abbrev pub waf_run_tag : Text
waf_run_tag = bytes "_dd.appsec.waf.duration_ext"

abbrev pub waf_duration_tag : Text
waf_duration_tag = bytes "_dd.appsec.waf.duration"

abbrev pub waf_decode_tag : Text
waf_decode_tag = bytes "_dd.appsec.waf.decode"

-- What `ddwaf_run` is called with, and what it answers; its objects lie in `memory`.
pub record WafCall : Type 0 where
  pub persistent : Option WafObject
  pub ephemeral : Option WafObject
  pub timeout : ℕ
  pub memory : Memory

pub record Answer : Type 0 where
  pub code : ℤ
  pub result : WafResult
  pub memory : Memory

-- What one call of `Run` meets: the readings of the clock by their number, the Go heap, the context of
-- `measureObjectDepth`, libddwaf; and fuel for the depth of values and of decoded objects.
pub record World : Type 0 where
  pub clock : ℕ → ℕ
  pub heap : GoHeap
  pub stray : ℕ
  pub done : ℕ → Bool
  pub depth_fuel : ℕ
  pub fuel : ℕ
  pub ddwaf_run : ℕ → WafCall → Answer

-- The errors of `Run`.
pub data Failure : Type 0 where
  failed : Error → Failure
  timer_failed : TimerError → Failure

abbrev pub failure_of : Option Error → Option Failure
failure_of none = none
failure_of (some e) = some (failed e)

-- What `Run` returns and leaves, and the calls of `ddwaf_run`.
pub record Ran : Type 0 where
  pub result : Result
  pub failure : Option Failure
  pub context : Context
  pub calls : List WafCall

abbrev pub refused : Context → Failure → Ran
refused ctx f = record { result = zero_result; failure = some f; context = ctx; calls = [] }

abbrev pub or_panic : {A : Type 0} → Option A → Decoded A
or_panic none = fault
or_panic (some a) = ok a

-- `MustLeaf` panics on an error.
abbrev pub must : {A : Type 0} → TimerError ⊎ A → Decoded A
must (inl e) = fault
must (inr a) = ok a

-- newLimitedEncoder, with the leaf that is its timer.
abbrev pub encoder_of : World → BaseTimer → Setting
encoder_of w t = limited (record {
  heap = w.heap;
  expired = λ k. exhausted_at (w.clock k) t;
  stray = w.stray;
  container_max_size = 0;
  string_max_size = 0;
  object_max_depth = 0;
})

-- What `encodeOneAddressType` returns and leaves; `polls` is the number of clock readings.
pub record Encoding : Type 0 where
  pub object : Option WafObject
  pub refs : RefPool
  pub failure : Option Failure
  pub context : Context
  pub polls : ℕ

abbrev pub encoder_state : Context → ℕ → State
encoder_state ctx polls = record {
  store = record { memory = ctx.memory; refs = no_refs };
  truncations = [];
  polls = polls;
}

-- What follows `Encode`, whose error is dropped.
abbrev pub after_encode : Setting → Context → WafObject → State → Encoding
after_encode g ctx o s =
    let (stop, t) = exhausted g s in
    record {
      object = if stop then none else some o;
      refs = s.store.refs;
      failure = if stop then some (failed timeout) else none;
      context = record ctx {
        truncations = record_truncations ctx.truncations s.truncations;
        memory = s.store.memory;
      };
      polls = t.polls;
    }

abbrev pub encoded : Setting → Context → WafObject → Option State → Decoded Encoding
encoded g ctx o none = unfinished
encoded g ctx o (some s) = ok (after_encode g ctx o s)

unfoldable pub encode_one_address_type :
    World → BaseTimer → Context → Option Entries → ℕ → Decoded Encoding
unfolding exhausted_at record_truncations
encode_one_address_type w t ctx none polls =
    ok (record { object = none; refs = no_refs; failure = none; context = ctx; polls = polls })
encode_one_address_type w t ctx (some entries) polls =
    let g = encoder_of w t in
    let (e, o, s) =
      encode_value g w.done w.depth_fuel (GoValue.dict entries) (encoder_state ctx polls) in
    encoded g ctx o s
