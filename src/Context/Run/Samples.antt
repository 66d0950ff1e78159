-- ===== src/Context/Run/Samples.antt =====
-- context.go: a libddwaf, a clock, a context and data that the tests run.
use go_libddwaf.Base.{ℕ, ◌*◌, none, some, [], ◌∷◌, leb, bytes}
use go_libddwaf.Base.Int.{ℤ, pos}
use go_libddwaf.WafObject.{WafObject, zero_object, waf_map_type}
use go_libddwaf.RefPool.{no_refs}
use go_libddwaf.GoValue.{GoValue, no_entries, entry}
use go_libddwaf.Metrics.{no_metrics}
use go_libddwaf.Context.{waf_ok}
use go_libddwaf.Context.Run.{Context, RunAddressData, Answer, World, waf_run_tag}

abbrev pub empty_map : WafObject
empty_map = record zero_object { type = waf_map_type }

-- libddwaf that finds nothing in 5 ns; `late` is its byte `Timeout`.
abbrev pub quiet : ℕ → Answer
quiet late = record {
  code = waf_ok;
  result = record {
    timed_out = late;
    events = zero_object;
    actions = zero_object;
    derivatives = empty_map;
    total_runtime = 5;
  };
  memory = [];
}

-- A clock that moves on by 10 ns at every reading.
abbrev pub world : ℕ → World
world late = record {
  clock = λ k. 10 * k;
  heap = λ a. GoValue.invalid;
  stray = 0;
  done = leb 9;
  depth_fuel = 10;
  fuel = 3;
  ddwaf_run = λ c call. quiet late;
}

abbrev pub fresh : ℤ → Context
fresh budget = record {
  cgo_refs = no_refs;
  c_context = 4;
  timeout_count = 0;
  timer = record { times = (waf_run_tag, pos 0) ∷ []; budget = budget; component_name = [] };
  metrics = no_metrics;
  truncations = [];
  memory = [];
}

-- map[string]any{"k": 7}, persistent.
abbrev pub data_of_7 : RunAddressData
data_of_7 = record {
  persistent = some (entry (GoValue.string (bytes "k")) (GoValue.int (pos 7)) no_entries);
  ephemeral = none;
}
