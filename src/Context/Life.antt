-- ===== src/Context/Life.antt =====
-- context.go: `NewContextWithBudget`, `NewContext` and `Close`, with ddwaf_context_init as a parameter.
pub mod Laws
mod Tests
use go_libddwaf.Base.{
  ℕ, Bool, Option, none, some, List, [], ◌∷◌, Text, ◌⊎◌, inl, inr, ◌==◌, if◌then◌else◌,
}
use go_libddwaf.Base.Int.{ℤ}
use go_libddwaf.Memory.{Memory}
use go_libddwaf.RefPool.{no_refs}
use go_libddwaf.Metrics.{no_metrics}
use go_libddwaf.Timer.{BaseTimer, unlimited_budget, with_budget, with_components}
use go_libddwaf.Timer.Nodes.{Node}
use go_libddwaf.Timer.Trees.{TimerError, new_tree_timer}
use go_libddwaf.Handle.{Handle, retain, release}
use go_libddwaf.Context.Run.{Context, waf_run_tag}

-- The libddwaf contexts that were made and destroyed.
pub data ContextCall : Type 0 where
  context_made context_destroyed : ℕ → ContextCall

-- `context` is nil for `none`; `destroyed` are the instances that `WafDestroy` was called with.
pub record Opening : Type 0 where
  pub context : Option Context
  pub handle : Handle
  pub calls : List ContextCall
  pub destroyed : List ℕ

abbrev pub new_context_of : ℕ → Memory → Node → Context
new_context_of c m root = record {
  cgo_refs = no_refs;
  c_context = c;
  timeout_count = 0;
  timer = root;
  metrics = record { data_map = some [] };
  truncations = [];
  memory = m;
}

-- What follows `NewTreeTimer`.
abbrev pub with_tree : Handle → ℕ → Memory → TimerError ⊎ (BaseTimer × Node) → Opening
with_tree h c m (inl e) = record {
  context = none;
  handle = h;
  calls = context_made c ∷ [];
  destroyed = [];
}
with_tree h c m (inr (t, root)) = record {
  context = some (new_context_of c m root);
  handle = h;
  calls = context_made c ∷ [];
  destroyed = [];
}

-- What follows a successful `retain`, with what ddwaf_context_init returns.
unfoldable pub after_retain : ℕ → Handle → ℤ → Memory → Opening
unfolding new_tree_timer release
after_retain c h budget m =
    let (h', destroyed) = release h in
    if c == 0
    then record { context = none; handle = h'; calls = []; destroyed = destroyed }
    else with_tree h c m
        (new_tree_timer (with_budget budget ∷ with_components (waf_run_tag ∷ []) ∷ []))

-- NewContextWithBudget
unfoldable pub new_context_with_budget : (ℕ → ℕ) → Memory → Handle → ℤ → Opening
unfolding retain after_retain
new_context_with_budget context_init m h budget =
    let (valid, h') = retain h in
    let opening = after_retain (context_init h'.c_handle) h' budget m in
    if valid then opening else record { context = none; handle = h'; calls = []; destroyed = [] }

-- NewContext
abbrev pub new_context : (ℕ → ℕ) → Memory → Handle → Opening
new_context context_init m h = new_context_with_budget context_init m h unlimited_budget

-- What Close leaves: the context and the handle, and the calls.
pub record Closing : Type 0 where
  pub context : Context
  pub handle : Handle
  pub calls : List ContextCall
  pub destroyed : List ℕ

unfoldable pub close_context : Context → Handle → Closing
unfolding release
close_context ctx h =
    let (h', destroyed) = release h in
    record {
      context = record ctx { cgo_refs = no_refs; c_context = 0 };
      handle = h';
      calls = context_destroyed ctx.c_context ∷ [];
      destroyed = destroyed;
    }
