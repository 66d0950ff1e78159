-- ===== src/Context/Run/Whole.antt =====
-- context.go: `run` and `Run`.
use go_libddwaf.Base.{
  ℕ, suc, ◌+◌, ◌*◌, ◌/◌, ◌%◌, ◌^◌, Bool, true, false, Option, none, some, List, [], ◌∷◌, Text, ◌⊎◌,
  inl, inr, if◌then◌else◌,
}
use go_libddwaf.Base.Int.{ℤ, pos_part}
use go_libddwaf.Errors.{Error, timeout}
use go_libddwaf.WafObject.{WafObject}
use go_libddwaf.GoValue.{Entries}
use go_libddwaf.RefPool.{RefPool, append}
use go_libddwaf.Timer.{BaseTimer, stop_timer, remaining_at, with_components}
use go_libddwaf.Timer.Nodes.{
  Node, node_stats, child_stopped, add_time, sum_exhausted, sum_remaining,
}
use go_libddwaf.Timer.Trees.{TimerError, new_node, new_leaf, start_below, with_budget_of}
use go_libddwaf.Metrics
use go_libddwaf.Decoder.{Decoded, ok, err, fault, unfinished, ◌>>=◌}
use go_libddwaf.Context.{Result, zero_result, unwrap_waf_result}
use go_libddwaf.Context.Run.{
  Context, RunAddressData, is_empty, waf_encode_tag, waf_run_tag, waf_duration_tag, waf_decode_tag,
  WafCall, World, Failure, failed, timer_failed, failure_of, Ran, refused, or_panic, must, Encoding,
  encode_one_address_type,
}

-- `uint64(timeBudget.Microseconds()) & 0x008FFFFFFFFFFFFF`: bits 0 to 51 and bit 55.
unfoldable pub timeout_of : ℤ → ℕ
timeout_of budget =
    let micros = pos_part budget / 1000 in micros % 2 ^ 52 + 2 ^ 55 * (micros / 2 ^ 55 % 2)

-- Inside of `Run`, from `runTimer.Start` to the deferred functions: the timer of this run and its node,
-- with the root in the context.
pub record Inside : Type 0 where
  pub ran : Ran
  pub node : Node
  pub polls : ℕ

-- Stop, with the report to the parents.
abbrev pub stop_below : Text → ℕ → BaseTimer → List Node → Decoded (ℤ × List Node)
stop_below name now t parents =
    let (spent, report, t') = stop_timer now t in
    if report
    then (do parents' ← or_panic (child_stopped name spent parents); ok (spent, parents'))
    else ok (spent, parents)

-- The node of the run and the root.
abbrev pub both_nodes : ℤ × List Node → Decoded (Node × Node)
both_nodes (spent, node ∷ root ∷ []) = ok (node, root)
both_nodes (spent, nodes) = fault

abbrev pub stop_leaf : Text → ℕ → BaseTimer → Node → Node → Decoded (Node × Node)
stop_leaf name now t node root = stop_below name now t (node ∷ root ∷ []) >>= both_nodes

-- The two encodings; the second is not made after an error of the first.
abbrev pub second :
    World → BaseTimer → Option Entries → Encoding → Decoded (Encoding × Option WafObject)
second w t d p = elim p.failure [
  | some f ↦ ok (p, none)
  | none ↦ do
    e ← encode_one_address_type w t p.context d p.polls
    ok (record e { object = p.object; refs = p.refs }, e.object)
]

abbrev pub encode_both :
    World → BaseTimer → Context → RunAddressData → ℕ → Decoded (Encoding × Option WafObject)
encode_both w t ctx d polls = do
  p ← encode_one_address_type w t ctx d.persistent polls
  second w t d.ephemeral p

-- The end of `run` and of `Run` after ddwaf_run was called.
abbrev pub inside_result :
    WafCall → RefPool → Context → Result × Option Error → Node × Node → ℕ → Inside
inside_result call refs ctx (res, e) (node, root) polls = record {
  ran = record {
    result = res;
    failure = failure_of e;
    context = record ctx { timer = root; cgo_refs = append ctx.cgo_refs refs };
    calls = call ∷ [];
  };
  node = record node { times = add_time waf_duration_tag res.time_spent node.times };
  polls = polls;
}

abbrev pub after_decode : WafCall → Encoding → Result × Option Error → Node × Node → Decoded Inside
after_decode call p r nodes = ok (inside_result call p.refs p.context r nodes (suc (suc p.polls)))

-- After `unwrapWafResult`: the decode timer stops.
abbrev pub after_unwrap :
    World → WafCall → Encoding → BaseTimer → Node → Result × Option Error → Decoded Inside
after_unwrap w call p t node r =
    stop_leaf waf_decode_tag (w.clock (suc p.polls)) t node p.context.timer
    >>= after_decode call p r

-- The arguments of `ddwaf_run`.
abbrev pub call_of : Encoding → Option WafObject → Node → WafCall
call_of p ephemeral node = record {
  persistent = p.object;
  ephemeral = ephemeral;
  timeout = timeout_of (sum_remaining node);
  memory = p.context.memory;
}

-- run; the decode timer starts after `ddwaf_run`.
abbrev pub with_leaf : World → Encoding → Option WafObject → Node → ℤ → BaseTimer → Decoded Inside
with_leaf w p ephemeral node remaining leaf =
    let call = call_of p ephemeral node in
    let answer = w.ddwaf_run p.context.c_context call in
    let t = start_below (w.clock p.polls) remaining node leaf in
    unwrap_waf_result answer.memory w.fuel answer.code answer.result
    >>= after_unwrap w call p t node

-- From `MustLeaf(wafDecodeTag)` on.
unfoldable pub call_waf : World → Encoding → Option WafObject → Node → ℤ → Decoded Inside
unfolding timeout_of unwrap_waf_result new_leaf stop_timer child_stopped add_time sum_remaining
call_waf w p ephemeral node remaining =
    must (new_leaf node waf_decode_tag []) >>= with_leaf w p ephemeral node remaining

-- The two early returns, and the call: `p.context` has the root after the stop.
abbrev pub unless_failed :
    World → Encoding → Option WafObject → ℤ → Node → Option Failure → Decoded Inside
unless_failed w p ephemeral remaining node (some f) =
    ok (record { ran = refused p.context f; node = node; polls = p.polls })
unless_failed w p ephemeral remaining node none =
    let call = call_waf w p ephemeral node remaining in
    if sum_exhausted node
    then ok (record { ran = refused p.context (failed timeout); node = node; polls = p.polls })
    else call

-- After `wafEncodeTimer.Stop()`.
abbrev pub after_stop : World → Encoding → Option WafObject → ℤ → Node × Node → Decoded Inside
after_stop w p ephemeral remaining (node, root) =
    unless_failed w (record p { context = record p.context { timer = root }; polls = suc p.polls })
      ephemeral remaining node p.failure

abbrev pub after_both :
    World → BaseTimer → Node → Node → ℤ → Encoding × Option WafObject → Decoded Inside
after_both w t node root remaining (p, ephemeral) =
    stop_leaf waf_encode_tag (w.clock p.polls) t node root >>= after_stop w p ephemeral remaining

abbrev pub with_encode_timer :
    World → Context → RunAddressData → Node → ℤ → BaseTimer → Decoded Inside
with_encode_timer w ctx d node remaining leaf =
    let t = start_below (w.clock 1) remaining node leaf in
    encode_both w t ctx d 2 >>= after_both w t node ctx.timer remaining

-- After `runTimer.Start()`.
unfoldable pub inside : World → Context → RunAddressData → BaseTimer → Node → Decoded Inside
unfolding call_waf encode_one_address_type new_leaf stop_timer child_stopped sum_exhausted
inside w ctx d t node =
    must (new_leaf node waf_encode_tag [])
    >>= with_encode_timer w ctx d node (remaining_at (w.clock 1) t)

-- The deferred functions that stop the run's timer and add its times to the metrics.
abbrev pub with_metrics : Inside → ℤ × List Node → Decoded Ran
with_metrics i (spent, root ∷ []) = ok (record i.ran {
  context = record i.ran.context {
    timer = root;
    metrics =
        Metrics.merge (node_stats i.node) (Metrics.add waf_run_tag spent i.ran.context.metrics);
  };
})
with_metrics i (spent, nodes) = fault

unfoldable pub finish_run : World → BaseTimer → Inside → Decoded Ran
unfolding stop_timer child_stopped Metrics.merge Metrics.add
finish_run w t i =
    stop_below waf_run_tag (w.clock i.polls) t (i.ran.context.timer ∷ []) >>= with_metrics i

-- After `NewNode`.
unfoldable pub after_new_node :
    World → Context → RunAddressData → TimerError ⊎ (BaseTimer × Node) → Decoded Ran
unfolding inside finish_run
after_new_node w ctx d (inl e) = ok (refused ctx (timer_failed e))
after_new_node w ctx d (inr (t, node)) =
    let started = start_below (w.clock 0) ctx.timer.budget ctx.timer t in
    inside w ctx d started (with_budget_of started node) >>= finish_run w started

-- The deferred function that counts timeouts, in a uint64.
abbrev pub is_timeout : Option Failure → Bool
is_timeout (some (failed timeout)) = true
is_timeout f = false

abbrev pub count_if : Bool → Ran → Ran
count_if true r = record r {
  context = record r.context { timeout_count = suc r.context.timeout_count % 2 ^ 64 };
}
count_if false r = r

abbrev pub counted : Ran → Ran
counted r = count_if (is_timeout r.failure) r

abbrev pub map_counted : Decoded Ran → Decoded Ran
map_counted (ok r) = ok (counted r)
map_counted (err e) = err e
map_counted fault = fault
map_counted unfinished = unfinished

-- The node of a run.
abbrev pub run_node : Context → TimerError ⊎ (BaseTimer × Node)
run_node ctx =
    new_node ctx.timer waf_run_tag
      (with_components (waf_encode_tag ∷ waf_decode_tag ∷ waf_duration_tag ∷ []) ∷ [])

-- Run
unfoldable pub run : World → Context → RunAddressData → Decoded Ran
unfolding sum_exhausted new_node after_new_node
run w ctx d =
    let rest = map_counted (after_new_node w ctx d (run_node ctx)) in
    if is_empty d
    then ok (record { result = zero_result; failure = none; context = ctx; calls = [] })
    else if sum_exhausted ctx.timer
    then ok (counted (refused ctx (failed timeout)))
    else rest
