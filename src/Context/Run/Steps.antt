-- ===== src/Context/Run/Steps.antt =====
-- context.go: what the steps of a run keep, from the encodings to the metrics.
use go_libddwaf.Base.{
  length, ℕ, suc, ◌≡◌, refl, Option, none, some, List, [], ◌∷◌, ◌⊎◌, inl, inr, Option-cases, ◌∙◌,
}
use go_libddwaf.Base.Int.{ℤ}
use go_libddwaf.Errors.{Error}
use go_libddwaf.WafObject.{WafObject}
use go_libddwaf.RefPool.{RefPool}
use go_libddwaf.GoValue.{Entries}
use go_libddwaf.Timer.{BaseTimer, remaining_at}
use go_libddwaf.Timer.Nodes.{Node, sum_exhausted}
use go_libddwaf.Timer.Trees.{TimerError, new_leaf, start_below, with_budget_of}
use go_libddwaf.Context.{Result, unwrap_waf_result}
use go_libddwaf.Context.Run.{
  Context, RunAddressData, WafCall, World, Failure, Ran, must, Encoding, waf_decode_tag,
  waf_encode_tag, waf_run_tag, encode_one_address_type,
}
use go_libddwaf.Context.Run.Whole.{
  Inside, encode_both, second, call_waf, unless_failed, after_stop, inside, finish_run,
  after_new_node, inside_result, after_decode, after_unwrap, call_of, with_leaf, after_both,
  with_encode_timer, with_metrics, stop_below, stop_leaf,
}
use go_libddwaf.Context.Run.Objects.{
  counter_of, SafeObject, KeptObject, KeptObject-Grows, KeptObject-append, Keeps, Keeps-refl,
  Keeps-trans, append-InPool,
}
use go_libddwaf.Memory.{Memory}
use go_libddwaf.Memory.Growth.{Grows, Same-refl, Same-trans}
use go_libddwaf.Context.Run.Encodings.{
  Yields, bind-Yields, any-Yields, if-Yields, EncodingOk, encode_one-EncodingOk,
}

-- The two encodings of a run.
abbrev BothOk : Context → Encoding × Option WafObject → Type 0
BothOk ctx (p, ephemeral) =
    (counter_of p.context ≡ counter_of ctx)
    × Keeps ctx.memory ctx.cgo_refs p.context.memory p.context.cgo_refs
    × KeptObject (length ctx.memory) p.refs p.context.memory p.object
    × SafeObject p.context.memory ephemeral

-- `ddwaf_run` is called at most once, with objects that can be read, and the context keeps the
-- persistent one.
abbrev pub CallsOk : ℕ → Memory → RefPool → List WafCall → Type 0
CallsOk lo after pool [] = Unit
CallsOk lo after pool (c ∷ []) =
    KeptObject lo pool after c.persistent
    × KeptObject lo pool c.memory c.persistent
    × SafeObject c.memory c.ephemeral
CallsOk lo after pool (c ∷ c' ∷ calls) = ⊥

abbrev pub RanOk : Context → Ran → Type 0
RanOk ctx r =
    (counter_of r.context ≡ counter_of ctx)
    × CallsOk (length ctx.memory) r.context.memory r.context.cgo_refs r.calls
    × Keeps ctx.memory ctx.cgo_refs r.context.memory r.context.cgo_refs

encoding-Keeps :
    {m m' : Memory} {pool pool' : RefPool} → pool' ≡ pool → Grows m m' → Keeps m pool m' pool'
encoding-Keeps e g = record { grows = g; retains = λ a h. rw e h }

module _ (w : World) where
  second-BothOk :
      (t : BaseTimer) (ctx : Context) (d : Option Entries) (p : Encoding)
      → EncodingOk ctx p
      → Yields (BothOk ctx) (second w t d p)
  second-BothOk t ctx d p (c, r, g, h, kept) = elim (Option-cases p.failure) [
    | inl e ↦ rw e (
        bind-Yields _ _ (encode_one_address_type w t p.context d p.polls) _
          (encode_one-EncodingOk w t p.context d p.polls)
          (λ q (c', r', g', h', kept'). (
            c' ∙ c,
            encoding-Keeps (r' ∙ r) (Same-trans g g'),
            KeptObject-Grows _ p.refs p.object g' kept,
            h',
          )))
    | inr (f, e) ↦ rw e (c, encoding-Keeps r g, kept, tt)
  ]

  encode_both-BothOk :
      (t : BaseTimer) (ctx : Context) (d : RunAddressData) (polls : ℕ)
      → Yields (BothOk ctx) (encode_both w t ctx d polls)
  encode_both-BothOk t ctx d polls =
      bind-Yields _ _ (encode_one_address_type w t ctx d.persistent polls) _
        (encode_one-EncodingOk w t ctx d.persistent polls) (second-BothOk t ctx d.ephemeral)

  result-RanOk :
      (ctx0 : Context) (call : WafCall) (refs : RefPool) (ctx : Context) (r : Result × Option Error)
      (nodes : Node × Node) (polls : ℕ)
      → counter_of ctx ≡ counter_of ctx0
      → Keeps ctx0.memory ctx0.cgo_refs ctx.memory ctx.cgo_refs
      → call.memory ≡ ctx.memory
      → KeptObject (length ctx0.memory) refs call.memory call.persistent
      → SafeObject call.memory call.ephemeral
      → RanOk ctx0 (inside_result call refs ctx r nodes polls).ran
  result-RanOk ctx0 call refs ctx r nodes polls c keeps e h k =
      let kept = KeptObject-append _ ctx.cgo_refs refs call.persistent call.memory h in
      (
        c,
        (rw (← e) kept, kept, k),
        Keeps-trans keeps
            (record { grows = Same-refl 0 ctx.memory; retains = append-InPool ctx.cgo_refs refs }),
      )

  with_leaf-RanOk :
      (ctx : Context) (p : Encoding) (ephemeral : Option WafObject) (node : Node) (remaining : ℤ)
      (leaf : BaseTimer)
      → BothOk ctx (p, ephemeral)
      → Yields (λ i. RanOk ctx i.ran) (with_leaf w p ephemeral node remaining leaf)
  with_leaf-RanOk ctx p ephemeral node remaining leaf (c, keeps, h, k) =
      let q : Inside → Type 0 = λ i. RanOk ctx i.ran in
      let call = call_of p ephemeral node in
      let answer = w.ddwaf_run p.context.c_context call in
      let t = start_below (w.clock p.polls) remaining node leaf in
      any-Yields q (unwrap_waf_result answer.memory w.fuel answer.code answer.result)
        (after_unwrap w call p t node)
        (λ r.
          any-Yields q (stop_leaf waf_decode_tag (w.clock (suc p.polls)) t node p.context.timer)
            (after_decode call p r)
            (λ nodes.
              result-RanOk ctx call p.refs p.context r nodes (suc (suc p.polls)) c keeps refl h k))

  call_waf-RanOk :
      (ctx : Context) (p : Encoding) (ephemeral : Option WafObject) (node : Node) (remaining : ℤ)
      → BothOk ctx (p, ephemeral)
      → Yields (λ i. RanOk ctx i.ran) (call_waf w p ephemeral node remaining)
  unfolding call_waf
  call_waf-RanOk ctx p ephemeral node remaining h =
      any-Yields (λ i. RanOk ctx i.ran) (must (new_leaf node waf_decode_tag []))
        (with_leaf w p ephemeral node remaining)
        (λ leaf. with_leaf-RanOk ctx p ephemeral node remaining leaf h)

  unless_failed-RanOk :
      (ctx : Context) (p : Encoding) (ephemeral : Option WafObject) (remaining : ℤ) (node : Node)
      (f : Option Failure)
      → BothOk ctx (p, ephemeral)
      → Yields (λ i. RanOk ctx i.ran) (unless_failed w p ephemeral remaining node f)
  unless_failed-RanOk ctx p ephemeral remaining node (some f) (c, keeps, h, k) = (c, tt, keeps)
  unless_failed-RanOk ctx p ephemeral remaining node none (c, keeps, h, k) =
      if-Yields (λ i. RanOk ctx i.ran) (sum_exhausted node) _ _ (c, tt, keeps)
        (call_waf-RanOk ctx p ephemeral node remaining (c, keeps, h, k))

  after_stop-RanOk :
      (ctx : Context) (p : Encoding) (ephemeral : Option WafObject) (remaining : ℤ)
      (nodes : Node × Node)
      → BothOk ctx (p, ephemeral)
      → Yields (λ i. RanOk ctx i.ran) (after_stop w p ephemeral remaining nodes)
  after_stop-RanOk ctx p ephemeral remaining (node, root) h =
      unless_failed-RanOk ctx
        (record p { context = record p.context { timer = root }; polls = suc p.polls }) ephemeral
        remaining node p.failure h

  after_both-RanOk :
      (ctx : Context) (t : BaseTimer) (node root : Node) (remaining : ℤ)
      (b : Encoding × Option WafObject)
      → BothOk ctx b
      → Yields (λ i. RanOk ctx i.ran) (after_both w t node root remaining b)
  after_both-RanOk ctx t node root remaining (p, ephemeral) h =
      any-Yields (λ i. RanOk ctx i.ran) (stop_leaf waf_encode_tag (w.clock p.polls) t node root)
        (after_stop w p ephemeral remaining)
        (λ nodes. after_stop-RanOk ctx p ephemeral remaining nodes h)

  with_encode_timer-RanOk :
      (ctx : Context) (d : RunAddressData) (node : Node) (remaining : ℤ) (leaf : BaseTimer)
      → Yields (λ i. RanOk ctx i.ran) (with_encode_timer w ctx d node remaining leaf)
  with_encode_timer-RanOk ctx d node remaining leaf =
      let t = start_below (w.clock 1) remaining node leaf in
      bind-Yields (BothOk ctx) (λ i. RanOk ctx i.ran) (encode_both w t ctx d 2)
        (after_both w t node ctx.timer remaining) (encode_both-BothOk t ctx d 2)
        (after_both-RanOk ctx t node ctx.timer remaining)

  inside-RanOk :
      (ctx : Context) (d : RunAddressData) (t : BaseTimer) (node : Node)
      → Yields (λ i. RanOk ctx i.ran) (inside w ctx d t node)
  unfolding inside
  inside-RanOk ctx d t node =
      any-Yields (λ i. RanOk ctx i.ran) (must (new_leaf node waf_encode_tag []))
        (with_encode_timer w ctx d node (remaining_at (w.clock 1) t))
        (with_encode_timer-RanOk ctx d node (remaining_at (w.clock 1) t))

  with_metrics-RanOk :
      (ctx : Context) (i : Inside) (stopped : ℤ × List Node)
      → RanOk ctx i.ran
      → Yields (RanOk ctx) (with_metrics i stopped)
  with_metrics-RanOk ctx i (spent, []) h = tt
  with_metrics-RanOk ctx i (spent, root ∷ []) h = h
  with_metrics-RanOk ctx i (spent, root ∷ node ∷ nodes) h = tt

  finish_run-RanOk :
      (ctx : Context) (t : BaseTimer) (i : Inside)
      → RanOk ctx i.ran
      → Yields (RanOk ctx) (finish_run w t i)
  unfolding finish_run
  finish_run-RanOk ctx t i h =
      any-Yields (RanOk ctx) (stop_below waf_run_tag (w.clock i.polls) t (i.ran.context.timer ∷ []))
        (with_metrics i) (λ stopped. with_metrics-RanOk ctx i stopped h)

  pub after_new_node-RanOk :
      (ctx : Context) (d : RunAddressData) (n : TimerError ⊎ (BaseTimer × Node))
      → Yields (RanOk ctx) (after_new_node w ctx d n)
  unfolding after_new_node
  after_new_node-RanOk ctx d (inl e) = (refl, tt, Keeps-refl ctx.memory ctx.cgo_refs)
  after_new_node-RanOk ctx d (inr (t, node)) =
      let started = start_below (w.clock 0) ctx.timer.budget ctx.timer t in
      let n = with_budget_of started node in
      bind-Yields (λ i. RanOk ctx i.ran) (RanOk ctx) (inside w ctx d started n)
        (finish_run w started) (inside-RanOk ctx d started n) (finish_run-RanOk ctx started)
