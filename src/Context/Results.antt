-- ===== src/Context/Results.antt =====
-- waf.go: `Result`, and what it says of a run without a match.
use go_libddwaf.Base.{ℕ, suc, ◌≡◌, refl, Bool, false, Option, ltb, length}
use go_libddwaf.Base.Int.{ℤ, eq_ℤ}
use go_libddwaf.Errors.{Error}
use go_libddwaf.Memory.{Memory}
use go_libddwaf.Decoder.Objects.{Any, Anys, no_anys, any, Members, no_members, member}
use go_libddwaf.Context.{
  Result, WafResult, waf_ok, waf_match, unwrap_waf_result, unwrap_derivatives,
}
use go_libddwaf.Context.Run.Encodings.{Yields, any-Yields, if-Yields}

-- `len` of a slice or a map that the decoder has made, 0 of nil.
abbrev pub count_anys : Anys → ℕ
count_anys no_anys = 0
count_anys (any v l) = suc (count_anys l)

abbrev pub count_members : Members → ℕ
count_members no_members = 0
count_members (member k v l) = suc (count_members l)

abbrev pub length_of : Any → ℕ
length_of (Any.array l) = count_anys l
length_of (Any.dict l) = count_members l
length_of v = 0

abbrev pub has_events : Result → Bool
has_events r = ltb 0 (length_of r.events)

abbrev pub has_derivatives : Result → Bool
has_derivatives r = ltb 0 (length_of r.derivatives)

abbrev pub has_actions : Result → Bool
has_actions r = ltb 0 (length r.actions)

-- Neither events nor actions.
abbrev Quiet : Result × Option Error → Type 0
Quiet (r, e) = (has_events r ≡ false) × (has_actions r ≡ false)

-- Whatever libddwaf has filled in, a return code other than that of a match gives a result without events
-- and without actions.
pub unwrap_without_match :
    (m : Memory) (fuel : ℕ) (code : ℤ) (r : WafResult)
    → eq_ℤ code waf_match ≡ false
    → Yields Quiet (unwrap_waf_result m fuel code r)
unfolding unwrap_waf_result
unwrap_without_match m fuel code r n =
    any-Yields Quiet (unwrap_derivatives m fuel r) _
      (λ x. if-Yields Quiet (eq_ℤ code waf_ok) _ _ (refl, refl) (rw n (refl, refl)))
