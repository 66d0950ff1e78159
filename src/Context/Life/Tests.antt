-- ===== src/Context/Life/Tests.antt =====
-- context.go: the witnesses of the theorems on the life of a context.
use go_libddwaf.Base.{ℕ, ◌≡◌, refl, none, [], ◌∷◌, arith}
use go_libddwaf.Base.Int.{pos}
use go_libddwaf.Diagnostics.{no_diagnostics}
use go_libddwaf.Timer.{dynamic_budget}
use go_libddwaf.Handle.{Handle, new_handle}
use go_libddwaf.Handle.Lifetime.{HasOwners}
use go_libddwaf.Context.Life.{context_made, new_context_with_budget}
use go_libddwaf.Context.Life.Laws.{Lent, new_context-Lent, new_context_leaks}

abbrev fresh_handle : Handle
fresh_handle = new_handle no_diagnostics 7

-- ddwaf_context_init: context 4 of every instance.
abbrev four : ℕ → ℕ
four c = 4

new_context-Lent_example : Lent 7 1 (new_context_with_budget four [] fresh_handle (pos 1000))
new_context-Lent_example =
    new_context-Lent four [] fresh_handle (pos 1000) 7 0 (omega arith)
      (record { counted = refl; live = refl }) refl

new_context_leaks_example :
    let o = new_context_with_budget four [] fresh_handle dynamic_budget in
    (o.context ≡ none) × HasOwners 7 2 o.handle × (o.calls ≡ context_made 4 ∷ [])
new_context_leaks_example =
    new_context_leaks four [] fresh_handle 7 0 (omega arith)
      (record { counted = refl; live = refl }) (λ e. ground arith)
