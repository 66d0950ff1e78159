-- ===== src/Bindings/Symbols.antt =====
-- internal/bindings/waf_dl.go: `resolveWafSymbols`.
use go_libddwaf.Base.{ℕ, ◌≡◌, refl, List, [], ◌∷◌, ◌++◌, Text, bytes, ◌⊎◌, inl, inr}
use go_libddwaf.Bindings.{LoadError, Platform, WafSymbols, resolve_waf_symbols, ◌>>=◌}

-- The functions of libddwaf, in the order in which they are looked up.
abbrev pub symbol_names : List Text
symbol_names =
    bytes "ddwaf_init"
    ∷ bytes "ddwaf_update"
    ∷ bytes "ddwaf_destroy"
    ∷ bytes "ddwaf_known_addresses"
    ∷ bytes "ddwaf_get_version"
    ∷ bytes "ddwaf_context_init"
    ∷ bytes "ddwaf_context_destroy"
    ∷ bytes "ddwaf_result_free"
    ∷ bytes "ddwaf_object_free"
    ∷ bytes "ddwaf_run"
    ∷ []

abbrev pub addresses : WafSymbols → List ℕ
addresses s =
    s.init ∷ s.update ∷ s.destroy ∷ s.known_addresses ∷ s.get_version ∷ s.context_init
    ∷ s.context_destroy ∷ s.result_free ∷ s.object_free ∷ s.run ∷ []

-- The names looked up one after the other, until the first error.
unfoldable pub look_up : (Text → LoadError ⊎ ℕ) → List ℕ → List Text → LoadError ⊎ List ℕ
look_up f found [] = inr found
look_up f found (name ∷ names) = f name >>= (λ address. look_up f (found ++ address ∷ []) names)

abbrev pub found : LoadError ⊎ WafSymbols → LoadError ⊎ List ℕ
found (inl e) = inl e
found (inr symbols) = inr (addresses symbols)

bind_found :
    (x : LoadError ⊎ ℕ) (k : ℕ → LoadError ⊎ WafSymbols) (l : ℕ → LoadError ⊎ List ℕ)
    → ((a : ℕ) → found (k a) ≡ l a)
    → found (x >>= k) ≡ (x >>= l)
unfolding ◌>>=◌
bind_found (inl e) k l h = refl
bind_found (inr a) k l h = h a

-- `resolveWafSymbols` looks up the ten functions in order: it returns the first error, and otherwise
-- the address of each function in the field of its name.
pub resolve-look_up :
    (p : Platform) (handle : ℕ)
    → found (resolve_waf_symbols p handle) ≡ look_up (p.dlsym handle) [] symbol_names
unfolding resolve_waf_symbols look_up
resolve-look_up p handle = bind_found _ _ _ (λ a. bind_found _ _ _ (λ b. bind_found _ _ _ (λ c.
    bind_found _ _ _ (λ d. bind_found _ _ _ (λ e. bind_found _ _ _ (λ f.
      bind_found _ _ _
        (λ g. bind_found _ _ _ (λ h. bind_found _ _ _ (λ i. bind_found _ _ _ (λ j. refl))))))))))
