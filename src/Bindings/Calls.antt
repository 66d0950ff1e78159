-- ===== src/Bindings/Calls.antt =====
-- internal/bindings/waf_dl.go: the methods of `WafDl` that call a function of libddwaf. Pointers are
-- addresses, and `syscall` is the parameter: a function's address and its arguments, with the result.
-- What `WafKnownAddresses` makes of the result stands in Bindings/Strings.
use go_libddwaf.Base.{ℕ, ◌≡◌, Option, List, [], ◌∷◌, Text, bytes, ◌⊎◌, inl, inr}
use go_libddwaf.Base.Int.{ℤ, pos, wrap32}
use go_libddwaf.Bindings.{LoadError, WafSymbols, WafDl, Platform}
use go_libddwaf.Bindings.Strings.{Bytes, waf_known_addresses}

-- Close
abbrev pub close_dl : Platform → WafDl → Option LoadError
close_dl p waf = p.dlclose waf.handle

module _ (syscall : ℕ → List ℕ → ℕ) (waf : WafDl) where
  abbrev pub waf_get_version : ℕ
  waf_get_version = syscall waf.symbols.get_version []

  abbrev pub waf_init : ℕ → ℕ → ℕ → ℕ
  waf_init rules config info = syscall waf.symbols.init (rules ∷ config ∷ info ∷ [])

  abbrev pub waf_update : ℕ → ℕ → ℕ → ℕ
  waf_update handle rules info = syscall waf.symbols.update (handle ∷ rules ∷ info ∷ [])

  abbrev pub waf_destroy : ℕ → ℕ
  waf_destroy handle = syscall waf.symbols.destroy (handle ∷ [])

  abbrev pub waf_context_init : ℕ → ℕ
  waf_context_init handle = syscall waf.symbols.context_init (handle ∷ [])

  abbrev pub waf_context_destroy : ℕ → ℕ
  waf_context_destroy context = syscall waf.symbols.context_destroy (context ∷ [])

  abbrev pub waf_result_free : ℕ → ℕ
  waf_result_free result = syscall waf.symbols.result_free (result ∷ [])

  abbrev pub waf_object_free : ℕ → ℕ
  waf_object_free obj = syscall waf.symbols.object_free (obj ∷ [])

  -- The result is an int32.
  unfoldable pub waf_run : ℕ → ℕ → ℕ → ℕ → ℕ → ℤ
  unfolding wrap32
  waf_run context persistent ephemeral result timeout =
      wrap32
        (pos (syscall waf.symbols.run (context ∷ persistent ∷ ephemeral ∷ result ∷ timeout ∷ [])))

  -- WafKnownAddresses: `nb` is the address of `nbAddresses`, and `count` what the call leaves there.
  unfoldable pub known_addresses_of : Bytes → ℕ → ℕ → ℕ → ℕ → Option (List Text)
  unfolding waf_known_addresses
  known_addresses_of m fuel nb count handle =
      waf_known_addresses m fuel (λ h. (syscall waf.symbols.known_addresses (h ∷ nb ∷ []), count))
        handle

-- A call of the function that dlsym finds under a name.
abbrev pub Calls : Platform → ℕ → (ℕ → List ℕ → ℕ) → Text → List ℕ → ℕ → Type 0
Calls p handle syscall name args result =
    (f : ℕ) × (p.dlsym handle name ≡ inr f) × (result ≡ syscall f args)

-- Every symbol is what dlsym finds under its name.
pub record AreNamed (p : Platform) (handle : ℕ) (s : WafSymbols) : Type 0 where
  pub init : p.dlsym handle (bytes "ddwaf_init") ≡ inr s.init
  pub update : p.dlsym handle (bytes "ddwaf_update") ≡ inr s.update
  pub destroy : p.dlsym handle (bytes "ddwaf_destroy") ≡ inr s.destroy
  pub known_addresses : p.dlsym handle (bytes "ddwaf_known_addresses") ≡ inr s.known_addresses
  pub get_version : p.dlsym handle (bytes "ddwaf_get_version") ≡ inr s.get_version
  pub context_init : p.dlsym handle (bytes "ddwaf_context_init") ≡ inr s.context_init
  pub context_destroy : p.dlsym handle (bytes "ddwaf_context_destroy") ≡ inr s.context_destroy
  pub result_free : p.dlsym handle (bytes "ddwaf_result_free") ≡ inr s.result_free
  pub object_free : p.dlsym handle (bytes "ddwaf_object_free") ≡ inr s.object_free
  pub run : p.dlsym handle (bytes "ddwaf_run") ≡ inr s.run

inr_of : {A B : Type 0} → B → A ⊎ B → B
inr_of b (inl a) = b
inr_of b (inr c) = c

-- What each method calls, for any arguments.
abbrev pub MethodsCall : Platform → WafDl → (ℕ → List ℕ → ℕ) → Type 0
MethodsCall p waf syscall =
    (a b c d e : ℕ) (m : Bytes) (fuel count : ℕ)
    → let does = Calls p waf.handle syscall in
      does (bytes "ddwaf_init") (a ∷ b ∷ c ∷ []) (waf_init syscall waf a b c)
      × does (bytes "ddwaf_update") (a ∷ b ∷ c ∷ []) (waf_update syscall waf a b c)
      × does (bytes "ddwaf_destroy") (a ∷ []) (waf_destroy syscall waf a)
      × does (bytes "ddwaf_get_version") [] (waf_get_version syscall waf)
      × does (bytes "ddwaf_context_init") (a ∷ []) (waf_context_init syscall waf a)
      × does (bytes "ddwaf_context_destroy") (a ∷ []) (waf_context_destroy syscall waf a)
      × does (bytes "ddwaf_result_free") (a ∷ []) (waf_result_free syscall waf a)
      × does (bytes "ddwaf_object_free") (a ∷ []) (waf_object_free syscall waf a)
      × ((f : ℕ) × (p.dlsym waf.handle (bytes "ddwaf_run") ≡ inr f)
          × (waf_run syscall waf a b c d e ≡ wrap32 (pos (syscall f (a ∷ b ∷ c ∷ d ∷ e ∷ [])))))
      × ((f : ℕ) × (p.dlsym waf.handle (bytes "ddwaf_known_addresses") ≡ inr f)
          × (known_addresses_of syscall waf m fuel b count a
              ≡ waf_known_addresses m fuel (λ h. (syscall f (h ∷ b ∷ []), count)) a))
