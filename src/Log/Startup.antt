-- ===== src/Log/Startup.antt =====
-- internal/log/log.go, internal/log/log_purego.go and internal/log/log_unsupported.go: the filter that
-- the initialiser compiles, and the pointer to the callback that libddwaf is given.
use go_libddwaf.Base.{
  ℕ, zero, suc, ◌≡◌, refl, Bool, true, false, Option, none, some, List, [], ◌∷◌, ◌++◌, Text, bytes,
  ◌⊎◌, inl, inr, replicate,
}

-- A pattern becomes a test of texts, or an error with this message.
abbrev Compile : Type 0
Compile = Text → Text ⊎ (Text → Bool)

abbrev compiled : Text ⊎ (Text → Bool) → Text ⊎ Option (Text → Bool)
compiled (inl err) = inl (bytes "invalid DD_APPSEC_WAF_LOG_FILTER value: " ++ err)
compiled (inr matches) = inr (some matches)

-- `init`, with the values of the two variables: the filter, or the message with which the program ends.
abbrev init_filter : Compile → Text → Text → Text ⊎ Option (Text → Bool)
init_filter compile [] val = inr none
init_filter compile level [] = inr none
init_filter compile level val = compiled (compile val)

-- `once` and `functionPointer`, and the number of callbacks made.
record Callback : Type 0 where
  done : Bool
  function_pointer : ℕ
  made : ℕ

abbrev no_callback : Callback
no_callback = record { done = false; function_pointer = 0; made = 0 }

-- The function that `once` runs: `new_callback k` is what purego.NewCallback returns the k-th time.
abbrev make_callback : (ℕ → ℕ) → Bool → Callback → Callback
make_callback new_callback true c = c
make_callback new_callback false c = record {
  done = true;
  function_pointer = new_callback c.made;
  made = suc c.made;
}

-- CallbackFunctionPointer
callback_function_pointer : (ℕ → ℕ) → Callback → ℕ × Callback
callback_function_pointer new_callback c =
    let c' = make_callback new_callback c.done c in (c'.function_pointer, c')

abbrev callback_unsupported : ℕ
callback_unsupported = 0

abbrev pointers : (ℕ → ℕ) → ℕ → Callback → List ℕ × Callback
pointers new_callback zero c = ([], c)
pointers new_callback (suc n) c =
    let (p, c') = callback_function_pointer new_callback c in
    let (ps, c'') = pointers new_callback n c' in (p ∷ ps, c'')

-- All calls of `CallbackFunctionPointer` return the pointer of the one callback that is made.
pointers_lem :
    (new_callback : ℕ → ℕ) (n : ℕ)
    → pointers new_callback (suc n) no_callback ≡ (
      replicate (suc n) (new_callback 0),
      record { done = true; function_pointer = new_callback 0; made = 1 },
    )
unfolding callback_function_pointer
pointers_lem new_callback n = rw (again n) refl
  where
    again :
        (n : ℕ)
        → pointers new_callback n
            (record { done = true; function_pointer = new_callback 0; made = 1 })
          ≡ (
            replicate n (new_callback 0),
            record { done = true; function_pointer = new_callback 0; made = 1 },
          )
    again zero = refl
    again (suc n) = rw (again n) refl
