-- ===== src/Bindings/Loading.antt =====
-- internal/bindings/waf_dl.go: what `NewWafDl` opens, closes, creates and removes.
use go_libddwaf.Base.{
  ℕ, ◌≡◌, refl, ◌∙◌, sym, ◌≤◌, true, Option, none, some, List, [], ◌∷◌, ◌++◌, arith, Text, ◌⊎◌, inl,
  inr, ◌==◌, total, total-append, All, All-map,
}
use go_libddwaf.Bindings.{
  LoadError, Event, created, removed, closed_file, Platform, WafDl, WafSymbols, Opened,
  remove_on_error, dump_embedded_waf, after_call, after_resolve, after_dlopen, removing, after_dump,
  after_create, resolve_waf_symbols, with_remove, new_waf_dl,
}
use go_libddwaf.Bindings.Events.{
  count, count-le, created_as, removed_as, opened_as, closed_as, is_library, is_call, total-zero,
  created_as-library, removed_as-library, opened_as-call, closed_as-call, library-call,
  set_log-calls,
}

-- What becomes of the library: without a result it was closed if it was opened; with a result and no
-- error it is open; with a result and an error it was opened, and may be closed.
abbrev pub Outcome : Opened → Type 0
Outcome (none, none, events) = ⊥
Outcome (none, some err, events) =
    (h : ℕ)
    → (total (opened_as h) events ≡ total (closed_as h) events) × (total (opened_as h) events ≤ 1)
Outcome (some dl, none, events) =
    (h : ℕ)
    → (total (opened_as h) events ≡ count (h == dl.handle)) × (total (closed_as h) events ≡ 0)
Outcome (some dl, some err, events) =
    (h : ℕ)
    → (total (opened_as h) events ≡ count (h == dl.handle))
      × (total (closed_as h) events ≤ count (h == dl.handle))

abbrev Library : Opened → Type 0
Library (dl, err, events) = All (λ e. is_library e ≡ true) events

module _ (p : Platform) where
  after_call-Outcome : (dl : WafDl) (r : Option LoadError) → Outcome (after_call p dl r)
  unfolding total
  after_call-Outcome dl (some e) = λ h. (omega arith, omega arith)
  after_call-Outcome dl none = λ h.
      let z = total-zero (opened_as h) is_call (opened_as-call h) _ (set_log-calls p dl) in
      let y = total-zero (closed_as h) is_call (closed_as-call h) _ (set_log-calls p dl) in
      (omega (arith, z), omega (arith, y))

  after_resolve-Outcome : (h : ℕ) (r : LoadError ⊎ WafSymbols) → Outcome (after_resolve p h r)
  unfolding total
  after_resolve-Outcome h (inl e) = λ k. (omega arith, omega (arith, count-le (k == h)))
  after_resolve-Outcome h (inr s) = after_call-Outcome _ _

  after_dlopen-Outcome : (r : LoadError ⊎ ℕ) → Outcome (after_dlopen p r)
  unfolding after_dlopen total
  after_dlopen-Outcome (inl e) = λ h. (refl, omega arith)
  after_dlopen-Outcome (inr h) = after_resolve-Outcome h (resolve_waf_symbols p h)

  after_call-Library : (dl : WafDl) (r : Option LoadError) → Library (after_call p dl r)
  after_call-Library dl (some e) = (refl, (refl, (refl, tt)))
  after_call-Library dl none =
      (refl, (refl, All-map _ (λ e b. library-call e b) _ (set_log-calls p dl)))

  after_resolve-Library : (h : ℕ) (r : LoadError ⊎ WafSymbols) → Library (after_resolve p h r)
  after_resolve-Library h (inl e) = (refl, (refl, tt))
  after_resolve-Library h (inr s) = after_call-Library _ _

  after_dlopen-Library : (r : LoadError ⊎ ℕ) → Library (after_dlopen p r)
  unfolding after_dlopen
  after_dlopen-Library (inl e) = tt
  after_dlopen-Library (inr h) = after_resolve-Library h (resolve_waf_symbols p h)

-- Events that leave the library alone.
abbrev pub Unopened : List Event → Type 0
Unopened events = (h : ℕ) → (total (opened_as h) events ≡ 0) × (total (closed_as h) events ≡ 0)

module _ (dumped : List Event) (file : Text) (events : List Event) (u : Unopened dumped)
    (h : ℕ) where
  opened-wrap :
      total (opened_as h) (dumped ++ (events ++ removed file ∷ [])) ≡ total (opened_as h) events
  unfolding total
  opened-wrap = omega (
    arith,
    (u h).0,
    total-append (opened_as h) dumped (events ++ removed file ∷ []),
    total-append (opened_as h) events (removed file ∷ []),
  )

  pub closed-wrap :
      total (closed_as h) (dumped ++ (events ++ removed file ∷ [])) ≡ total (closed_as h) events
  unfolding total
  closed-wrap = omega (
    arith,
    (u h).1,
    total-append (closed_as h) dumped (events ++ removed file ∷ []),
    total-append (closed_as h) events (removed file ∷ []),
  )

-- The file's events do not change what becomes of the library.
Outcome-wrap :
    (dumped : List Event) (file : Text) (rm : Option LoadError) (dl : Option WafDl)
    (err : Option LoadError) (events : List Event)
    → Unopened dumped
    → Outcome (dl, err, events)
    → Outcome (dl, with_remove err rm, dumped ++ (events ++ removed file ∷ []))
Outcome-wrap dumped file none none none events u o = absurd o
Outcome-wrap dumped file (some e) none none events u o = absurd o
Outcome-wrap dumped file none none (some e) events u o = λ h.
    let a = opened-wrap dumped file events u h in
    let b = closed-wrap dumped file events u h in
    (omega (arith, (o h).0, a, b), omega (arith, (o h).1, a))
Outcome-wrap dumped file (some f) none (some e) events u o = λ h.
    let a = opened-wrap dumped file events u h in
    let b = closed-wrap dumped file events u h in
    (omega (arith, (o h).0, a, b), omega (arith, (o h).1, a))
Outcome-wrap dumped file none (some dl) none events u o = λ h.
    (opened-wrap dumped file events u h ∙ (o h).0, closed-wrap dumped file events u h ∙ (o h).1)
Outcome-wrap dumped file (some f) (some dl) none events u o = λ h. (
  opened-wrap dumped file events u h ∙ (o h).0,
  omega (arith, (o h).1, closed-wrap dumped file events u h),
)
Outcome-wrap dumped file none (some dl) (some err) events u o = λ h. (
  opened-wrap dumped file events u h ∙ (o h).0,
  omega (arith, (o h).1, closed-wrap dumped file events u h),
)
Outcome-wrap dumped file (some f) (some dl) (some err) events u o = λ h. (
  opened-wrap dumped file events u h ∙ (o h).0,
  omega (arith, (o h).1, closed-wrap dumped file events u h),
)

-- Every path but the empty one is removed as often as it is created.
abbrev pub Tidy : List Event → Type 0
Tidy events =
    (c : ℕ) (cs : Text) → total (created_as (c ∷ cs)) events ≡ total (removed_as (c ∷ cs)) events

-- What `DumpEmbeddedWAF` leaves: after an error, nothing; otherwise a closed file.
abbrev pub Dumped : Text × Option LoadError × List Event → Type 0
Dumped (file, some err, events) = Tidy events × Unopened events
Dumped (file, none, events) = (events ≡ created file ∷ closed_file file ∷ []) × Unopened events

module _ (p : Platform) where
  remove_on_error-Dumped :
      (path : Text) (r : Option LoadError)
      → let (err, events) = remove_on_error p path r in
        Dumped (path, err, created path ∷ closed_file path ∷ events)
  unfolding total
  remove_on_error-Dumped path none = (refl, λ h. (refl, refl))
  remove_on_error-Dumped [] (some e) = (λ c cs. refl, λ h. (refl, refl))
  remove_on_error-Dumped (x ∷ path) (some e) = (λ c cs. omega arith, λ h. (refl, refl))

  pub after_create-Dumped : (r : LoadError ⊎ Text) → Dumped (after_create p r)
  unfolding total
  after_create-Dumped (inl e) = (λ c cs. refl, λ h. (refl, refl))
  after_create-Dumped (inr path) = remove_on_error-Dumped path _

  removing-Outcome :
      (file : Text) (dumped : List Event) (r : Opened)
      → Unopened dumped
      → Outcome r
      → Outcome (removing p file dumped r)
  removing-Outcome file dumped (dl, err, events) u o =
      Outcome-wrap dumped file (p.remove file) dl err events u o

  removing-Tidy :
      (file : Text) (r : Opened)
      → Library r
      → Tidy (removing p file (created file ∷ closed_file file ∷ []) r).2
  unfolding total
  removing-Tidy file (dl, err, events) l = λ c cs.
      let path = c ∷ cs in
      omega (
        arith,
        total-append (created_as path) events (removed file ∷ []),
        total-append (removed_as path) events (removed file ∷ []),
        total-zero (created_as path) is_library (created_as-library path) events l,
        total-zero (removed_as path) is_library (removed_as-library path) events l,
      )

  after_dump-Outcome :
      (d : Text × Option LoadError × List Event) → Dumped d → Outcome (after_dump p d)
  after_dump-Outcome (file, some err, dumped) (t, u) =
      λ h. ((u h).0 ∙ sym (u h).1, omega (arith, (u h).0))
  after_dump-Outcome (file, none, dumped) (e, u) =
      removing-Outcome file dumped _ u (after_dlopen-Outcome p (p.dlopen file))

  after_dump-Tidy : (d : Text × Option LoadError × List Event) → Dumped d → Tidy (after_dump p d).2
  after_dump-Tidy (file, some err, dumped) (t, u) = t
  after_dump-Tidy (file, none, dumped) (e, u) =
      rw e (
        removing-Tidy file (after_dlopen p (p.dlopen file))
          (after_dlopen-Library p (p.dlopen file)))

-- Whatever the platform answers, `NewWafDl` closes the library again if it returns no `WafDl`; with a
-- `WafDl` it has opened its handle once, and has not closed it if it returns no error.
pub new_waf_dl-Outcome : (p : Platform) → Outcome (new_waf_dl p)
unfolding new_waf_dl dump_embedded_waf
new_waf_dl-Outcome p = after_dump-Outcome p _ (after_create-Dumped p p.create_temp)

-- Whatever the platform answers, `NewWafDl` removes each temporary file as often as it is created,
-- unless its name is empty.
pub new_waf_dl-Tidy : (p : Platform) → Tidy (new_waf_dl p).2
unfolding new_waf_dl dump_embedded_waf
new_waf_dl-Tidy p = after_dump-Tidy p _ (after_create-Dumped p p.create_temp)
