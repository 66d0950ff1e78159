-- ===== src/Bindings/Closing.antt =====
-- internal/bindings/waf_dl.go: how many libraries `NewWafDl` opens, and when the one that it returns was
-- closed.
use go_libddwaf.Base.{
  ℕ, ◌≡◌, refl, ◌∙◌, ◌≤◌, true, Option, none, some, List, [], ◌∷◌, ◌++◌, arith, Text, ◌⊎◌, inl, inr,
  ◌==◌, total, total-append,
}
use go_libddwaf.Bindings.{
  LoadError, Event, removed, Platform, WafDl, WafSymbols, Opened, remove_on_error,
  dump_embedded_waf, try_call, after_call, after_resolve, after_dlopen, removing, after_dump,
  after_create, after_close, written, resolve_waf_symbols, new_waf_dl,
}
use go_libddwaf.Bindings.Events.{
  closed_as, any_opened, any_opened-call, closed_as-call, is_call, total-zero, set_log-calls,
}
use go_libddwaf.Bindings.Loading.{Unopened, Dumped, closed-wrap, after_create-Dumped}

abbrev pub panics : LoadError ⊎ Text → ℕ
panics (inl e) = 1
panics (inr version) = 0

-- At most one library was opened; the one that is returned was closed if its version panicked, and only
-- then.
abbrev pub Ended : Platform → Opened → Type 0
Ended p (none, err, events) = total any_opened events ≤ 1
Ended p (some dl, err, events) =
    (total any_opened events ≤ 1)
    × (total (closed_as dl.handle) events ≡ panics (p.call_version dl))

same : (h : ℕ) → (h == h) ≡ true
same h = ground arith

module _ (p : Platform) where
  after_call-Ended :
      (dl : WafDl) (r : LoadError ⊎ Text)
      → p.call_version dl ≡ r
      → Ended p (after_call p dl (try_call r))
  unfolding total
  after_call-Ended dl (inl e) v = (omega arith, rw (same dl.handle, v) refl)
  after_call-Ended dl (inr x) v =
      let calls = set_log-calls p dl in
      let y = total-zero (closed_as dl.handle) is_call (closed_as-call dl.handle) _ calls in
      (
        omega (arith, total-zero any_opened is_call any_opened-call _ calls),
        rw v (omega (arith, y)),
      )

  after_resolve-Ended : (h : ℕ) (r : LoadError ⊎ WafSymbols) → Ended p (after_resolve p h r)
  unfolding total
  after_resolve-Ended h (inl e) = omega arith
  after_resolve-Ended h (inr s) = after_call-Ended _ _ refl

  after_dlopen-Ended : (r : LoadError ⊎ ℕ) → Ended p (after_dlopen p r)
  unfolding after_dlopen total
  after_dlopen-Ended (inl e) = omega arith
  after_dlopen-Ended (inr h) = after_resolve-Ended h (resolve_waf_symbols p h)

  remove_on_error-opens :
      (path : Text) (r : Option LoadError) → total any_opened (remove_on_error p path r).1 ≡ 0
  unfolding total
  remove_on_error-opens path none = refl
  remove_on_error-opens [] (some e) = refl
  remove_on_error-opens (c ∷ path) (some e) = refl

  after_create-opens : (r : LoadError ⊎ Text) → total any_opened (after_create p r).2 ≡ 0
  unfolding total
  after_create-opens (inl e) = refl
  after_create-opens (inr path) =
      omega (arith, remove_on_error-opens path (after_close (written p path) (p.close_file path)))

  -- The file's events are no events of a library.
  opens-wrap :
      (dumped : List Event) (file : Text) (events : List Event)
      → total any_opened dumped ≡ 0
      → total any_opened (dumped ++ (events ++ removed file ∷ [])) ≡ total any_opened events
  unfolding total
  opens-wrap dumped file events z = omega (
    arith,
    z,
    total-append any_opened dumped (events ++ removed file ∷ []),
    total-append any_opened events (removed file ∷ []),
  )

  removing-Ended :
      (file : Text) (dumped : List Event) (r : Opened)
      → total any_opened dumped ≡ 0
      → Unopened dumped
      → Ended p r
      → Ended p (removing p file dumped r)
  removing-Ended file dumped (none, err, events) z u e =
      omega (arith, e, opens-wrap dumped file events z)
  removing-Ended file dumped (some dl, err, events) z u (e, c) = (
    omega (arith, e, opens-wrap dumped file events z),
    closed-wrap dumped file events u dl.handle ∙ c,
  )

  after_dump-Ended :
      (d : Text × Option LoadError × List Event)
      → Dumped d
      → total any_opened d.2 ≡ 0
      → Ended p (after_dump p d)
  after_dump-Ended (file, some err, dumped) (t, u) z = omega (arith, z)
  after_dump-Ended (file, none, dumped) (e, u) z =
      removing-Ended file dumped _ z u (after_dlopen-Ended (p.dlopen file))

-- Whatever the platform answers, `NewWafDl` opens at most one library, and has closed the one that it
-- returns if the call of ddwaf_get_version panicked, and only then.
pub new_waf_dl-Ended : (p : Platform) → Ended p (new_waf_dl p)
unfolding new_waf_dl dump_embedded_waf
new_waf_dl-Ended p =
    after_dump-Ended p _ (after_create-Dumped p p.create_temp) (after_create-opens p p.create_temp)
