-- ===== src/Loader/Targets.antt =====
-- internal/support, and the build constraints of internal/bindings, internal/lib and internal/log: what
-- is compiled for a target, and the errors that the initialisers then register.
use go_libddwaf.Base.{
  ◌≡◌, ◌≢◌, refl, sym, ◌∙◌, subst, Bool, true, false, not, ◌&&◌, ◌||◌, none, some, [], ◌∷◌, ◌++◌,
  Text, length, ◌==◌, if◌then◌else◌, arith,
}
use go_libddwaf.Errors.Messages.{
  unsupported_os_arch, unsupported_go_version, cgo_disabled, manually_disabled,
}
use go_libddwaf.Bindings.{LoadError, support, Platform, Opened}
use go_libddwaf.Loader.{Globals, Support, is_none, initial, health, opened_with, loaded, load}
use go_libddwaf.Loader.Health.{Explained, health-Explained}

-- The build tags that the constraints name, and runtime.GOOS and runtime.GOARCH.
pub record Target : Type 0 where
  pub linux : Bool
  pub darwin : Bool
  pub freebsd : Bool
  pub amd64 : Bool
  pub arm64 : Bool
  pub cgo : Bool
  pub appsec : Bool
  pub go1_23 : Bool
  pub no_waf : Bool
  pub goos : Text
  pub goarch : Text

-- The constraints of waf_unsupported_target.go and waf_cgo_disabled.go.
abbrev is_other_target : Target → Bool
is_other_target t = (not t.linux && not t.darwin) || (not t.amd64 && not t.arm64)

abbrev is_cgo_missing : Target → Bool
is_cgo_missing t = not t.cgo && not t.appsec

-- `append` to the errors, in a file that is compiled or not.
abbrev register : Bool → LoadError → Support → Support
register built e s =
    if built then record s { waf_support_errors = s.waf_support_errors ++ e ∷ [] } else s

-- The `init` of each of the four files, with the constraint of the file.
abbrev init_cgo_disabled : Target → Support → Support
init_cgo_disabled t s = register (is_cgo_missing t) (support cgo_disabled) s

abbrev init_manually_disabled : Target → Support → Support
init_manually_disabled t s =
    if t.no_waf
    then record s { waf_manually_disabled_err = some (support manually_disabled) }
    else s

abbrev init_unsupported_go : Target → Support → Support
init_unsupported_go t s = register t.go1_23 (support unsupported_go_version) s

abbrev init_unsupported_target : Target → Support → Support
init_unsupported_target t s =
    register (is_other_target t) (support (unsupported_os_arch t.goos t.goarch)) s

-- The initialisers run in the order of the names of their files.
unfoldable pub support_of : Target → Support
support_of t = init_unsupported_target t (
    init_unsupported_go t (
      init_manually_disabled t (
        init_cgo_disabled t
          (record { waf_support_errors = []; waf_manually_disabled_err = none }))))

-- The constraint of waf_dl.go, and that of waf_dl_unsupported.go.
unfoldable pub has_waf_dl : Target → Bool
has_waf_dl t =
    (t.linux || t.darwin)
    && ((t.amd64 || t.arm64) && (not t.go1_23 && (not t.no_waf && (t.cgo || t.appsec))))

unfoldable pub has_stub : Target → Bool
has_stub t =
    (not t.linux && not t.darwin)
    || ((not t.amd64 && not t.arm64) || (t.go1_23 || (t.no_waf || (not t.cgo && not t.appsec))))

-- The constraints of log_cgo.go, log_purego.go and log_unsupported.go.
has_log_cgo : Target → Bool
has_log_cgo t = t.cgo && not t.no_waf

has_log_purego : Target → Bool
has_log_purego t = not t.cgo && ((t.darwin || t.freebsd) && (not t.no_waf && not t.go1_23))

has_log_null : Target → Bool
has_log_null t = (not t.cgo && ((not t.darwin && not t.freebsd) || t.go1_23)) || t.no_waf

not-true : (b : Bool) → not b ≡ true → b ≡ false
not-true b e = ground arith

and-false : (b : Bool) → (b && false) ≡ false
and-false b = ground arith

-- For every target exactly one of the two files of internal/bindings is compiled.
one_binding : (t : Target) → has_stub t ≡ not (has_waf_dl t)
unfolding has_stub has_waf_dl
one_binding t = ground arith

-- For every target exactly one of the three log callbacks is compiled.
one_callback :
    (t : Target)
    → (has_log_null t ≡ not (has_log_cgo t || has_log_purego t))
      × ((has_log_cgo t && has_log_purego t) ≡ false)
unfolding has_log_cgo has_log_purego has_log_null
one_callback t = (ground arith, ground arith)

clean :
    (t : Target)
    → (length (support_of t).waf_support_errors == 0
        && is_none (support_of t).waf_manually_disabled_err)
      ≡ has_waf_dl t
unfolding support_of has_waf_dl
clean t = ground arith

-- Before the first `Load`, `Health` returns true for exactly the targets for which waf_dl.go is compiled.
health_of_target : (t : Target) → (health (support_of t) initial).0 ≡ has_waf_dl t
unfolding health
health_of_target t = clean t

-- `NewWafDl` of waf_dl_unsupported.go.
abbrev new_waf_dl_stub : Opened
new_waf_dl_stub = (none, none, [])

-- If `Load` did call the stub, it would return false without an error.
stub_is_silent :
    (p : Platform) (g : Globals) → (loaded (opened_with p g new_waf_dl_stub)).0 ≡ (false, [])
stub_is_silent p g = refl

stub_is_unhealthy :
    (t : Target) (g : Globals) → has_stub t ≡ true → (health (support_of t) g).0 ≡ false
unfolding health
stub_is_unhealthy t g e =
    rw (clean t, not-true (has_waf_dl t) (sym (one_binding t) ∙ e)) (and-false _)

-- For a target for which waf_dl_unsupported.go is compiled, `Load` returns false with the errors of `Health`,
-- of which there is at least one, and changes nothing: its `NewWafDl`, which returns neither a library
-- nor an error, is never called.
pub load_without_library :
    (t : Target) (p : Platform) (g : Globals)
    → has_stub t ≡ true
    → (load p (support_of t) g ≡ ((false, (health (support_of t) g).1), g))
      × ((health (support_of t) g).1 ≢ [])
unfolding load
load_without_library t p g e =
    let unhealthy = stub_is_unhealthy t g e in
    (
      rw unhealthy refl,
      subst (λ ok. Explained g.waf_load_err (ok, (health (support_of t) g).1)) unhealthy
          (health-Explained (support_of t) g),
    )
