-- ===== src/Loader/Tests.antt =====
-- waf.go: the witnesses of the theorems on loading.
use go_libddwaf.Base.{◌≡◌, ◌≢◌, refl, ◌≤◌, true, false, none, [], ◌∷◌, bytes, total}
use go_libddwaf.Bindings.{◌>>=◌}
use go_libddwaf.Bindings.Events.{any_opened, opened_as, closed_as}
use go_libddwaf.Bindings.Tests.{working, panicking}
use go_libddwaf.Loader.{Support, initial, health, load}
use go_libddwaf.Loader.Once.{load_all, load-once, IsOpen, load-IsOpen, IsLeft, load-IsLeft}
use go_libddwaf.Loader.Targets.{Target, support_of, has_stub, has_waf_dl, load_without_library}
use go_libddwaf.Loader.Health.{Explained, health-Explained}

abbrev supported : Support
supported = record { waf_support_errors = []; waf_manually_disabled_err = none }

load-once_example :
    let events = (load_all ((working, supported) ∷ (working, supported) ∷ []) initial).events in
    (total any_opened events ≤ 1) × (total (closed_as 7) events ≤ total (opened_as 7) events)
load-once_example = load-once ((working, supported) ∷ (working, supported) ∷ []) 7

load-IsOpen_again : IsOpen (load working supported (load_all ((working, supported) ∷ []) initial)).1
unfolding load_all load ◌>>=◌
load-IsOpen_again = load-IsOpen ((working, supported) ∷ []) working supported refl refl

-- The version panics, and still `Load` returns ok.
load-IsLeft_example : IsLeft panicking (load panicking supported initial).1
unfolding load ◌>>=◌
load-IsLeft_example = load-IsLeft panicking supported refl

panicking_closed : total (closed_as 7) (load panicking supported initial).1.events ≡ 1
unfolding load ◌>>=◌ total
panicking_closed = refl

health_tells : Explained none (health supported initial)
health_tells = health-Explained supported initial

-- Linux on amd64 without cgo and the tag `appsec`.
abbrev no_cgo : Target
no_cgo = record {
  linux = true;
  darwin = false;
  freebsd = false;
  amd64 = true;
  arm64 = false;
  cgo = false;
  appsec = false;
  go1_23 = false;
  no_waf = false;
  goos = bytes "linux";
  goarch = bytes "amd64";
}

with_appsec : has_waf_dl (record no_cgo { appsec = true }) ≡ true
unfolding has_waf_dl
with_appsec = refl

load_without_library_example :
    (load working (support_of no_cgo) initial
      ≡ ((false, (health (support_of no_cgo) initial).1), initial))
    × ((health (support_of no_cgo) initial).1 ≢ [])
unfolding has_stub
load_without_library_example = load_without_library no_cgo working initial refl
