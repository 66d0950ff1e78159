-- ===== src/Loader.antt =====
-- waf.go: the global state of the loaded library, and the functions that ask for it.
pub mod Health
pub mod Once
pub mod Targets
mod Tests
use go_libddwaf.Base.{
  Bool, true, false, not, ◌&&◌, ◌||◌, Option, none, some, List, [], ◌∷◌, ◌++◌, Text, length, ltb,
  ◌==◌, if◌then◌else◌, inl, inr,
}
use go_libddwaf.Bindings.{LoadError, Event, Platform, WafDl, Opened, new_waf_dl}

-- The package variables; `done` is the state of `openWafOnce`, `events` what was done so far.
pub record Globals : Type 0 where
  pub waf_lib : Option WafDl
  pub waf_load_err : Option LoadError
  pub done : Bool
  pub waf_version : Text
  pub events : List Event

abbrev pub initial : Globals
initial = record {
  waf_lib = none;
  waf_load_err = none;
  done = false;
  waf_version = [];
  events = [];
}

-- The variables of internal/support, which the build tags set.
pub record Support : Type 0 where
  pub waf_support_errors : List LoadError
  pub waf_manually_disabled_err : Option LoadError

-- The errors of a multierror: none for nil.
abbrev pub errors_of : Option LoadError → List LoadError
errors_of none = []
errors_of (some e) = e ∷ []

abbrev pub is_none : {A : Type 0} → Option A → Bool
is_none none = true
is_none (some a) = false

-- SupportsTarget
abbrev pub supports_target : Support → Bool × List LoadError
supports_target s = (length s.waf_support_errors == 0, s.waf_support_errors)

-- Health
unfoldable pub health : Support → Globals → Bool × List LoadError
health s g = (
  (not (is_none g.waf_lib) || is_none g.waf_load_err)
      && (length s.waf_support_errors == 0 && is_none s.waf_manually_disabled_err),
  errors_of g.waf_load_err ++ (s.waf_support_errors ++ errors_of s.waf_manually_disabled_err),
)

-- wafLib.WafGetVersion(), if it does not panic.
abbrev pub version_of : Platform → Option WafDl → Text → Text
version_of p none old = old
version_of p (some dl) old = elim (p.call_version dl) [ inl e ↦ old | inr version ↦ version ]

-- The function that `openWafOnce` runs, with the results of `NewWafDl`.
abbrev pub opened_with : Platform → Globals → Opened → Globals
opened_with p g (dl, none, events) = record {
  waf_lib = dl;
  waf_load_err = none;
  done = true;
  waf_version = version_of p dl g.waf_version;
  events = g.events ++ events;
}
opened_with p g (dl, some e, events) = record g {
  waf_lib = dl;
  waf_load_err = some e;
  done = true;
  events = g.events ++ events;
}

unfoldable pub open_once : Platform → Globals → Globals
unfolding new_waf_dl
open_once p g = if g.done then g else opened_with p g (new_waf_dl p)

-- What `Load` returns after `Do`.
abbrev pub loaded : Globals → (Bool × List LoadError) × Globals
loaded g = ((not (is_none g.waf_lib), errors_of g.waf_load_err), g)

-- Load
unfoldable pub load : Platform → Support → Globals → (Bool × List LoadError) × Globals
unfolding health open_once
load p s g =
    let (ok, errors) = health s g in if ok then loaded (open_once p g) else ((false, errors), g)

-- Version
unfoldable pub version : Platform → Support → Globals → Text × Globals
unfolding load
version p s g = let (r, g') = load p s g in (g'.waf_version, g')
