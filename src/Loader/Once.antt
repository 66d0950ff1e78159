-- ===== src/Loader/Once.antt =====
-- waf.go: `Load` opens the library once.
use go_libddwaf.Base.{
  ℕ, ◌≡◌, refl, ◌∙◌, sym, subst, Bool, true, false, not, Option, none, some, List, [], ◌∷◌, ◌⊎◌,
  arith, Bool-cases, inl, inr, if◌then◌else◌, total, ◌==◌, ◌≤◌,
}
use go_libddwaf.Bindings.{LoadError, Event, Platform, WafDl, Opened, new_waf_dl}
use go_libddwaf.Bindings.Events.{any_opened, opened_as, closed_as, count, count-le}
use go_libddwaf.Bindings.Closing.{Ended, panics, new_waf_dl-Ended}
use go_libddwaf.Bindings.Loading.{Outcome, Tidy, new_waf_dl-Outcome, new_waf_dl-Tidy}
use go_libddwaf.Loader.{
  Globals, initial, Support, errors_of, is_none, health, opened_with, open_once, loaded, load,
}

-- Either `openWafOnce` has not run and nothing was done, or the variables are what `NewWafDl` left.
abbrev pub Sound : Globals → Type 0
Sound g =
    (g ≡ initial)
    ⊎ ((g.done ≡ true)
        × Outcome (g.waf_lib, g.waf_load_err, g.events)
        × Tidy g.events
        × (total any_opened g.events ≤ 1))

Ended-once : (p : Platform) (r : Opened) → Ended p r → total any_opened r.2 ≤ 1
Ended-once p (none, err, events) e = e
Ended-once p (some dl, err, events) e = e.0

opened_with-Sound :
    (p : Platform) (r : Opened)
    → Outcome r
    → Tidy r.2 × (total any_opened r.2 ≤ 1)
    → Sound (opened_with p initial r)
opened_with-Sound p (dl, none, events) o (t, n) = inr (refl, o, t, n)
opened_with-Sound p (dl, some e, events) o (t, n) = inr (refl, o, t, n)

open_once-Sound : (p : Platform) (g : Globals) → Sound g → Sound (open_once p g)
unfolding open_once
open_once-Sound p g (inl e) =
    subst (λ x. Sound (open_once p x)) (sym e)
      (opened_with-Sound p (new_waf_dl p) (new_waf_dl-Outcome p)
        (new_waf_dl-Tidy p, Ended-once p (new_waf_dl p) (new_waf_dl-Ended p)))
open_once-Sound p g (inr (d, o, t, n)) =
    subst (λ b. Sound (if b then g else opened_with p g (new_waf_dl p))) (sym d) (inr (d, o, t, n))

load-Sound : (p : Platform) (s : Support) (g : Globals) → Sound g → Sound (load p s g).1
unfolding load
load-Sound p s g h = elim (Bool-cases (health s g).0) [
  | inl e ↦ rw e (open_once-Sound p g h)
  | inr e ↦ rw e h
]

-- The variables after calls of `Load`, each with the platform's answers at that time.
unfoldable pub load_all : List (Platform × Support) → Globals → Globals
load_all [] g = g
load_all ((p, s) ∷ calls) g = load_all calls (load p s g).1

load_all-Sound :
    (calls : List (Platform × Support)) (g : Globals) → Sound g → Sound (load_all calls g)
unfolding load_all
load_all-Sound [] g h = h
load_all-Sound ((p, s) ∷ calls) g h = load_all-Sound calls (load p s g).1 (load-Sound p s g h)

Outcome-once :
    (dl : Option WafDl) (err : Option LoadError) (events : List Event) (h : ℕ)
    → Outcome (dl, err, events)
    → (total (opened_as h) events ≤ 1) × (total (closed_as h) events ≤ total (opened_as h) events)
Outcome-once none none events h o = absurd o
Outcome-once none (some e) events h o = ((o h).1, omega (arith, (o h).0))
Outcome-once (some dl) none events h o =
    (omega (arith, (o h).0, count-le (h == dl.handle)), omega (arith, (o h).1))
Outcome-once (some dl) (some e) events h o =
    (omega (arith, (o h).0, count-le (h == dl.handle)), omega (arith, (o h).0, (o h).1))

Sound-once :
    (g : Globals) (h : ℕ)
    → Sound g
    → (total any_opened g.events ≤ 1)
      × (total (closed_as h) g.events ≤ total (opened_as h) g.events)
unfolding total
Sound-once g h (inl e) = rw e (omega arith, omega arith)
Sound-once g h (inr (d, o, t, n)) = (n, (Outcome-once g.waf_lib g.waf_load_err g.events h o).1)

-- However often `Load` is called, and whatever the platform answers each time, at most one library is
-- opened in all, under whatever handle, and no handle is closed more often than it is opened.
pub load-once :
    (calls : List (Platform × Support)) (h : ℕ)
    → let events = (load_all calls initial).events in
      (total any_opened events ≤ 1) × (total (closed_as h) events ≤ total (opened_as h) events)
load-once calls h = Sound-once (load_all calls initial) h (load_all-Sound calls initial (inl refl))

-- The library that the variables hold is open.
abbrev pub IsOpen : Globals → Type 0
IsOpen g =
    (dl : WafDl) × (g.waf_lib ≡ some dl)
    × (total (opened_as dl.handle) g.events ≡ 1)
    × (total (closed_as dl.handle) g.events ≡ 0)

same_handle : (h : ℕ) → count (h == h) ≡ 1
same_handle h = ground arith

Outcome-IsOpen :
    (g : Globals) (dl : Option WafDl) (err : Option LoadError)
    → g.waf_lib ≡ dl
    → not (is_none dl) ≡ true
    → errors_of err ≡ []
    → Outcome (dl, err, g.events)
    → IsOpen g
Outcome-IsOpen g none err e b n o = absurd (ground arith)
Outcome-IsOpen g (some dl) (some x) e b n o = absurd (ground arith)
Outcome-IsOpen g (some dl) none e b n o =
    (dl, e, (o dl.handle).0 ∙ same_handle dl.handle, (o dl.handle).1)

Sound-IsOpen :
    (g : Globals)
    → Sound g
    → not (is_none g.waf_lib) ≡ true
    → errors_of g.waf_load_err ≡ []
    → IsOpen g
Sound-IsOpen g (inl e) b n =
    absurd (ground (arith, subst (λ x. not (is_none x.waf_lib) ≡ true) e b))
Sound-IsOpen g (inr (d, o, t, m)) b n = Outcome-IsOpen g g.waf_lib g.waf_load_err refl b n o

after_health-IsOpen :
    (ok : Bool) (errors : List LoadError) (g opened : Globals)
    → Sound opened
    → let r = if ok then loaded opened else ((false, errors), g) in
      r.0.0 ≡ true → r.0.1 ≡ [] → IsOpen r.1
after_health-IsOpen true errors g opened h b n = Sound-IsOpen opened h b n
after_health-IsOpen false errors g opened h b n = absurd (ground arith)

-- After any calls of `Load`, if one more returns ok and no error, the library that it leaves in the
-- variables was opened once and is not closed.
pub load-IsOpen :
    (calls : List (Platform × Support)) (p : Platform) (s : Support)
    → let r = load p s (load_all calls initial) in r.0.0 ≡ true → r.0.1 ≡ [] → IsOpen r.1
unfolding load
load-IsOpen calls p s b n =
    let g = load_all calls initial in
    after_health-IsOpen (health s g).0 (health s g).1 g (open_once p g)
      (open_once-Sound p g (load_all-Sound calls initial (inl refl))) b n

-- The library that the variables hold was opened once, and closed if its version panicked.
abbrev pub IsLeft : Platform → Globals → Type 0
IsLeft p g =
    (dl : WafDl) × (g.waf_lib ≡ some dl)
    × (total (opened_as dl.handle) g.events ≡ 1)
    × (total (closed_as dl.handle) g.events ≡ panics (p.call_version dl))

opened_with-IsLeft :
    (p : Platform) (r : Opened)
    → Outcome r
    → Ended p r
    → not (is_none (opened_with p initial r).waf_lib) ≡ true
    → IsLeft p (opened_with p initial r)
opened_with-IsLeft p (none, none, events) o e b = absurd (ground arith)
opened_with-IsLeft p (none, some x, events) o e b = absurd (ground arith)
opened_with-IsLeft p (some dl, none, events) o e b =
    (dl, refl, (o dl.handle).0 ∙ same_handle dl.handle, e.1)
opened_with-IsLeft p (some dl, some x, events) o e b =
    (dl, refl, (o dl.handle).0 ∙ same_handle dl.handle, e.1)

after_health-IsLeft :
    (p : Platform) (ok : Bool) (errors : List LoadError) (opened : Globals)
    → (not (is_none opened.waf_lib) ≡ true → IsLeft p opened)
    → let r = if ok then loaded opened else ((false, errors), initial) in
      r.0.0 ≡ true → IsLeft p r.1
after_health-IsLeft p true errors opened h b = h b
after_health-IsLeft p false errors opened h b = absurd (ground arith)

-- If the first `Load` returns ok, the variables hold a library that it opened once, and it has closed that
-- library if the call of ddwaf_get_version panicked, and only then.
pub load-IsLeft :
    (p : Platform) (s : Support) → (load p s initial).0.0 ≡ true → IsLeft p (load p s initial).1
unfolding load open_once
load-IsLeft p s b =
    after_health-IsLeft p (health s initial).0 (health s initial).1
      (opened_with p initial (new_waf_dl p))
      (opened_with-IsLeft p (new_waf_dl p) (new_waf_dl-Outcome p) (new_waf_dl-Ended p)) b
