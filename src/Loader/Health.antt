-- ===== src/Loader/Health.antt =====
-- waf.go: what `Health` and `SupportsTarget` answer.
use go_libddwaf.Base.{
  ◌≡◌, ◌≢◌, refl, Bool, true, false, Option, none, some, List, [], ◌∷◌, ◌++◌, not, ◌&&◌, ◌||◌,
  arith, length, ◌==◌,
}
use go_libddwaf.Bindings.{LoadError, WafDl}
use go_libddwaf.Loader.{Globals, Support, is_none, errors_of, health}

-- Usable: the errors are at most that of loading. Not usable: there is an error.
abbrev pub Explained : Option LoadError → Bool × List LoadError → Type 0
Explained err (true, errors) = errors ≡ errors_of err
Explained err (false, errors) = errors ≢ []

-- `health` of the four variables.
abbrev health_of :
    Option WafDl → Option LoadError → List LoadError → Option LoadError → Bool × List LoadError
health_of lib err support disabled = (
  (not (is_none lib) || is_none err) && (length support == 0 && is_none disabled),
  errors_of err ++ (support ++ errors_of disabled),
)

cons-nil : {A : Type 0} (a : A) (l : List A) → (a ∷ l) ≢ []
cons-nil a l e = ground arith

nonempty : (x : LoadError) (l : List LoadError) → (length (x ∷ l) == 0) ≡ false
nonempty x l = ground arith

health_of-Explained :
    (lib : Option WafDl) (err : Option LoadError) (support : List LoadError)
    (disabled : Option LoadError)
    → Explained err (health_of lib err support disabled)
health_of-Explained none none [] none = refl
health_of-Explained none none [] (some d) = cons-nil _ _
health_of-Explained none none (x ∷ l) d = rw (nonempty x l) (cons-nil _ _)
health_of-Explained none (some e) l d = cons-nil _ _
health_of-Explained (some dl) none [] none = refl
health_of-Explained (some dl) none [] (some d) = cons-nil _ _
health_of-Explained (some dl) none (x ∷ l) d = rw (nonempty x l) (cons-nil _ _)
health_of-Explained (some dl) (some e) [] none = refl
health_of-Explained (some dl) (some e) [] (some d) = cons-nil _ _
health_of-Explained (some dl) (some e) (x ∷ l) d = rw (nonempty x l) (cons-nil _ _)

-- If `Health` returns true, its only error can be that of loading the library; if it returns false, there
-- is an error.
pub health-Explained : (s : Support) (g : Globals) → Explained g.waf_load_err (health s g)
unfolding health
health-Explained s g =
    health_of-Explained g.waf_lib g.waf_load_err s.waf_support_errors s.waf_manually_disabled_err
