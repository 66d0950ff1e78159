-- ===== src/Bindings/Events.antt =====
-- internal/bindings/waf_dl.go: the events of loading, counted by path and by handle.
use go_libddwaf.Base.{
  ℕ, ◌≡◌, refl, ◌≤◌, Bool, true, false, List, [], ◌∷◌, arith, Text, text_eq, ◌⊎◌, inl, inr, ◌==◌,
  if◌then◌else◌, total, All, Bool-cases,
}
use go_libddwaf.Bindings.{
  LoadError, Event, created, removed, closed_file, opened, closed_library, called_version,
  log_callback_set, Platform, WafDl, set_callback, set_log,
}

abbrev pub count : Bool → ℕ
count b = if b then 1 else 0

pub count-le : (b : Bool) → count b ≤ 1
count-le true = omega arith
count-le false = omega arith

-- The events of a path and of a handle.
abbrev pub created_as : Text → Event → ℕ
created_as path (created q) = count (text_eq path q)
created_as path e = 0

abbrev pub removed_as : Text → Event → ℕ
removed_as path (removed q) = count (text_eq path q)
removed_as path e = 0

abbrev pub opened_as : ℕ → Event → ℕ
opened_as h (opened k) = count (h == k)
opened_as h e = 0

abbrev pub closed_as : ℕ → Event → ℕ
closed_as h (closed_library k) = count (h == k)
closed_as h e = 0

-- The opening of any handle.
abbrev pub any_opened : Event → ℕ
any_opened (opened k) = 1
any_opened e = 0

-- Which events can follow `Dlopen`.
abbrev pub is_library : Event → Bool
is_library (created q) = false
is_library (removed q) = false
is_library (closed_file q) = false
is_library e = true

-- Those of `called_version` and the log callback.
abbrev pub is_call : Event → Bool
is_call (called_version h) = true
is_call (log_callback_set a l) = true
is_call e = false

module _ (w : Event → ℕ) where
  pub total-zero :
      (p : Event → Bool)
      → ((e : Event) → p e ≡ true → w e ≡ 0)
      → (l : List Event) → All (λ e. p e ≡ true) l
      → total w l ≡ 0
  unfolding total
  total-zero p z [] h = refl
  total-zero p z (x ∷ l) (b, h) = omega (arith, z x b, total-zero p z l h)

pub created_as-library : (path : Text) (e : Event) → is_library e ≡ true → created_as path e ≡ 0
created_as-library path e h = ground arith

pub removed_as-library : (path : Text) (e : Event) → is_library e ≡ true → removed_as path e ≡ 0
removed_as-library path e h = ground arith

pub opened_as-call : (h : ℕ) (e : Event) → is_call e ≡ true → opened_as h e ≡ 0
opened_as-call h e b = ground arith

pub closed_as-call : (h : ℕ) (e : Event) → is_call e ≡ true → closed_as h e ≡ 0
closed_as-call h e b = ground arith

pub any_opened-call : (e : Event) → is_call e ≡ true → any_opened e ≡ 0
any_opened-call e b = ground arith

pub library-call : (e : Event) → is_call e ≡ true → is_library e ≡ true
library-call e b = ground arith

set_callback-calls :
    (p : Platform) (s : LoadError ⊎ ℕ) → All (λ e. is_call e ≡ true) (set_callback p s)
set_callback-calls p (inl e) = tt
set_callback-calls p (inr s) = (refl, tt)

pub set_log-calls : (p : Platform) (dl : WafDl) → All (λ e. is_call e ≡ true) (set_log p dl)
set_log-calls p dl = elim (Bool-cases (text_eq p.log_level [])) [
  | inl e ↦ rw e tt
  | inr e ↦ rw e (set_callback-calls p _)
]
