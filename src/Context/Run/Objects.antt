-- ===== src/Context/Run/Objects.antt =====
-- context.go: the objects that libddwaf is given.
use go_libddwaf.Base.{ℕ, zero, suc, false, Option, none, some, ◌⊎◌, inl, inr, All-map}
use go_libddwaf.WafObject.{WafObject, waf_max_container_depth}
use go_libddwaf.Memory.{Memory}
use go_libddwaf.Memory.Growth.{Grows, Same-refl, Same-trans}
use go_libddwaf.GoValue.{GoValue}
use go_libddwaf.Encoder.{Setting}
use go_libddwaf.Encoder.Depth.{limited}
use go_libddwaf.Encoder.Safe.{Retained, Safe}
use go_libddwaf.RefPool.{RefPool, append}
use mathlib.Core.List.{Mem, mem-append_left, mem-append_right}
use go_libddwaf.Timer.{BaseTimer}
use go_libddwaf.Context.Run.{Context, World, encoder_of}

-- The limits of `newLimitedEncoder`; the other fields do not matter.
abbrev pub limits : Setting
limits = limited (record {
  heap = λ a. GoValue.invalid;
  expired = λ k. false;
  stray = 0;
  container_max_size = 0;
  string_max_size = 0;
  object_max_depth = 0;
})

-- An object that can be read, within libddwaf's limits.
abbrev pub SafeObject : Memory → Option WafObject → Type 0
SafeObject m none = Unit
SafeObject m (some o) = Safe limits waf_max_container_depth 0 m o

-- An object that can be read in memory that `m` still has, where all its addresses lead to blocks from
-- number `lo` on, and all these blocks are in the pool.
abbrev pub KeptObject : ℕ → RefPool → Memory → Option WafObject → Type 0
KeptObject lo pool m none = Unit
KeptObject lo pool m (some o) =
    (old : Memory) × Safe limits waf_max_container_depth lo old o
    × Grows old m
    × Retained lo (record { memory = old; refs = pool })

pub KeptObject-Grows :
    (lo : ℕ) (pool : RefPool) (o : Option WafObject) {m m' : Memory}
    → Grows m m'
    → KeptObject lo pool m o
    → KeptObject lo pool m' o
KeptObject-Grows lo pool none g h = tt
KeptObject-Grows lo pool (some o) g (old, s, g', r) = (old, s, Same-trans g' g, r)

-- What only the end of `Run` and `Close` change.
abbrev pub counter_of : Context → ℕ × ℕ
counter_of c = (c.timeout_count, c.c_context)

-- `a` is an address that the pool keeps.
abbrev pub InPool : ℕ → RefPool → Type 0
InPool a pool = Mem a pool.string_refs ⊎ Mem a pool.array_refs

-- Nothing that the memory or the pool had is lost.
pub record Keeps (m : Memory) (pool : RefPool) (m' : Memory) (pool' : RefPool) : Type 0 where
  pub grows : Grows m m'
  pub retains : (a : ℕ) → InPool a pool → InPool a pool'

pub Keeps-refl : (m : Memory) (pool : RefPool) → Keeps m pool m pool
Keeps-refl m pool = record { grows = Same-refl 0 m; retains = λ a h. h }

pub Keeps-trans :
    {m m' m'' : Memory} {pool pool' pool'' : RefPool}
    → Keeps m pool m' pool'
    → Keeps m' pool' m'' pool''
    → Keeps m pool m'' pool''
Keeps-trans p q = record {
  grows = Same-trans p.grows q.grows;
  retains = λ a h. q.retains a (p.retains a h);
}

pub KeptObject-Keeps :
    (lo : ℕ) (o : Option WafObject) {m m' : Memory} {pool pool' : RefPool}
    → Keeps m pool m' pool'
    → KeptObject lo pool m o
    → KeptObject lo pool' m' o
KeptObject-Keeps lo none k h = tt
KeptObject-Keeps lo (some o) k (old, s, g, r) =
    (old, s, Same-trans g k.grows, λ j q b. k.retains (suc j) (r j q b))

pub append-InPool : (pool new : RefPool) (a : ℕ) → InPool a pool → InPool a (append pool new)
append-InPool pool new a (inl h) = inl (mem-append_left new.string_refs h)
append-InPool pool new a (inr h) = inr (mem-append_left new.array_refs h)

-- The pool of a context keeps what it had.
pub KeptObject-append :
    (lo : ℕ) (pool new : RefPool) (o : Option WafObject) (m : Memory)
    → KeptObject lo new m o
    → KeptObject lo (append pool new) m o
KeptObject-append lo pool new none m h = tt
KeptObject-append lo pool new (some o) m (old, s, g, r) = (
  old,
  s,
  g,
  λ j q b. elim (r j q b) [
    | inl x ↦ inl (mem-append_right pool.string_refs x)
    | inr x ↦ inr (mem-append_right pool.array_refs x)
  ],
)

pub Safe-limits :
    (w : World) (t : BaseTimer) (d lo : ℕ) (m : Memory) (o : WafObject)
    → Safe (encoder_of w t) d lo m o
    → Safe limits d lo m o
Safe-limits w t zero lo m o h = h
Safe-limits w t (suc d) lo m o (inl e) = inl e
Safe-limits w t (suc d) lo m o (inr (inl h)) = inr (inl h)
Safe-limits w t (suc d) lo m o (inr (inr (os, ty, n, c, at, h))) =
    inr (inr (os, ty, n, c, at, All-map _ (λ x (k, v). (k, Safe-limits w t d lo m x v)) os h))
