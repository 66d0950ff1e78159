-- ===== src/Memory/Growth.antt =====
-- How the shared memory changes: blocks are added at the end, and arrays are written in place.
use go_libddwaf.Base.{
  ℕ, suc, ◌≤◌, ◌<◌, ◌≡◌, ◌≢◌, refl, sym, ◌∙◌, some, List, [], ◌∷◌, arith, length, get_elem?, set,
  length-append, length-set, get_elem?-append_left, get_elem?-append_last, get_elem?-set_ne,
}
use go_libddwaf.WafObject.{WafObject}
use go_libddwaf.Memory.{
  Block, objects, Memory, allocate, block_at, objects_at, load_object, store_object,
}

-- From block `lo` on, what was there is still there.
pub record Same (lo : ℕ) (m m' : Memory) : Type 0 where
  pub longer : length m ≤ length m'
  pub same : (j : ℕ) → lo ≤ j → j < length m → get_elem? m' j ≡ get_elem? m j

-- Nothing but block `k` was written.
pub record Keeps (k : ℕ) (m m' : Memory) : Type 0 where
  pub longer : length m ≤ length m'
  pub same : (j : ℕ) → j ≢ k → j < length m → get_elem? m' j ≡ get_elem? m j

abbrev pub Grows : Memory → Memory → Type 0
Grows = Same 0

pub Same-refl : (lo : ℕ) (m : Memory) → Same lo m m
Same-refl lo m = record { longer = omega arith; same = λ j l h. refl }

pub Same-trans : {lo : ℕ} {a b c : Memory} → Same lo a b → Same lo b c → Same lo a c
Same-trans p q = record {
  longer = omega (arith, p.longer, q.longer);
  same = λ j l h. q.same j l (omega (arith, p.longer)) ∙ p.same j l h;
}

pub Keeps-refl : (k : ℕ) (m : Memory) → Keeps k m m
Keeps-refl k m = record { longer = omega arith; same = λ j l h. refl }

pub Keeps-trans : {k : ℕ} {a b c : Memory} → Keeps k a b → Keeps k b c → Keeps k a c
Keeps-trans p q = record {
  longer = omega (arith, p.longer, q.longer);
  same = λ j l h. q.same j l (omega (arith, p.longer)) ∙ p.same j l h;
}

pub Keeps-of-Grows : {k : ℕ} {m m' : Memory} → Grows m m' → Keeps k m m'
Keeps-of-Grows p = record { longer = p.longer; same = λ j l h. p.same j (omega arith) h }

pub Same-of-Grows : {lo : ℕ} {m m' : Memory} → Grows m m' → Same lo m m'
Same-of-Grows p = record { longer = p.longer; same = λ j l h. p.same j (omega arith) h }

pub Same-of-Keeps : {k : ℕ} {m m' : Memory} → Keeps k m m' → Same (suc k) m m'
Same-of-Keeps p = record { longer = p.longer; same = λ j l h. p.same j (λ e. omega arith) h }

-- A write to a block that the memory `m` did not have yet changes nothing of `m`.
pub Grows-Keeps :
    {k : ℕ} {m m' m'' : Memory} → length m ≤ k → Grows m m' → Keeps k m' m'' → Grows m m''
Grows-Keeps b p q = record {
  longer = omega (arith, p.longer, q.longer);
  same = λ j l h. q.same j (λ e. omega arith) (omega (arith, p.longer)) ∙ p.same j l h;
}

pub Grows-allocate : (b : Block) (m : Memory) → Grows m (allocate b m)
Grows-allocate b m = record {
  longer = omega (arith, length-append m (b ∷ []));
  same = λ j l h. get_elem?-append_left m (b ∷ []) j h;
}

pub length-allocate : (b : Block) (m : Memory) → length (allocate b m) ≡ suc (length m)
length-allocate b m = omega (arith, length-append m (b ∷ []))

pub allocate_self : (b : Block) (m : Memory) → get_elem? (allocate b m) (length m) ≡ some b
allocate_self b m = get_elem?-append_last m b

-- Reads and writes of the array in block `k`.
module _ (m : Memory) (k : ℕ) {os : List WafObject} (at : get_elem? m k ≡ some (objects os)) where
  pub load_at : (i : ℕ) (o : WafObject) → get_elem? os i ≡ some o → load_object m (suc k) i ≡ o
  unfolding load_object block_at
  load_at i o e = rw (at, objects_at) (rw e)

  pub store_at :
      (i : ℕ) (o : WafObject) → store_object m (suc k) i o ≡ set m k (objects (set os i o))
  unfolding store_object block_at
  store_at i o = rw (at, objects_at)

pub Keeps-set : (m : Memory) (k : ℕ) (b : Block) → Keeps k m (set m k b)
Keeps-set m k b = record {
  longer = omega (arith, length-set m k b);
  same = λ j l h. get_elem?-set_ne m b (λ e. l (sym e));
}
