-- ===== src/Encoder/Filled.antt =====
-- encoder.go: an array that a container loop has filled up to an index.
use go_libddwaf.Base.{
  ℕ, suc, ◌+◌, ◌<◌, ◌≡◌, refl, sym, ◌∙◌, ap, some, List, [], ◌∷◌, ◌++◌, Text, arith, length,
  get_elem?, set, append_assoc, length-append, get_elem?-middle, set-middle, get_elem?-set_self,
  get_elem?_lt, All, replicate, length-replicate, All-replicate,
}
use go_libddwaf.WafObject.{WafObject, zero_object}
use go_libddwaf.Memory.{Memory, objects, allocate, load_object, store_object}
use go_libddwaf.Memory.Growth.{
  Keeps, Grows, load_at, store_at, Keeps-set, Same-of-Grows, Same-of-Keeps, allocate_self,
}
use go_libddwaf.Tree.{Tree, Child, branches}
use go_libddwaf.Tree.Holds.{TextAt, Holds, Elems, TextAt-Same, Holds-Same, Elems-Same, Elems-snoc}

-- Block `k` holds an array of `cap` objects: `i` that represent `kept`, then slots with `P`.
pub record Filled (P : WafObject → Type 0) (k cap i : ℕ) (m : Memory) (kept : List Child)
    : Type 0 where
  pub front : List WafObject
  pub back : List WafObject
  pub at : get_elem? m k ≡ some (objects (front ++ back))
  pub children : Elems (suc k) m front (branches kept)
  pub clear : All P back
  pub counted : length front ≡ i
  pub full : length front + length back ≡ cap
  pub kept_count : length kept ≡ i

module _ {P : WafObject → Type 0} {k cap i : ℕ} {kept : List Child} where
  -- Other blocks may come and change.
  pub Filled-Grows :
      {m m' : Memory} → Grows m m' → Filled P k cap i m kept → Filled P k cap i m' kept
  Filled-Grows {m} {m'} s f = record {
    front = f.front;
    back = f.back;
    at = s.same k (omega arith) (get_elem?_lt m k _ f.at) ∙ f.at;
    children = Elems-Same (omega arith) (Same-of-Grows s) (branches kept) f.front f.children;
    clear = f.clear;
    counted = f.counted;
    full = f.full;
    kept_count = f.kept_count;
  }

  pub Keeps-store :
      {m : Memory} (o : WafObject)
      → Filled P k cap i m kept
      → Keeps k m (store_object m (suc k) i o)
  Keeps-store {m} o f = rw (store_at m k f.at i o) (Keeps-set m k _)

  -- The next slot is one with `P`.
  pub slot-Filled : {m : Memory} → i < cap → Filled P k cap i m kept → P (load_object m (suc k) i)
  slot-Filled {m} b f = go f.back f.at f.clear f.full
    where
      go :
          (back : List WafObject)
          → get_elem? m k ≡ some (objects (f.front ++ back))
          → All P back
          → length f.front + length back ≡ cap
          → P (load_object m (suc k) i)
      go [] at h full = absurd (omega (arith, f.counted))
      go (o ∷ rest) at h full =
          rw
            (load_at m k at i o (
              ap (get_elem? (f.front ++ o ∷ rest)) (sym f.counted)
              ∙ get_elem?-middle f.front rest o))
            h.0

  -- What a write into the next slot leaves.
  pub write_slot :
      {m : Memory} (o : WafObject)
      → i < cap
      → (f : Filled P k cap i m kept)
      → (rest : List WafObject) × (get_elem? (store_object m (suc k) i o) k
          ≡ some (objects (f.front ++ o ∷ rest)))
        × All P rest
        × (length f.front + suc (length rest) ≡ cap)
  write_slot {m} o b f = go f.back f.at f.clear f.full
    where
      go :
          (back : List WafObject)
          → get_elem? m k ≡ some (objects (f.front ++ back))
          → All P back
          → length f.front + length back ≡ cap
          → (rest : List WafObject) × (get_elem? (store_object m (suc k) i o) k
              ≡ some (objects (f.front ++ o ∷ rest)))
            × All P rest
            × (length f.front + suc (length rest) ≡ cap)
      go [] at h full = absurd (omega (arith, f.counted))
      go (x ∷ rest) at h full = (
        rest,
        rw (store_at m k at i o) (
            get_elem?-set_self m k _ (get_elem?_lt m k _ at)
            ∙ ap (λ os. some (objects os))
                (ap (λ j. set (f.front ++ x ∷ rest) j o) (sym f.counted)
                  ∙ set-middle f.front rest x o)),
        h.1,
        full,
      )

  after_store :
      {m : Memory} (o : WafObject) (f : Filled P k cap i m kept)
      → Elems (suc k) (store_object m (suc k) i o) f.front (branches kept)
  after_store {m} o f =
      Elems-Same (omega arith) (Same-of-Keeps (Keeps-store o f)) (branches kept) f.front f.children

  -- The slot is written and not kept.
  pub Filled-skip :
      {m : Memory} (o : WafObject)
      → i < cap
      → P o
      → Filled P k cap i m kept
      → Filled P k cap i (store_object m (suc k) i o) kept
  Filled-skip o b p f =
      let (rest, at, cl, len) = write_slot o b f in
      record {
        front = f.front;
        back = o ∷ rest;
        at = at;
        children = after_store o f;
        clear = (p, cl);
        counted = f.counted;
        full = len;
        kept_count = f.kept_count;
      }

  -- The slot is written and kept.
  pub Filled-keep :
      {m : Memory} (o : WafObject) (key : Text) (t : Tree)
      → i < cap
      → TextAt (suc k) m o.parameter_name o.parameter_name_length key
      → Holds (suc k) m o t
      → Filled P k cap i m kept
      → Filled P k cap (suc i) (store_object m (suc k) i o) (kept ++ (key, t) ∷ [])
  Filled-keep o key t b name v f =
      let (rest, at, cl, len) = write_slot o b f in
      record {
        front = f.front ++ o ∷ [];
        back = rest;
        at = rw (append_assoc f.front (o ∷ []) rest) at;
        children =
            Elems-snoc (suc k) _ f.front o kept key t (omega (arith, f.counted, f.kept_count))
              (after_store o f)
              (TextAt-Same (omega arith) (Same-of-Keeps (Keeps-store o f)) _ _ key name)
              (Holds-Same (omega arith) (Same-of-Keeps (Keeps-store o f)) t o v);
        clear = cl;
        counted = omega (arith, length-append f.front (o ∷ []), f.counted);
        full = omega (arith, length-append f.front (o ∷ []));
        kept_count = omega (arith, length-append kept ((key, t) ∷ []), f.kept_count);
      }

-- A new array, with nothing kept yet.
pub Filled-start :
    {P : WafObject → Type 0} (cap : ℕ) (m : Memory)
    → P zero_object
    → Filled P (length m) cap 0 (allocate (objects (replicate cap zero_object)) m) []
Filled-start {P} cap m p = record {
  front = [];
  back = replicate cap zero_object;
  at = allocate_self _ m;
  children = tt;
  clear = All-replicate P cap zero_object p;
  counted = refl;
  full = omega (arith, length-replicate cap zero_object);
  kept_count = refl;
}
