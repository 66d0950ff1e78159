-- ===== src/Encoder/Safe/Slots.antt =====
-- encoder.go under any timer: the array that a container loop fills.
use go_libddwaf.Base.{
  ℕ, zero, suc, ◌<◌, ◌≡◌, refl, ◌∙◌, some, List, arith, length, All, get_elem?, set, get_elem?_lt,
  get_elem?-set_self, length-set, replicate, length-replicate, All-elem, All-set, All-replicate,
}
use go_libddwaf.WafObject.{WafObject, zero_object}
use go_libddwaf.Memory.{Memory, objects, allocate, load_object, store_object}
use go_libddwaf.Memory.Growth.{
  Keeps, Grows, load_at, store_at, Keeps-set, Same-of-Grows, Same-of-Keeps, allocate_self,
}
use go_libddwaf.RefPool.{Store}
use go_libddwaf.Encoder.{Setting}
use go_libddwaf.Encoder.Safe.{Retained, SafeSlot, SafeSlot-zero, SafeSlot-Same, All-Same}

-- Block `k` holds an array of `cap` objects that can be read, written or not.
pub record Slots (g : Setting) (d k cap : ℕ) (m : Memory) : Type 0 where
  pub os : List WafObject
  pub at : get_elem? m k ≡ some (objects os)
  pub size : length os ≡ cap
  pub safe : All (SafeSlot g d (suc k) m) os

module _ {g : Setting} {d k cap : ℕ} where
  pub Slots-in : {m : Memory} → Slots g d k cap m → k < length m
  Slots-in {m} f = get_elem?_lt m k _ f.at

  pub Slots-Grows : {m m' : Memory} → Grows m m' → Slots g d k cap m → Slots g d k cap m'
  Slots-Grows s f = record {
    os = f.os;
    at = s.same k (omega arith) (Slots-in f) ∙ f.at;
    size = f.size;
    safe = All-Same g (omega arith) (Same-of-Grows s) d f.os f.safe;
  }

  pub slot-Slots :
      {m : Memory} (i : ℕ)
      → i < cap
      → Slots g d k cap m
      → SafeSlot g d (suc k) m (load_object m (suc k) i)
  slot-Slots {m} i b f =
      let (o, e, h) = All-elem (SafeSlot g d (suc k) m) f.os i (omega (arith, f.size)) f.safe in
      rw (load_at m k f.at i o e) h

  pub Keeps-Slots :
      {m : Memory} (i : ℕ) (o : WafObject)
      → Slots g d k cap m
      → Keeps k m (store_object m (suc k) i o)
  Keeps-Slots {m} i o f = rw (store_at m k f.at i o) (Keeps-set m k _)

  pub store-Slots :
      {m : Memory} (i : ℕ) (o : WafObject)
      → SafeSlot g d (suc k) m o
      → Slots g d k cap m
      → Slots g d k cap (store_object m (suc k) i o)
  store-Slots {m} i o h f =
      let kept = Same-of-Keeps (Keeps-Slots i o f) in
      record {
        os = set f.os i o;
        at = rw (store_at m k f.at i o) (get_elem?-set_self m k _ (Slots-in f));
        size = length-set f.os i o ∙ f.size;
        safe =
            All-set _ f.os i o (SafeSlot-Same g (omega arith) kept d o h)
              (All-Same g (omega arith) kept d f.os f.safe);
      }

-- A new array.
pub Slots-start :
    (g : Setting) (d cap : ℕ) (m : Memory)
    → Slots g d (length m) cap (allocate (objects (replicate cap zero_object)) m)
Slots-start g d cap m = record {
  os = replicate cap zero_object;
  at = allocate_self _ m;
  size = length-replicate cap zero_object;
  safe = All-replicate _ cap zero_object (SafeSlot-zero g d _ _);
}

length-store : (m : Memory) (a i : ℕ) (o : WafObject) → length (store_object m a i o) ≡ length m
unfolding store_object
length-store m zero i o = refl
length-store m (suc k) i o = length-set m k _

-- A write into an array changes no address.
pub Retained-store :
    (lo : ℕ) (st : Store) (a i : ℕ) (o : WafObject)
    → Retained lo st
    → Retained lo (record st { memory = store_object st.memory a i o })
Retained-store lo st a i o h j q b = h j q (omega (arith, length-store st.memory a i o))
