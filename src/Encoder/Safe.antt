-- ===== src/Encoder/Safe.antt =====
-- encoder.go under any timer: objects that can be read without a fault, and memory that stays
-- referenced.
pub mod Slots
pub mod Texts
pub mod Loops
pub mod Whole
pub mod Reading
pub mod Values
mod Tests
use go_libddwaf.Base.{
  ℕ, zero, suc, ◌+◌, ◌≤◌, ◌<◌, ◌≡◌, refl, ◌∙◌, ap, subst, replicate, Bool, true, false, not, ◌||◌,
  ◌==◌, Option, none, some, List, [], ◌∷◌, ◌++◌, Text, arith, length, All, All-map, length-append,
  ◌⊎◌, inl, inr,
}
use mathlib.Core.List.{Mem, mem-append_left, mem-append_right, mem-cons_self}
use go_libddwaf.WafObject.{WafObject, zero_object, waf_string_type, waf_array_type, waf_map_type}
use go_libddwaf.Memory.{Memory, Block, chars, objects, allocate}
use go_libddwaf.Memory.Growth.{Same, Grows, Same-refl, Same-trans, length-allocate}
use go_libddwaf.RefPool.{Store, keep_string, keep_array}
use go_libddwaf.Tree.Holds.{TextAt, ArrayAt, TextAt-Same, ArrayAt-Same}
use go_libddwaf.GoValue.{GoValue}
use go_libddwaf.Encoder.{Setting, State, encode_native}
use go_libddwaf.Encoder.Containers.{Encoded, EncodeValue}
use go_libddwaf.Encoder.Correct.{memory_of}

-- A value that is not an address.
abbrev pub is_plain : WafObject → Bool
is_plain o = not (o.type == waf_string_type || (o.type == waf_array_type || o.type == waf_map_type))

-- A text at an address, no longer than the limit.
abbrev pub ShortText : Setting → ℕ → Memory → ℕ → ℕ → Type 0
ShortText g lo m a n = (s : Text) × (length s ≤ g.string_max_size) × TextAt lo m a n s

abbrev pub KeyOk : Setting → ℕ → Memory → WafObject → Type 0
KeyOk g lo m o = ShortText g lo m o.parameter_name o.parameter_name_length

abbrev pub SafeText : Setting → ℕ → Memory → WafObject → Type 0
SafeText g lo m o = (o.type ≡ waf_string_type) × ShortText g lo m o.value o.nb_entries

-- An object that can be read: its addresses lead to blocks from `lo` on, no container has more
-- children than the limit, and there are at most `d` levels.
abbrev pub Safe : Setting → (d lo : ℕ) → Memory → WafObject → Type 0
Safe g zero lo m o = (is_plain o ≡ true) ⊎ SafeText g lo m o
Safe g (suc d) lo m o =
    (is_plain o ≡ true)
    ⊎ SafeText g lo m o
    ⊎ ((os : List WafObject) × ((o.type ≡ waf_array_type) ⊎ (o.type ≡ waf_map_type))
        × (o.nb_entries ≤ length os)
        × (length os ≤ g.container_max_size)
        × ArrayAt lo m o.value os
        × All (λ x. KeyOk g lo m x × Safe g d lo m x) os)

-- An object with its key.
abbrev pub SafeSlot : Setting → (d lo : ℕ) → Memory → WafObject → Type 0
SafeSlot g d lo m o = KeyOk g lo m o × Safe g d lo m o

module _ (g : Setting) {lo lo' : ℕ} (low : lo' ≤ lo) {m m' : Memory} (s : Same lo m m') where
  ShortText-Same : (a n : ℕ) → ShortText g lo m a n → ShortText g lo' m' a n
  ShortText-Same a n (str, b, h) = (str, b, TextAt-Same low s a n str h)

  SafeText-Same : (o : WafObject) → SafeText g lo m o → SafeText g lo' m' o
  SafeText-Same o (e, h) = (e, ShortText-Same o.value o.nb_entries h)

  KeyOk-Same : (o : WafObject) → KeyOk g lo m o → KeyOk g lo' m' o
  KeyOk-Same o h = ShortText-Same o.parameter_name o.parameter_name_length h

  pub Safe-Same : (d : ℕ) (o : WafObject) → Safe g d lo m o → Safe g d lo' m' o
  Safe-Same zero o (inl e) = inl e
  Safe-Same zero o (inr h) = inr (SafeText-Same o h)
  Safe-Same (suc d) o (inl e) = inl e
  Safe-Same (suc d) o (inr (inl h)) = inr (inl (SafeText-Same o h))
  Safe-Same (suc d) o (inr (inr (os, ty, n, c, at, h))) = inr (
      inr (
        os,
        ty,
        n,
        c,
        ArrayAt-Same low s o.value os at,
        All-map _ (λ x (k, v). (KeyOk-Same x k, Safe-Same d x v)) os h,
      ))

  pub SafeSlot-Same : (d : ℕ) (o : WafObject) → SafeSlot g d lo m o → SafeSlot g d lo' m' o
  SafeSlot-Same d o (k, v) = (KeyOk-Same o k, Safe-Same d o v)

  pub All-Same :
      (d : ℕ) (os : List WafObject) → All (SafeSlot g d lo m) os → All (SafeSlot g d lo' m') os
  All-Same d os h = All-map _ (SafeSlot-Same d) os h

-- What is not an address is safe at every depth.
pub Safe-plain :
    (g : Setting) (d lo : ℕ) (m : Memory) (o : WafObject) → is_plain o ≡ true → Safe g d lo m o
Safe-plain g zero lo m o e = inl e
Safe-plain g (suc d) lo m o e = inl e

pub Safe-text :
    (g : Setting) (d lo : ℕ) (m : Memory) (o : WafObject) → SafeText g lo m o → Safe g d lo m o
Safe-text g zero lo m o h = inr h
Safe-text g (suc d) lo m o h = inr (inl h)

-- The key does not matter to the value.
pub Safe-key :
    (g : Setting) (d lo : ℕ) (m : Memory) (o : WafObject) (a n : ℕ)
    → Safe g d lo m o
    → Safe g d lo m (record o { parameter_name = a; parameter_name_length = n })
Safe-key g zero lo m o a n h = h
Safe-key g (suc d) lo m o a n h = h

pub SafeSlot-zero : (g : Setting) (d lo : ℕ) (m : Memory) → SafeSlot g d lo m zero_object
SafeSlot-zero g d lo m = (([], omega arith, refl), Safe-plain g d lo m zero_object refl)

-- Every block from number `lo` on is in the pool, so that the garbage collector leaves it.
abbrev pub Retained : ℕ → Store → Type 0
Retained lo st =
    (j : ℕ)
    → lo ≤ j
    → j < length st.memory
    → Mem (suc j) (st.refs.string_refs) ⊎ Mem (suc j) (st.refs.array_refs)

last-cases :
    (m : Memory) (b : Block) (j : ℕ) → j < length (allocate b m) → (j < length m) ⊎ (j ≡ length m)
last-cases m b j h = omega (arith, length-allocate b m)

pub Retained-string :
    (lo : ℕ) (st : Store) (str : Text) → Retained lo st → Retained lo (keep_string st str)
unfolding keep_string
Retained-string lo st str h j q b = elim (last-cases st.memory (chars str) j b) [
  | inl old ↦ elim (h j q old) [ inl x ↦ inl (mem-append_left _ x) | inr x ↦ inr x ]
  | inr new ↦ inl (
      mem-append_right st.refs.string_refs
        (subst (λ k. Mem (suc j) (suc k ∷ [])) new mem-cons_self))
]

pub Retained-array :
    (lo : ℕ) (st : Store) (size : ℕ) → Retained lo st → Retained lo (keep_array st size)
unfolding keep_array
Retained-array lo st size h j q b =
    elim (last-cases st.memory (objects (replicate size zero_object)) j b) [
      | inl old ↦ elim (h j q old) [ inl x ↦ inl x | inr x ↦ inr (mem-append_left _ x) ]
      | inr new ↦ inr (
          mem-append_right st.refs.array_refs
            (subst (λ k. Mem (suc j) (suc k ∷ [])) new mem-cons_self))
    ]

-- What a step of the encoder on an object does: nothing that was there changes, an object that can
-- be read stays one, and memory stays referenced.
pub record Careful (g : Setting) (d : ℕ) (o : WafObject) (s : State) (o' : WafObject) (s' : State)
    : Type 0 where
  pub grows : Grows (memory_of s) (memory_of s')
  pub safe :
      (lo : ℕ)
      → lo ≤ length (memory_of s)
      → SafeSlot g d lo (memory_of s) o
      → SafeSlot g d lo (memory_of s') o'
  pub retained : (lo : ℕ) → Retained lo s.store → Retained lo s'.store

abbrev pub CarefulValue : Setting → ℕ → EncodeValue → Type 0
CarefulValue g d enc =
    (v : GoValue) (o : WafObject) (s : State) → Careful g d o s (enc v o s).1 (enc v o s).2

pub Careful-trans :
    {g : Setting} {d : ℕ} {o o' o'' : WafObject} {s s' s'' : State}
    → Careful g d o s o' s'
    → Careful g d o' s' o'' s''
    → Careful g d o s o'' s''
Careful-trans p q = record {
  grows = Same-trans p.grows q.grows;
  safe = λ lo b h. q.safe lo (omega (arith, p.grows.longer)) (p.safe lo b h);
  retained = λ lo h. q.retained lo (p.retained lo h);
}

module _ (g : Setting) (d : ℕ) (o : WafObject) {s s' : State} (same : s'.store ≡ s.store) where
  -- Only the timer and the truncations change.
  pub Careful-same : Careful g d o s o s'
  Careful-same =
      rw same (record { grows = Same-refl 0 _; safe = λ lo b h. h; retained = λ lo h. h })

  -- The object gets a value that is not an address.
  pub Careful-plain :
      (val t : ℕ)
      → is_plain (encode_native val t o) ≡ true
      → Careful g d o s (encode_native val t o) s'
  Careful-plain val t p = rw same (record {
    grows = Same-refl 0 _;
    safe = λ lo b h. (h.0, Safe-plain g d lo _ _ p);
    retained = λ lo h. h;
  })
