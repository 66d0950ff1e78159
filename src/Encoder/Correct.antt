-- ===== src/Encoder/Correct.antt =====
-- encoder.go: what it means for a function that encodes values to be right, and the three container
-- loops over such a function.
pub mod Arrays
pub mod Keys
pub mod Maps
pub mod Frame
pub mod Whole
pub mod Values
use go_libddwaf.Base.{
  ℕ, zero, suc, ◌+◌, ◌-◌, ◌≤◌, ◌<◌, ◌≡◌, refl, sym, ◌∙◌, ap, Bool, true, false, Option, none, some,
  List, [], ◌∷◌, ◌++◌, Text, arith, length, take, get_elem?, append_assoc, append-nil, All, ltb,
  ◌==◌, if◌then◌else◌, Bool-cases, Option-cases, ◌⊎◌, inl, inr,
}
use go_libddwaf.Base.Int.{ℤ}
use go_libddwaf.Errors.{Error}
use go_libddwaf.WafObject.{WafObject, zero_object, is_unusable}
use go_libddwaf.Memory.{Memory, objects, load_object, store_object}
use go_libddwaf.Memory.Growth.{Same, Keeps, Grows, Keeps-trans, Keeps-refl}
use go_libddwaf.GoValue.{GoValue, Items, no_items, item}
use go_libddwaf.Truncation.{container_too_large}
use go_libddwaf.Encoder.{Setting, State, exhausted, truncated}
use go_libddwaf.Encoder.Containers.{Encoded, EncodeValue, slot, fill_slot, next_index, array_loop}
use go_libddwaf.Encoder.Filled.{
  Filled, Filled-Grows, Keeps-store, slot-Filled, Filled-skip, Filled-keep, Filled-start,
}
use go_libddwaf.Tree.{Tree, hole, null, Child, branches}
use go_libddwaf.Tree.Holds.{TextAt, Holds, Elems}
use go_libddwaf.Tree.Spec.{usable, or_hole, cons_some, item_trees}

abbrev pub memory_of : State → Memory
memory_of s = s.store.memory

-- The map key of an object is as it was.
abbrev pub SameKey : WafObject → WafObject → Type 0
SameKey o o' =
    (o'.parameter_name ≡ o.parameter_name) × (o'.parameter_name_length ≡ o.parameter_name_length)

-- The object represents the tree, in blocks from `lo` on. Where there is no tree there is an error,
-- and the object is untouched; so it is for the hole, without an error.
abbrev pub Outcome : Option Tree → ℕ → Memory → WafObject → Option Error → WafObject → Type 0
Outcome none lo m o err o' = ((e : Error) × (err ≡ some e)) × (o' ≡ o)
Outcome (some hole) lo m o err o' = (err ≡ none) × (o' ≡ o)
Outcome (some t) lo m o err o' = (err ≡ none) × SameKey o o' × Holds lo m o' t

pub record Right (t : Option Tree) (o : WafObject) (s : State) (r : Encoded) : Type 0 where
  pub grows : Grows (memory_of s) (memory_of r.2)
  pub outcome : Outcome t (length (memory_of s)) (memory_of r.2) o r.0 r.1

-- `enc` does what `f` says, on every value, object and state.
abbrev pub Correct : EncodeValue → (GoValue → Option Tree) → Type 0
Correct enc f = (v : GoValue) (o : WafObject) (s : State) → Right (f v) o s (enc v o s)

-- The timer never stops the encoder.
abbrev pub Unlimited : Setting → Type 0
Unlimited g = (k : ℕ) → g.expired k ≡ false

-- What a loop makes of a block that is filled up to `i`: it adds the first of `more` that fit. `m` is
-- the memory that it begins with, `r` its result.
pub record Loops (P : WafObject → Type 0) (k cap i : ℕ) (m : Memory) (kept more : List Child)
    (r : Option ℕ × State) : Type 0 where
  pub index : r.0 ≡ some (length (kept ++ take (cap - i) more))
  pub filled :
      Filled P k cap
        (length (kept ++ take (cap - i) more))
        (memory_of r.1)
        (kept ++ take (cap - i) more)
  pub keeps : Keeps k m (memory_of r.1)

-- A slot of an array: no key, and no value with an impact.
abbrev pub Clear : WafObject → Type 0
Clear o = (o.parameter_name ≡ 0) × (o.parameter_name_length ≡ 0) × (is_unusable o ≡ true)

-- Taking one more child moves it from what is left to what is kept.
take_step :
    (kept more : List Child) (c : Child) (cap i : ℕ)
    → i < cap
    → (kept ++ c ∷ []) ++ take (cap - suc i) more ≡ kept ++ take (cap - i) (c ∷ more)
take_step kept more c cap i b =
    let e : cap - i ≡ suc (cap - suc i) = omega arith in
    rw (e, append_assoc kept (c ∷ []) (take (cap - suc i) more))

-- The state in which an element is encoded: the timer has been asked.
abbrev pub asked : State → State
asked s = record s { polls = suc s.polls }

take_nil : (n : ℕ) → take {A = Child} n [] ≡ []
take_nil zero = refl
take_nil (suc n) = refl

take_zero : (more : List Child) (n : ℕ) → n ≡ 0 → take n more ≡ []
take_zero more n e = rw e

-- Nothing that is left fits.
Loops-nothing :
    {P : WafObject → Type 0} {k cap i : ℕ} {kept more : List Child}
    → take (cap - i) more ≡ []
    → (s : State) → Filled P k cap i (memory_of s) kept
    → Loops P k cap i (memory_of s) kept more (some i, s)
Loops-nothing {P} {k} {cap} {i} {kept} e s filled = record {
  index = rw (e, append-nil kept, filled.kept_count);
  filled = rw (e, append-nil kept, filled.kept_count) filled;
  keeps = Keeps-refl k (memory_of s);
}

module _ {P : WafObject → Type 0} {k cap i : ℕ} {m m' : Memory} {kept more : List Child}
    {r : Option ℕ × State} where
  -- A loop goes on from a later memory.
  pub Loops-from : Keeps k m m' → Loops P k cap i m' kept more r → Loops P k cap i m kept more r
  Loops-from keeps l = record {
    index = l.index;
    filled = l.filled;
    keeps = Keeps-trans keeps l.keeps;
  }

  -- A child that was kept stands first among those that fit.
  pub Loops-keep :
      {c : Child}
      → i < cap
      → Keeps k m m'
      → Loops P k cap (suc i) m' (kept ++ c ∷ []) more r
      → Loops P k cap i m kept (c ∷ more) r
  Loops-keep {c} b keeps l =
      let e = take_step kept more c cap i b in
      record {
        index = rw e at l.index;
        filled = rw e at l.filled;
        keeps = Keeps-trans keeps l.keeps;
      }

-- Nothing is left.
pub Loops-end :
    {P : WafObject → Type 0} {k cap i : ℕ} {kept : List Child} (s : State)
    → Filled P k cap i (memory_of s) kept
    → Loops P k cap i (memory_of s) kept [] (some i, s)
Loops-end {cap} {i} {kept} s filled = Loops-nothing (take_nil (cap - i)) s filled

-- The array is full, and whatever is left is dropped.
pub Loops-full :
    {P : WafObject → Type 0} {k cap i : ℕ} {kept : List Child} (more : List Child) (s : State)
    → i ≡ cap
    → Filled P k cap i (memory_of s) kept
    → Loops P k cap i (memory_of s) kept more (some i, s)
Loops-full {cap} {i} more s e filled =
    Loops-nothing (take_zero more (cap - i) (omega arith)) s filled
