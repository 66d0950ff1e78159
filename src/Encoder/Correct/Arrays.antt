-- ===== src/Encoder/Correct/Arrays.antt =====
-- encoder.go: the loop of `encodeArray`.
use go_libddwaf.Base.{
  ℕ, suc, ◌≤◌, ◌<◌, ◌≡◌, ◌∙◌, true, false, Option, none, some, List, [], ◌∷◌, ◌++◌, arith, length,
  ◌==◌, Bool-cases, ==_iff, get_elem?_lt, inl, inr,
}
use go_libddwaf.Errors.{Error}
use go_libddwaf.WafObject.{WafObject}
use go_libddwaf.Memory.{Memory}
use go_libddwaf.Memory.Growth.{Grows, Keeps-trans, Keeps-of-Grows, Same-refl}
use go_libddwaf.GoValue.{GoValue, Items, no_items, item}
use go_libddwaf.Base.Int.{pos}
use go_libddwaf.Truncation.{container_too_large}
use go_libddwaf.Encoder.{Setting, State, truncated}
use go_libddwaf.Encoder.Containers.{EncodeValue, slot, fill_slot, next_index, array_loop}
use go_libddwaf.Encoder.Filled.{
  Filled, Filled-Grows, Keeps-store, slot-Filled, Filled-skip, Filled-keep,
}
use go_libddwaf.Tree.{Tree, hole, null, bool, int, uint, float, string, array, map, Child}
use go_libddwaf.Tree.Holds.{Holds, Holds-Same}
use go_libddwaf.Tree.Spec.{usable, cons_some, item_trees}
use go_libddwaf.Encoder.Correct.{
  memory_of, SameKey, Outcome, Correct, Unlimited, Loops, Clear, asked, Loops-from, Loops-keep,
  Loops-end, Loops-full,
}

-- An element either leaves the slot clear and the index as it is, or is kept.
abbrev Stepped : Option Tree → ℕ → Memory → WafObject → Option Error → WafObject → ℕ → Type 0
Stepped none lo m o err o' i = (next_index err o' i ≡ i) × Clear o'
Stepped (some t) lo m o err o' i = (next_index err o' i ≡ suc i) × SameKey o o' × Holds lo m o' t

Outcome-Stepped :
    (x : Option Tree) (lo : ℕ) (m : Memory) (o : WafObject) (err : Option Error) (o' : WafObject)
    (i : ℕ)
    → Clear o
    → Outcome x lo m o err o'
    → Stepped (usable x) lo m o err o' i
Outcome-Stepped none lo m o err o' i c h = ground arith
Outcome-Stepped (some hole) lo m o err o' i c h = ground arith
Outcome-Stepped (some null) lo m o err o' i c h = ground arith
Outcome-Stepped (some (bool b)) lo m o err o' i c h = (ground arith, h.1, h.2)
Outcome-Stepped (some (int z)) lo m o err o' i c h = (ground arith, h.1, h.2)
Outcome-Stepped (some (uint n)) lo m o err o' i c h = (ground arith, h.1, h.2)
Outcome-Stepped (some (float n)) lo m o err o' i c h = (ground arith, h.1, h.2)
Outcome-Stepped (some (string s)) lo m o err o' i c h = (ground arith, h.1, h.2)
Outcome-Stepped (some (array b)) lo m o err o' i c h = (ground (arith, h.0, h.2.1), h.1, h.2)
Outcome-Stepped (some (map b)) lo m o err o' i c h = (ground (arith, h.0, h.2.1), h.1, h.2)

module _ (g : Setting) (never : Unlimited g) (enc : EncodeValue) (f : GoValue → Option Tree)
    (right : Correct enc f) (k cap full : ℕ) where
  -- One round that does not stop: the element is encoded and the loop goes on from its slot.
  array_loop_step :
      (v : GoValue) (r : Items) (i : ℕ) (s : State)
      → (i == cap) ≡ false
      → array_loop g enc (suc k) cap full (item v r) i s ≡ (
          let (err, o, u) = enc v (slot s (suc k) i) (asked s) in
          array_loop g enc (suc k) cap full r (next_index err o i) (fill_slot (suc k) i o u))
  unfolding array_loop
  array_loop_step v r i s e = rw (never s.polls, e)

  array_loop_full :
      (v : GoValue) (r : Items) (i : ℕ) (s : State)
      → (i == cap) ≡ true
      → array_loop g enc (suc k) cap full (item v r) i s
        ≡ (some i, truncated container_too_large (pos full) (asked s))
  unfolding array_loop
  array_loop_full v r i s e = rw (never s.polls, e)

  -- One element, given the claim for the rest of the loop.
  array_round :
      (x : Option Tree) (more : List Child) (i : ℕ) (s u : State) (kept : List Child)
      (err : Option Error) (o' : WafObject) (loop : ℕ → State → Option ℕ × State)
      → i < cap
      → Filled Clear k cap i (memory_of s) kept
      → Grows (memory_of s) (memory_of u)
      → Stepped x (length (memory_of s)) (memory_of u) (slot s (suc k) i) err o' i
      → ((i' : ℕ) (s' : State) (kept' : List Child)
          → i' ≤ cap
          → Filled Clear k cap i' (memory_of s') kept'
          → Loops Clear k cap i' (memory_of s') kept' more (loop i' s'))
      → Loops Clear k cap i
          (memory_of s)
          kept
          (cons_some x more)
          (loop (next_index err o' i) (fill_slot (suc k) i o' u))
  array_round none more i s u kept err o' loop b filled grows (e, clear) ih =
      let filled' = Filled-Grows grows filled in
      rw e (
        Loops-from (Keeps-trans (Keeps-of-Grows grows) (Keeps-store o' filled'))
          (ih i (fill_slot (suc k) i o' u) kept (omega arith) (Filled-skip o' b clear filled')))
  array_round (some t) more i s u kept err o' loop b filled grows (e, key, holds) ih =
      let filled' = Filled-Grows grows filled in
      rw e (
        Loops-keep b (Keeps-trans (Keeps-of-Grows grows) (Keeps-store o' filled')) (
          ih (suc i) (fill_slot (suc k) i o' u) (kept ++ ([], t) ∷ []) b (
            Filled-keep o' [] t b (key.0 ∙ (slot-Filled b filled).0)
              (Holds-Same (get_elem?_lt _ k _ filled.at) (Same-refl _ _) t o' holds) filled')))

  -- The loop keeps the first elements that have an impact, up to the capacity.
  pub array_loop_lem :
      (items : Items) (i : ℕ) (s : State) (kept : List Child)
      → i ≤ cap
      → Filled Clear k cap i (memory_of s) kept
      → Loops Clear k cap i
          (memory_of s)
          kept
          (item_trees g f items)
          (array_loop g enc (suc k) cap full items i s)
  unfolding array_loop item_trees
  array_loop_lem no_items i s kept b filled = Loops-end s filled
  array_loop_lem (item v r) i s kept b filled = elim (Bool-cases (i == cap)) [
    | inl e ↦
        rw (array_loop_full v r i s e)
          (Loops-full (item_trees g f (item v r)) _ ((==_iff i cap).0 e) filled)
    | inr e ↦
        let done = right v (slot s (suc k) i) (asked s) in
        rw (array_loop_step v r i s e) (
          array_round (usable (f v)) (item_trees g f r) i s _ kept _ _
            (array_loop g enc (suc k) cap full r) (ground arith) filled done.grows
            (Outcome-Stepped (f v) _ _ _ _ _ i (slot-Filled (ground arith) filled) done.outcome)
            (array_loop_lem r))
  ]
