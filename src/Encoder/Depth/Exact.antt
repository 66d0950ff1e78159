-- ===== src/Encoder/Depth/Exact.antt =====
-- encoder.go: the depth that `depthOf` measures is that of the most deeply nested containers.
use go_libddwaf.Base.{
  ℕ, zero, suc, ◌+◌, ◌≤◌, ◌<◌, ◌≡◌, refl, ◌∙◌, sym, ap, subst, Bool, true, false, not, ◌||◌, ◌==◌,
  Option, none, some, List, [], ◌∷◌, arith, Bool-cases, ◌⊎◌, inl, inr, max,
}
use go_libddwaf.GoValue.{GoValue, GoHeap}
use go_libddwaf.Encoder.{resolve_pointer, indirection_limit}
use go_libddwaf.Encoder.Depth.{Measured, measured, one_more, with_child, kind_depth, depth_of}
use go_libddwaf.Encoder.Depth.Children.{
  children, any, any_child, nests, list_depth, measure_children, kind_depth-children,
}

-- A result is right by `p`: its depth is reached, and without a stop no greater depth is.
abbrev Exact : (ℕ → Bool) → Option Measured → Type 0
Exact p none = Unit
Exact p (some r) = (p r.depth ≡ true) × (r.stopped ≡ false → (n : ℕ) → r.depth < n → p n ≡ false)

-- The same for a loop that has reached `d` before.
abbrev ExactFrom : ℕ → (ℕ → Bool) → Option Measured → Type 0
ExactFrom d p none = Unit
ExactFrom d p (some r) =
    (d ≤ r.depth)
    × ((r.depth ≡ d) ⊎ (p r.depth ≡ true))
    × (r.stopped ≡ false → (n : ℕ) → r.depth < n → p n ≡ false)

or-left : (a b : Bool) → a ≡ true → (a || b) ≡ true
or-left true b e = refl
or-left false b e = absurd (ground arith)

or-right : (a b : Bool) → b ≡ true → (a || b) ≡ true
or-right true b e = refl
or-right false b e = e

or-false : (a b : Bool) → a ≡ false → b ≡ false → (a || b) ≡ false
or-false true b e f = e
or-false false b e f = f

max-cases : (a b : ℕ) → (max a b ≡ a) ⊎ (max a b ≡ b)
max-cases a b = omega arith

module _ (p q : ℕ → Bool) (d : ℕ) (c : Measured) (exact : Exact p (some c)) where
  -- The child reaches the greatest depth so far, or it was reached before.
  max-reached : (max d c.depth ≡ d) ⊎ ((p (max d c.depth) || q (max d c.depth)) ≡ true)
  max-reached = elim (max-cases d c.depth) [
    | inl e ↦ inl e
    | inr e ↦ inr (or-left _ _ (subst (λ k. p k ≡ true) (sym e) exact.0))
  ]

  with_child-stop :
      c.stopped ≡ true → ExactFrom d (λ n. p n || q n) (measured (max d c.depth) true c.asked)
  with_child-stop e = (omega arith, max-reached, λ f. absurd (ground arith))

  with_child-go :
      c.stopped ≡ false
      → (x : Option Measured) → ExactFrom (max d c.depth) q x
      → ExactFrom d (λ n. p n || q n) x
  with_child-go e none h = tt
  with_child-go e (some r) (b, reached, over) = (
    omega arith,
    elim reached [
      | inl f ↦ subst (λ k. (k ≡ d) ⊎ ((p k || q k) ≡ true)) (sym f) max-reached
      | inr f ↦ inr (or-right _ _ f)
    ],
    λ s n lt. or-false _ _ (exact.1 e n (omega arith)) (over s n lt),
  )

module _ (p : ℕ → GoValue → Bool) (rec : GoValue → ℕ → Option Measured)
    (exact : (v : GoValue) (n : ℕ) → Exact (λ k. p k v) (rec v n)) where
  with_child-Exact :
      (v : GoValue) (l : List GoValue) (d : ℕ) (x : Option Measured)
      (rest : ℕ → ℕ → Option Measured)
      → Exact (λ k. p k v) x
      → ((a b : ℕ) → ExactFrom a (λ k. any (p k) l) (rest a b))
      → ExactFrom d (λ k. any (p k) (v ∷ l)) (with_child rec d x rest)
  with_child-Exact v l d none rest h k = tt
  with_child-Exact v l d (some c) rest h k = elim (Bool-cases c.stopped) [
    | inl e ↦ rw e (with_child-stop (λ k. p k v) (λ k. any (p k) l) d c h e)
    | inr e ↦
        rw e (with_child-go (λ k. p k v) (λ k. any (p k) l) d c h e _ (k (max d c.depth) c.asked))
  ]

  list_depth-Exact :
      (l : List GoValue) (d n : ℕ) → ExactFrom d (λ k. any (p k) l) (list_depth rec l d n)
  unfolding list_depth
  list_depth-Exact [] d n = (omega arith, inl refl, λ s k b. refl)
  list_depth-Exact (v ∷ l) d n =
      with_child-Exact v l d (rec v n) (list_depth rec l) (exact v n) (list_depth-Exact l)

-- `nests` once the pointers are resolved.
abbrev nests_in : GoHeap → Option (List GoValue) → ℕ → Bool
nests_in h c zero = true
nests_in h c (suc n) = any_child (n == 0) (nests h n) c

positive : (k d : ℕ) → d < k → (k == 0) ≡ false
positive k d b = ground arith

over-suc :
    (h : GoHeap) (l : List GoValue) (d : ℕ)
    → ((n : ℕ) → d < n → any (nests h n) l ≡ false)
    → (n : ℕ) → suc d < n
    → nests_in h (some l) n ≡ false
over-suc h l d over zero lt = absurd (omega arith)
over-suc h l d over (suc k) lt =
    or-false (k == 0) _ (positive k d (omega arith)) (over k (omega arith))

not_container : (h : GoHeap) (n : ℕ) → 0 < n → nests_in h none n ≡ false
not_container h zero lt = absurd (omega arith)
not_container h (suc k) lt = refl

one_more-Exact :
    (h : GoHeap) (l : List GoValue) (x : Option Measured)
    → ExactFrom 0 (λ k. any (nests h k) l) x
    → Exact (nests_in h (some l)) (one_more x)
one_more-Exact h l none e = tt
one_more-Exact h l (some r) (b, reached, over) = (
  elim reached [
    | inl e ↦ or-left (r.depth == 0) _ (subst (λ k. (k == 0) ≡ true) (sym e) refl)
    | inr e ↦ or-right _ _ e
  ],
  λ s n. over-suc h l r.depth (over s) n,
)

not_container-Exact : (h : GoHeap) (n : ℕ) → Exact (nests_in h none) (measured 0 false n)
not_container-Exact h n = (refl, λ s. not_container h)

nests-resolved :
    (h : GoHeap) (v : GoValue) (n : ℕ)
    → nests h n v ≡ nests_in h (children (resolve_pointer h indirection_limit v)) n
unfolding nests
nests-resolved h v zero = refl
nests-resolved h v (suc n) = refl

Exact-ext : (p q : ℕ → Bool) (x : Option Measured) → ((n : ℕ) → p n ≡ q n) → Exact q x → Exact p x
Exact-ext p q none e h = tt
Exact-ext p q (some r) e (a, b) = (e r.depth ∙ a, λ s n lt. e n ∙ b s n lt)

module _ (h : GoHeap) (done : ℕ → Bool) where
  children-Exact :
      (rec : GoValue → ℕ → Option Measured)
      → ((v : GoValue) (n : ℕ) → Exact (λ k. nests h k v) (rec v n))
      → (c : Option (List GoValue)) (n : ℕ) → Exact (nests_in h c) (measure_children rec c n)
  children-Exact rec exact none n = not_container-Exact h n
  children-Exact rec exact (some l) n =
      one_more-Exact h l _ (list_depth-Exact (nests h) rec exact l 0 n)

  kind_depth-Exact :
      (rec : GoValue → ℕ → Option Measured)
      → ((v : GoValue) (n : ℕ) → Exact (λ k. nests h k v) (rec v n))
      → (v : GoValue) (n : ℕ)
      → Exact (λ k. nests h k v) (kind_depth rec (resolve_pointer h indirection_limit v) n)
  kind_depth-Exact rec exact v n =
      let w = resolve_pointer h indirection_limit v in
      Exact-ext _ (nests_in h (children w)) _ (nests-resolved h v)
        (rw (kind_depth-children rec w n) (children-Exact rec exact (children w) n))

  stop-Exact : (v : GoValue) (n : ℕ) → Exact (λ k. nests h k v) (measured 0 true n)
  unfolding nests
  stop-Exact v n = (refl, λ e. absurd (ground arith))

  depth_of-Exact :
      (fuel : ℕ) (v : GoValue) (n : ℕ) → Exact (λ k. nests h k v) (depth_of h done fuel v n)
  unfolding depth_of
  depth_of-Exact zero v n = tt
  depth_of-Exact (suc fuel) v n = elim (Bool-cases (done n)) [
    | inl e ↦ rw e (stop-Exact v (suc n))
    | inr e ↦ rw e (kind_depth-Exact (depth_of h done fuel) (depth_of-Exact fuel) v (suc n))
  ]

unless_stopped : (b c : Bool) → (b ≡ false → c ≡ false) → (b || not c) ≡ true
unless_stopped true c h = refl
unless_stopped false c h = ap not (h refl)

-- If `depthOf` returns, that many containers are nested in the value; and it was stopped by the context
-- unless no greater number is.
pub depth_of_exact :
    (h : GoHeap) (done : ℕ → Bool) (fuel : ℕ) (v : GoValue) (asked : ℕ) (r : Measured) (n : ℕ)
    → depth_of h done fuel v asked ≡ some r
    → (nests h r.depth v ≡ true) × ((r.stopped || not (nests h (suc r.depth + n) v)) ≡ true)
depth_of_exact h done fuel v asked r n e =
    let (a, b) = subst (Exact (λ k. nests h k v)) e (depth_of-Exact h done fuel v asked) in
    (a, unless_stopped _ _ (λ s. b s (suc r.depth + n) (omega arith)))
