-- ===== src/Base/Maps.antt =====
-- Go maps, as association lists: a lookup finds the first entry of its key.
use mathlib.Core.Path.{◌≡◌, refl, sym, ap, subst}
use mathlib.Core.Bool.{Bool, true, false}
use mathlib.Core.Option.{Option, none, some}
use mathlib.Core.List.{List, [], ◌∷◌, ◌++◌}
use native.Mathlib.Omega.{arith}
use go_libddwaf.Base.Bytes.{Text, text_eq, text_eq_refl, text_eq→eq}
use go_libddwaf.Base.Lists.{All}
use go_libddwaf.Base.Tests.{if◌then◌else◌}

-- Keys that Go compares by `==`.
pub record Key {ℓ} (K : Type ℓ) : Type ℓ where
  pub beq : K → K → Bool
  pub beq_refl : (a : K) → beq a a ≡ true
  pub eq_of_beq : (a b : K) → beq a b ≡ true → a ≡ b

instance abbrev pub text_key : Key Text
text_key = record { beq = text_eq; beq_refl = text_eq_refl; eq_of_beq = text_eq→eq }

abbrev pub Dict {ℓ κ} : Type ℓ → Type κ → Type (ℓ ⊔ κ)
Dict K V = List (K × V)

-- The slice at a key of a map of slices: nil if there is none.
abbrev pub or_nil {ℓ} : {V : Type ℓ} → Option (List V) → List V
or_nil none = []
or_nil (some vs) = vs

module _ {ℓ κ} {K : Type ℓ} {V : Type κ} ⦃e : Key K⦄ where
  -- v, ok := m[k]
  unfoldable pub lookup : K → Dict K V → Option V
  lookup k [] = none
  lookup k ((j, v) ∷ m) = if e.beq j k then some v else lookup k m

  -- m[k] = v
  unfoldable pub insert : K → V → Dict K V → Dict K V
  insert k v [] = (k, v) ∷ []
  insert k v ((j, w) ∷ m) = if e.beq j k then (j, v) ∷ m else (j, w) ∷ insert k v m

  -- No key comes twice.
  abbrev pub Distinct : Dict K V → Type 0
  Distinct [] = Unit {0}
  Distinct ((k, v) ∷ m) = All (λ p. e.beq k p.0 ≡ false) m × Distinct m

  -- The keys of `m` are others than `k`.
  abbrev pub Lacks : K → Dict K V → Type 0
  Lacks k m = All (λ p. e.beq p.0 k ≡ false) m

  pub insert-last : (k : K) (v : V) (m : Dict K V) → Lacks k m → insert k v m ≡ m ++ (k, v) ∷ []
  unfolding insert
  insert-last k v [] h = refl
  insert-last k v ((j, w) ∷ m) (n, h) = rw n (ap (◌∷◌ (j, w)) (insert-last k v m h))

  All-at : (P : K × V → Type 0) (m : Dict K V) (p : K × V) (d : Dict K V) → All P (m ++ p ∷ d) → P p
  All-at P [] p d h = h.0
  All-at P (q ∷ m) p d h = All-at P m p d h.1

  pub Distinct-Lacks :
      (m : Dict K V) (k : K) (v : V) (d : Dict K V) → Distinct (m ++ (k, v) ∷ d) → Lacks k m
  Distinct-Lacks [] k v d h = tt
  Distinct-Lacks ((j, w) ∷ m) k v d (n, h) = (All-at _ m (k, v) d n, Distinct-Lacks m k v d h)

  pub lookup-insert_self : (k : K) (v : V) (m : Dict K V) → lookup k (insert k v m) ≡ some v
  unfolding lookup insert
  lookup-insert_self k v [] = ground (arith, e.beq_refl k)
  lookup-insert_self k v ((j, w) ∷ m) = ground (arith, lookup-insert_self k v m)

  pub lookup-insert_hit :
      (k j : K) (v : V) (m : Dict K V) → e.beq j k ≡ true → lookup k (insert j v m) ≡ some v
  lookup-insert_hit k j v m h =
      subst (λ x. lookup k (insert x v m) ≡ some v) (sym (e.eq_of_beq j k h))
        (lookup-insert_self k v m)

  pub lookup-insert_ne :
      (k j : K) (v : V) (m : Dict K V) → e.beq k j ≡ false → lookup j (insert k v m) ≡ lookup j m
  unfolding lookup insert
  lookup-insert_ne k j v [] h = ground arith
  lookup-insert_ne k j v ((i, w) ∷ m) h =
      ground (arith, lookup-insert_ne k j v m h, e.eq_of_beq i k)
