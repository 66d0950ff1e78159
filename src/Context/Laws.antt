-- ===== src/Context/Laws.antt =====
-- context.go: what `merge` puts at a key, and the truncations that a context collects.
use go_libddwaf.Base.{
  ◌+◌, ◌==◌, ◌≡◌, refl, sym, ◌∙◌, ap, Bool, true, false, ◌||◌, Option, none, some, List, [], ◌∷◌,
  ◌++◌, append_assoc, append-nil, length, arith, ltb, Dict, Key, lookup, insert, or_nil,
  lookup-insert_hit, lookup-insert_ne, if◌then◌else◌, Bool-cases, inl, inr,
}
use go_libddwaf.Base.Int.{ℤ}
use go_libddwaf.Truncation.{TruncationReason, Truncations, sizes_of, reason_key}
use go_libddwaf.Context.Merge.{merge, merge_keys, add_keys, drop, from}
use go_libddwaf.Context.{record_truncations}

drop-append : {V : Type 0} (xs ys : List V) → drop (length xs) (xs ++ ys) ≡ ys
drop-append [] ys = refl
drop-append (x ∷ xs) ys = drop-append xs ys

or_true : (b : Bool) → (b || true) ≡ true
or_true true = refl
or_true false = refl

if_same : {A : Type 0} (b : Bool) (a : A) → (if b then a else a) ≡ a
if_same true a = refl
if_same false a = refl

abbrev has : {A : Type 0} → Option A → Bool
has none = false
has (some a) = true

-- The two slices of a key one after the other, if either map has the key.
abbrev pub joined : {V : Type 0} → Option (List V) → Option (List V) → Option (List V)
joined none none = none
joined x y = some (or_nil x ++ or_nil y)

joined_lem :
    {V : Type 0} (x y : Option (List V))
    → (if has y || (has x || false) then some (or_nil x ++ or_nil y) else none) ≡ joined x y
joined_lem none none = refl
joined_lem none (some w) = refl
joined_lem (some v) none = refl
joined_lem (some v) (some w) = refl

module _ {K V : Type 0} ⦃e : Key K⦄ where
  has-add_keys :
      (k : K) (m : Dict K (List V)) (keys : Dict K (Unit {0}))
      → has (lookup k (add_keys m keys)) ≡ (has (lookup k m) || has (lookup k keys))
  unfolding add_keys lookup
  has-add_keys k [] keys = refl
  has-add_keys k ((j, v) ∷ m) keys = elim (Bool-cases (e.beq j k)) [
    | inl h ↦
        has-add_keys k m (insert j tt keys)
        ∙ rw (lookup-insert_hit k j tt keys h, h) (or_true (has (lookup k m)))
    | inr h ↦ has-add_keys k m (insert j tt keys) ∙ rw (lookup-insert_ne j k tt keys h, h) refl
  ]

  abbrev both : K → Dict K (List V) → Dict K (List V) → List V
  both k a b = or_nil (lookup k a) ++ or_nil (lookup k b)

  -- What one round of the second loop puts at its key.
  part-both :
      (k j : K) (a b : Dict K (List V)) (values : List V)
      → e.beq j k ≡ true
      → from (length values) ((values ++ or_nil (lookup j a)) ++ or_nil (lookup j b)) ≡ both k a b
  part-both k j a b values h =
      rw (append_assoc values (or_nil (lookup j a)) (or_nil (lookup j b)))
        (drop-append values (both j a b))
      ∙ ap (λ x. both x a b) (e.eq_of_beq j k h)

  lookup-merge_keys :
      (k : K) (a b : Dict K (List V)) (keys : Dict K (Unit {0})) (values : List V)
      (merged : Dict K (List V))
      → lookup k (merge_keys a b keys values merged)
        ≡ (if has (lookup k keys) then some (both k a b) else lookup k merged)
  unfolding merge_keys lookup
  lookup-merge_keys k a b [] values merged = refl
  lookup-merge_keys k a b ((j, u) ∷ keys) values merged =
      let values' = (values ++ or_nil (lookup j a)) ++ or_nil (lookup j b) in
      let v = from (length values) values' in
      let rest = lookup-merge_keys k a b keys values' (insert j v merged) in
      elim (Bool-cases (e.beq j k)) [
        | inl h ↦
            rest
            ∙ rw (lookup-insert_hit k j v merged h, part-both k j a b values h, h)
                (if_same (has (lookup k keys)) (some (both k a b)))
        | inr h ↦ rest ∙ rw (lookup-insert_ne j k v merged h, h) refl
      ]

  lookup-merge_some :
      (k : K) (a b : Dict K (List V))
      → (length a + length b == 0) ≡ false
      → lookup k (merge a b) ≡ joined (lookup k a) (lookup k b)
  unfolding merge lookup
  lookup-merge_some k a b h = rw h (
      lookup-merge_keys k a b (add_keys b (add_keys a [])) [] []
      ∙ rw (has-add_keys k b (add_keys a []), has-add_keys k a [])
          (joined_lem (lookup k a) (lookup k b)))

  -- At each key that either map has, `merge` puts the first map's values and then the second's; it
  -- has no other key.
  pub lookup-merge :
      (k : K) (a b : Dict K (List V)) → lookup k (merge a b) ≡ joined (lookup k a) (lookup k b)
  unfolding merge lookup
  lookup-merge k [] [] = refl
  lookup-merge k [] (y ∷ b) = lookup-merge_some k [] (y ∷ b) (ground arith)
  lookup-merge k (x ∷ a) b = lookup-merge_some k (x ∷ a) b (ground arith)

or_nil-joined : {V : Type 0} (x y : Option (List V)) → or_nil (joined x y) ≡ or_nil x ++ or_nil y
or_nil-joined none none = refl
or_nil-joined none (some w) = refl
or_nil-joined (some v) none = refl
or_nil-joined (some v) (some w) = refl

pub sizes_of-record :
    (r : TruncationReason) (context new : Truncations)
    → sizes_of r (record_truncations context new) ≡ sizes_of r context ++ sizes_of r new
unfolding sizes_of record_truncations lookup
sizes_of-record r context [] = sym (append-nil _)
sizes_of-record r context (x ∷ new) =
    let long : ltb 0 (length (x ∷ new)) ≡ true = ground arith in
    rw (long, lookup-merge r context (x ∷ new))
      (or_nil-joined (lookup r context) (lookup r (x ∷ new)))

abbrev pub record_all : Truncations → List Truncations → Truncations
record_all context [] = context
record_all context (new ∷ l) = record_all (record_truncations context new) l

abbrev pub all_sizes : TruncationReason → List Truncations → List ℤ
all_sizes r [] = []
all_sizes r (new ∷ l) = sizes_of r new ++ all_sizes r l

-- A context keeps, for every reason, the sizes that its encoders recorded, in the order of the
-- encoders, behind those that it had; nothing is lost.
pub sizes_of-record_all :
    (r : TruncationReason) (context : Truncations) (l : List Truncations)
    → sizes_of r (record_all context l) ≡ sizes_of r context ++ all_sizes r l
sizes_of-record_all r context [] = sym (append-nil _)
sizes_of-record_all r context (new ∷ l) =
    sizes_of-record_all r (record_truncations context new) l
    ∙ rw (sizes_of-record r context new)
        (append_assoc (sizes_of r context) (sizes_of r new) (all_sizes r l))
