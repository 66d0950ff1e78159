-- ===== src/Truncation.antt =====
-- encoder.go: the record of what was not encoded in full.
use go_libddwaf.Base.{
  ◌≡◌, ◌∙◌, ap, Bool, true, false, List, [], ◌∷◌, ◌++◌, arith, Key, Dict, lookup, insert, or_nil,
  lookup-insert_hit, lookup-insert_ne, if◌then◌else◌, Bool-cases, inl, inr,
}
use go_libddwaf.Base.Int.{ℤ}

pub data TruncationReason : Type 0 where
  string_too_long container_too_large object_too_deep : TruncationReason

abbrev same_reason : TruncationReason → TruncationReason → Bool
same_reason string_too_long string_too_long = true
same_reason container_too_large container_too_large = true
same_reason object_too_deep object_too_deep = true
same_reason _ _ = false

pub same_reason_refl : (a : TruncationReason) → same_reason a a ≡ true
same_reason_refl a = ground arith

pub same_reason→eq : (a b : TruncationReason) → same_reason a b ≡ true → a ≡ b
same_reason→eq a b h = ground arith

instance abbrev pub reason_key : Key TruncationReason
reason_key = record { beq = same_reason; beq_refl = same_reason_refl; eq_of_beq = same_reason→eq }

abbrev pub Truncations : Type 0
Truncations = Dict TruncationReason (List ℤ)

-- `truncations[reason]`, the nil slice if there is none.
unfoldable pub sizes_of : TruncationReason → Truncations → List ℤ
unfolding lookup
sizes_of reason t = or_nil (lookup reason t)

unfoldable pub add_truncation : TruncationReason → ℤ → Truncations → Truncations
unfolding sizes_of insert
add_truncation reason size t = insert reason (sizes_of reason t ++ size ∷ []) t

-- After `addTruncation`, the sizes of its reason are those before with the new one behind them, and
-- those of every other reason are as before.
pub sizes_of-add_truncation :
    (r reason : TruncationReason) (size : ℤ) (t : Truncations)
    → sizes_of r (add_truncation reason size t)
      ≡ (if same_reason reason r then sizes_of r t ++ size ∷ [] else sizes_of r t)
unfolding sizes_of add_truncation
sizes_of-add_truncation r reason size t = elim (Bool-cases (same_reason reason r)) [
  | inl e ↦ rw e (
      ap or_nil (lookup-insert_hit r reason (sizes_of reason t ++ size ∷ []) t e)
      ∙ ap (λ x. sizes_of x t ++ size ∷ []) (same_reason→eq reason r e))
  | inr e ↦ rw e (ap or_nil (lookup-insert_ne reason r (sizes_of reason t ++ size ∷ []) t e))
]
