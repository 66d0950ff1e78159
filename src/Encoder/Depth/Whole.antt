-- ===== src/Encoder/Depth/Whole.antt =====
-- encoder.go: what `Encode` says of a value that is too deep.
use go_libddwaf.Base.{
  ℕ, suc, ◌≤◌, ◌≡◌, refl, ap, Bool, true, false, ◌==◌, Option, none, some, List, [], ◌∷◌, arith,
  length, Bool-cases, ◌⊎◌, inl, inr, insert, or_nil, lookup-insert_hit,
}
use go_libddwaf.Base.Int.{ℤ, pos}
use go_libddwaf.WafObject.{zero_object}
use go_libddwaf.GoValue.{GoValue, GoHeap}
use go_libddwaf.Truncation.{Truncations, object_too_deep, sizes_of, reason_key}
use go_libddwaf.Encoder.{Setting, State}
use go_libddwaf.Encoder.Encode.{encode}
use go_libddwaf.Encoder.Depth.{
  Measured, depth_of, record_depth, measure_object_depth, finish, encode_value,
}
use go_libddwaf.Encoder.Depth.Ends.{Ends, depth_of-Ends}
use go_libddwaf.Encoder.Depth.Exact.{depth_of_exact}
use go_libddwaf.Encoder.Depth.Children.{nests}

-- Nothing was too deep, or there is one depth, and the value is that deep.
abbrev pub DepthReported : GoHeap → GoValue → Option State → Type 0
DepthReported h v none = ⊥
DepthReported h v (some s) =
    (sizes_of object_too_deep s.truncations ≡ [])
    ⊎ ((d : ℕ) × (sizes_of object_too_deep s.truncations ≡ pos d ∷ []) × (nests h d v ≡ true))

nil_length : {A : Type 0} (l : List A) → (length l == 0) ≡ true → l ≡ []
nil_length [] e = refl
nil_length (x ∷ l) e = absurd (ground arith)

sizes_of-insert :
    (l : List ℤ) (t : Truncations) → sizes_of object_too_deep (insert object_too_deep l t) ≡ l
unfolding sizes_of
sizes_of-insert l t = ap or_nil (lookup-insert_hit object_too_deep object_too_deep l t refl)

record_depth-Reported :
    (h : GoHeap) (v : GoValue) (n : ℕ) (x : Option Measured) (s : State)
    → Ends n x
    → ((r : Measured) → x ≡ some r → nests h r.depth v ≡ true)
    → DepthReported h v (record_depth x s)
record_depth-Reported h v n none s ends k = ends
record_depth-Reported h v n (some r) s ends k =
    inr (r.depth, sizes_of-insert (pos r.depth ∷ []) s.truncations, k r refl)

measure-Reported :
    (g : Setting) (done : ℕ → Bool) (last fuel : ℕ) (v : GoValue) (s : State)
    → ((k : ℕ) → last ≤ k → done k ≡ true)
    → last ≤ fuel
    → DepthReported g.heap v (measure_object_depth g done (suc fuel) v s)
unfolding measure_object_depth
measure-Reported g done last fuel v s over b =
    record_depth-Reported g.heap v 1 (depth_of g.heap done (suc fuel) v 0) s
      (depth_of-Ends g.heap done last fuel v 0 over (omega arith))
      (λ r e. (depth_of_exact g.heap done (suc fuel) v 0 r 0 e).0)

finish-Reported :
    (g : Setting) (done : ℕ → Bool) (last fuel : ℕ) (v : GoValue) (s : State)
    → g.expired s.polls ≡ false
    → ((k : ℕ) → last ≤ k → done k ≡ true)
    → last ≤ fuel
    → DepthReported g.heap v (finish g done (suc fuel) v s)
finish-Reported g done last fuel v s go over b =
    elim (Bool-cases (length (sizes_of object_too_deep s.truncations) == 0)) [
      | inl e ↦ rw e (inl (nil_length _ e))
      | inr e ↦ rw (e, go) (measure-Reported g done last fuel v _ over b)
    ]

-- If the encoder's timer has not expired at its last question and the context that `measureObjectDepth`
-- makes is done from question `last` on, `Encode` returns, and either no object was too deep or exactly
-- one depth is recorded for it, and that many containers are nested in the value.
pub encode_value-Reported :
    (g : Setting) (done : ℕ → Bool) (last fuel : ℕ) (v : GoValue) (s : State)
    → g.expired (encode g g.object_max_depth v zero_object s).2.polls ≡ false
    → ((k : ℕ) → last ≤ k → done k ≡ true)
    → last ≤ fuel
    → DepthReported g.heap v (encode_value g done (suc fuel) v s).2
unfolding encode_value
encode_value-Reported g done last fuel v s go over b =
    finish-Reported g done last fuel v (encode g g.object_max_depth v zero_object s).2 go over b
