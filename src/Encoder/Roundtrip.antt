-- ===== src/Encoder/Roundtrip.antt =====
-- encoder.go and decoder.go together: what is encoded is read back, within the limits.
use go_libddwaf.Base.{ℕ, suc, ◌≡◌, subst, Option, none, some, arith, length}
use go_libddwaf.Errors.{Error}
use go_libddwaf.WafObject.{WafObject, zero_object}
use go_libddwaf.Memory.{Memory}
use go_libddwaf.Memory.Growth.{Grows}
use go_libddwaf.GoValue.{GoValue}
use go_libddwaf.Encoder.{Setting, State}
use go_libddwaf.Encoder.Encode.{encode}
use go_libddwaf.Decoder.Objects.{decode_object}
use go_libddwaf.Tree.{Tree, hole, null, bool, int, uint, float, string, array, map, read}
use go_libddwaf.Tree.Holds.{Holds}
use go_libddwaf.Tree.ReadBack.{decode_object-Holds}
use go_libddwaf.Tree.Limits.{Fits, FitsIfAny, height-Fits, tree_of-Fits}
use go_libddwaf.Tree.Spec.{tree_of}
use go_libddwaf.Encoder.Correct.{memory_of, Outcome, Right, Unlimited}
use go_libddwaf.Encoder.Correct.Values.{encode-Correct}

-- In a new object even the hole is represented.
Outcome-Holds :
    (t : Tree) (lo : ℕ) (m : Memory) (err : Option Error) (o : WafObject)
    → Outcome (some t) lo m zero_object err o
    → (err ≡ none) × Holds lo m o t
Outcome-Holds hole lo m err o (e, same) = (e, rw same)
Outcome-Holds null lo m err o (e, k, h) = (e, h)
Outcome-Holds (bool b) lo m err o (e, k, h) = (e, h)
Outcome-Holds (int z) lo m err o (e, k, h) = (e, h)
Outcome-Holds (uint n) lo m err o (e, k, h) = (e, h)
Outcome-Holds (float n) lo m err o (e, k, h) = (e, h)
Outcome-Holds (string s) lo m err o (e, k, h) = (e, h)
Outcome-Holds (array b) lo m err o (e, k, h) = (e, h)
Outcome-Holds (map b) lo m err o (e, k, h) = (e, h)

module _ (g : Setting) (depth : ℕ) (v : GoValue) (s : State) where
  encode-Right :
      (x : Option Tree)
      → Unlimited g
      → tree_of g depth v ≡ x
      → Right x zero_object s (encode g depth v zero_object s)
  encode-Right x never e =
      subst (λ y. Right y zero_object s (encode g depth v zero_object s)) e
        (encode-Correct g never depth v zero_object s)

  -- With a timer that never expires, a value that has a tree is encoded without an error into an
  -- object of new blocks that represents the tree; the tree keeps to the three limits, and the memory
  -- that was there before is unchanged.
  pub encode-Holds :
      (t : Tree)
      → Unlimited g
      → tree_of g depth v ≡ some t
      → let (err, o, s') = encode g depth v zero_object s in
        (err ≡ none)
        × Holds (length (memory_of s)) (memory_of s') o t
        × Fits g.container_max_size g.string_max_size depth t
        × Grows (memory_of s) (memory_of s')
  encode-Holds t never e =
      let right = encode-Right (some t) never e in
      let (fine, holds) = Outcome-Holds t _ _ _ _ right.outcome in
      (
        fine,
        holds,
        subst (FitsIfAny g.container_max_size g.string_max_size depth) e (tree_of-Fits g depth v),
        right.grows,
      )

  -- With a timer that never expires, a value that has a tree is encoded without an error, and
  -- `decodeObject` reads from the result what the tree stands for, with fuel for `depth + 1` levels.
  pub encode_decode :
      (t : Tree)
      → Unlimited g
      → tree_of g depth v ≡ some t
      → let (err, o, s') = encode g depth v zero_object s in
        (err ≡ none) × (decode_object (memory_of s') (suc depth) o ≡ read t)
  encode_decode t never e =
      let (fine, holds, fits, grows) = encode-Holds t never e in
      (
        fine,
        decode_object-Holds (length (memory_of s)) _ (suc depth) t _
            (omega (arith, height-Fits _ _ depth t fits)) holds,
      )

  -- With a timer that never expires, a value that has no tree is an error; the object and the memory
  -- that was there before are untouched.
  pub encode_refuses :
      Unlimited g
      → tree_of g depth v ≡ none
      → let (err, o, s') = encode g depth v zero_object s in
        ((e : Error) × (err ≡ some e)) × (o ≡ zero_object) × Grows (memory_of s) (memory_of s')
  encode_refuses never e =
      let right = encode-Right none never e in (right.outcome.0, right.outcome.1, right.grows)
