-- ===== src/Encoder/Safe/Values.antt =====
-- encoder.go under any timer: `encode`.
use go_libddwaf.Base.{ℕ, zero, suc, refl, arith, length, Bool-cases, inl, inr}
use go_libddwaf.WafObject.{
  WafObject, zero_object, waf_nil_type, waf_bool_type, waf_int_type, waf_uint_type, waf_float_type,
}
use go_libddwaf.Memory.Growth.{Grows}
use go_libddwaf.Decoder.Objects.{decode_object}
use go_libddwaf.Encoder.Safe.Reading.{IsRead, decode_object-IsRead}
use go_libddwaf.GoValue.{
  GoValue, pointer, interface, invalid, nil, bool, int, uint, float, string, sequence, dict, struct,
  opaque,
}
use go_libddwaf.Encoder.{Setting, State, word_of, bool_word, resolve_pointer, indirection_limit}
use go_libddwaf.Encoder.Containers.{EncodeValue}
use go_libddwaf.Encoder.Encode.{too_deep, with_timer, encode, encode_resolved, encode_container}
use go_libddwaf.Encoder.Correct.{memory_of, asked}
use go_libddwaf.Encoder.Safe.{
  Safe, SafeSlot-zero, CarefulValue, Careful-same, Careful-plain, Careful-trans, Retained,
}
use go_libddwaf.Encoder.Safe.Texts.{encode_string-Careful}
use go_libddwaf.Encoder.Safe.Whole.{encode_array-Careful, encode_map-Careful, encode_struct-Careful}

module _ (g : Setting) (d : ℕ) where
  encode_resolved-Careful :
      (deeper : EncodeValue) → CarefulValue g d deeper → CarefulValue g d (encode_resolved g deeper)
  unfolding encode_resolved
  encode_resolved-Careful deeper c (pointer a) o s = Careful-same g d o refl
  encode_resolved-Careful deeper c (interface v) o s = Careful-same g d o refl
  encode_resolved-Careful deeper c invalid o s = Careful-same g d o refl
  encode_resolved-Careful deeper c (nil k) o s = Careful-plain g d o refl 0 waf_nil_type refl
  encode_resolved-Careful deeper c (bool b) o s =
      Careful-plain g d o refl (bool_word g.stray b) waf_bool_type refl
  encode_resolved-Careful deeper c (int z) o s =
      Careful-plain g d o refl (word_of z) waf_int_type refl
  encode_resolved-Careful deeper c (uint n) o s = Careful-plain g d o refl n waf_uint_type refl
  encode_resolved-Careful deeper c (float n) o s = Careful-plain g d o refl n waf_float_type refl
  encode_resolved-Careful deeper c (string str) o s = encode_string-Careful g d str o s
  encode_resolved-Careful deeper c (sequence t l) o s = elim (Bool-cases t.elem_uint8) [
    | inl e ↦ simp e (Careful-same g d o refl)
    | inr e ↦ simp e (c (sequence t l) o s)
  ]
  encode_resolved-Careful deeper c (dict l) o s = c (dict l) o s
  encode_resolved-Careful deeper c (struct l) o s = c (struct l) o s
  encode_resolved-Careful deeper c opaque o s = c opaque o s

  encode_container-Careful :
      (enc : EncodeValue) → CarefulValue g d enc → CarefulValue g (suc d) (encode_container g enc)
  unfolding encode_container
  encode_container-Careful enc c (sequence t l) o s = encode_array-Careful g d enc c l o s
  encode_container-Careful enc c (dict l) o s = encode_map-Careful g d enc c l o s
  encode_container-Careful enc c (struct l) o s = encode_struct-Careful g d enc c l o s
  encode_container-Careful enc c _ o s = Careful-same g (suc d) o refl

timed-Careful :
    (g : Setting) (d : ℕ) (enc : EncodeValue)
    → CarefulValue g d enc
    → CarefulValue g d (with_timer g enc)
timed-Careful g d enc c v o s = elim (Bool-cases (g.expired s.polls)) [
  | inl stop ↦ rw stop (Careful-same g d o refl)
  | inr go ↦ rw go (
      Careful-trans (Careful-same g d o refl)
        (c (resolve_pointer g.heap indirection_limit v) o (asked s)))
]

-- Whatever the timer and the value, `encode` is careful.
encode-Careful : (g : Setting) (depth : ℕ) → CarefulValue g depth (encode g depth)
unfolding encode
encode-Careful g zero =
    timed-Careful g 0 (encode_resolved g (λ v. too_deep))
      (encode_resolved-Careful g 0 (λ v. too_deep) (λ v o s. Careful-same g 0 o refl))
encode-Careful g (suc d) =
    timed-Careful g (suc d) (encode_resolved g (encode_container g (encode g d))) (
      encode_resolved-Careful g (suc d) (encode_container g (encode g d))
        (encode_container-Careful g d (encode g d) (encode-Careful g d)))

-- Whatever the value and the timer, what `encode` makes of a new object can be read: all its addresses
-- lead to blocks that are new, it has at most `depth` levels, no container has more children and no text
-- or key more bytes than the limits allow; the memory that was there before is unchanged.
pub encode-Safe :
    (g : Setting) (depth : ℕ) (v : GoValue) (s : State)
    → let (err, o, s') = encode g depth v zero_object s in
      Safe g depth (length (memory_of s)) (memory_of s') o × Grows (memory_of s) (memory_of s')
encode-Safe g depth v s =
    let c = encode-Careful g depth v zero_object s in
    ((c.safe _ (omega arith) (SafeSlot-zero g depth _ _)).1, c.grows)

-- Whatever the value and the timer, every block that `encode` adds to the memory is in the pool afterwards.
pub encode-Retained :
    (g : Setting) (depth : ℕ) (v : GoValue) (o : WafObject) (s : State)
    → Retained (length (memory_of s)) (encode g depth v o s).2.store
encode-Retained g depth v o s =
    (encode-Careful g depth v o s).retained (length (memory_of s)) (λ j q b. absurd (omega arith))

-- Whatever the value and the timer, `decodeObject` reads what `encode` makes of a new object without a
-- fault, and fuel for `depth + 1` levels is enough: it returns a value or an error.
pub decode-encode-IsRead :
    (g : Setting) (depth : ℕ) (v : GoValue) (s : State)
    → let (err, o, s') = encode g depth v zero_object s in
      IsRead (decode_object (memory_of s') (suc depth) o)
decode-encode-IsRead g depth v s =
    decode_object-IsRead g (length (memory_of s)) _ depth _ (encode-Safe g depth v s).0
