-- ===== src/Encoder/Tagged.antt =====
-- encoder.go under any timer: the type that `encode` gives to an object, and its key.
use go_libddwaf.Base.{
  ℕ, zero, suc, ◌≡◌, refl, Bool, true, false, Option, none, some, [], ◌∷◌, Text, Bool-cases, inl,
  inr, ◌==◌,
}
use go_libddwaf.Errors.{Error}
use go_libddwaf.WafObject.{
  WafObject, waf_nil_type, waf_bool_type, waf_int_type, waf_uint_type, waf_float_type,
  waf_string_type, waf_array_type, waf_map_type,
}
use go_libddwaf.RefPool.{Store, Container, container_type, alloc_waf_string, alloc_waf_array}
use go_libddwaf.GoValue.{
  GoValue, pointer, interface, invalid, nil, bool, int, uint, float, string, sequence, dict, struct,
  opaque, Fields,
}
use go_libddwaf.Encoder.{Setting, State, clip, encode_string, resolve_pointer, indirection_limit}
use go_libddwaf.Encoder.Containers.{
  EncodeValue, encode_array, encode_map, encode_struct, fix_size, new_array,
}
use go_libddwaf.Encoder.Correct.{asked}
use go_libddwaf.Encoder.Encode.{too_deep, with_timer, encode, encode_resolved, encode_container}

-- The type of libddwaf for each kind of Go value; the other kinds have none.
abbrev pub tag_of : GoValue → Option ℕ
tag_of (nil k) = some waf_nil_type
tag_of (bool b) = some waf_bool_type
tag_of (int z) = some waf_int_type
tag_of (uint n) = some waf_uint_type
tag_of (float n) = some waf_float_type
tag_of (string str) = some waf_string_type
tag_of (sequence t items) = some waf_array_type
tag_of (dict l) = some waf_map_type
tag_of (struct f) = some waf_map_type
tag_of v = none

-- The values for which the object stays as it is although there is no error: bytes, and a struct if
-- the timer has expired at question `polls`.
abbrev pub is_left : Setting → ℕ → GoValue → Bool
is_left g polls (sequence t items) = t.elem_uint8
is_left g polls (struct f) = g.expired polls
is_left g polls v = false

abbrev is_bytes : GoValue → Bool
is_bytes (sequence t items) = t.elem_uint8
is_bytes v = false

-- The object `o` became `o'`: nothing changed, or it has this type and the key that it had.
abbrev pub Became : Bool → Option ℕ → WafObject → WafObject → Type 0
Became true tag o o' = o' ≡ o
Became false tag o o' =
    (some o'.type ≡ tag)
    × (o'.parameter_name ≡ o.parameter_name)
    × (o'.parameter_name_length ≡ o.parameter_name_length)

-- With an error the object is unchanged.
abbrev pub Tagged : Setting → ℕ → GoValue → Option Error → WafObject → WafObject → Type 0
Tagged g polls v (some e) o o' = o' ≡ o
Tagged g polls v none o o' = Became (is_left g polls v) (tag_of v) o o'

text-Became :
    (str : Text) (o : WafObject) (st : Store)
    → Became false (some waf_string_type) o (alloc_waf_string o str st).0
unfolding alloc_waf_string
text-Became [] o st = (refl, refl, refl)
text-Became (c ∷ str) o st = (refl, refl, refl)

string-Became :
    (g : Setting) (str : Text) (o : WafObject) (s : State)
    → Became false (some waf_string_type) o (encode_string g str o s).0
unfolding encode_string
string-Became g str o s = text-Became (clip g.string_max_size str) o _

array-Became :
    (n : Option ℕ) (o : WafObject) (typ : Container) (size : ℕ) (s : State)
    → Became false (some (container_type typ)) o (fix_size n (new_array o typ size s).0)
unfolding alloc_waf_array
array-Became none o typ size s = elim (Bool-cases (size == 0)) [
  | inl e ↦ rw e (refl, refl, refl)
  | inr e ↦ rw e (refl, refl, refl)
]
array-Became (some n) o typ size s = elim (Bool-cases (size == 0)) [
  | inl e ↦ rw e (refl, refl, refl)
  | inr e ↦ rw e (refl, refl, refl)
]

module _ (g : Setting) (enc : EncodeValue) where
  struct-Tagged :
      (f : Fields) (o : WafObject) (s : State)
      → Became (g.expired s.polls) (some waf_map_type) o (encode_struct g enc f o s).0
  unfolding encode_struct
  struct-Tagged f o s = elim (Bool-cases (g.expired s.polls)) [
    | inl stop ↦ rw stop refl
    | inr go ↦ rw go (array-Became _ o Container.map_container _ (asked s))
  ]

  container-Tagged :
      (v : GoValue) (o : WafObject) (s : State)
      → is_bytes v ≡ false
      → let (err, o', s') = encode_container g enc v o s in Tagged g s.polls v err o o'
  unfolding encode_container encode_array encode_map
  container-Tagged (sequence t l) o s e = rw e (array-Became _ o Container.array_container _ s)
  container-Tagged (dict l) o s e = array-Became _ o Container.map_container _ s
  container-Tagged (struct f) o s e = struct-Tagged f o s
  container-Tagged _ o s e = refl

  -- `enc` only meets sequences whose elements are no bytes.
  resolved-Tagged :
      ((w : GoValue) (o : WafObject) (s : State)
        → is_bytes w ≡ false
        → let (err, o', s') = enc w o s in Tagged g s.polls w err o o')
      → (v : GoValue) (o : WafObject) (s : State)
      → let (err, o', s') = encode_resolved g enc v o s in Tagged g s.polls v err o o'
  unfolding encode_resolved
  resolved-Tagged h (pointer a) o s = refl
  resolved-Tagged h (interface v) o s = refl
  resolved-Tagged h invalid o s = refl
  resolved-Tagged h (nil k) o s = (refl, refl, refl)
  resolved-Tagged h (bool b) o s = (refl, refl, refl)
  resolved-Tagged h (int z) o s = (refl, refl, refl)
  resolved-Tagged h (uint n) o s = (refl, refl, refl)
  resolved-Tagged h (float n) o s = (refl, refl, refl)
  resolved-Tagged h (string str) o s = string-Became g str o s
  resolved-Tagged h (sequence t l) o s = elim (Bool-cases t.elem_uint8) [
    | inl e ↦ rw e refl
    | inr e ↦ simp e (h (sequence t l) o s e)
  ]
  resolved-Tagged h (dict l) o s = h (dict l) o s refl
  resolved-Tagged h (struct f) o s = h (struct f) o s refl
  resolved-Tagged h opaque o s = h opaque o s refl

  timed-Tagged :
      ((v : GoValue) (o : WafObject) (s : State)
        → let (err, o', s') = enc v o s in Tagged g s.polls v err o o')
      → (v : GoValue) (o : WafObject) (s : State)
      → let (err, o', s') = with_timer g enc v o s in
        Tagged g (suc s.polls) (resolve_pointer g.heap indirection_limit v) err o o'
  timed-Tagged h v o s = elim (Bool-cases (g.expired s.polls)) [
    | inl stop ↦ rw stop refl
    | inr go ↦ rw go (h (resolve_pointer g.heap indirection_limit v) o (asked s))
  ]

-- Whatever the value and the timer, `encode` either returns an error and leaves the object as it was,
-- or returns none and gives the object the type that belongs to the kind of the resolved value, under
-- the key that it had; but it leaves the object as it was, without an error, for an array or a slice of
-- bytes, and for a struct if the timer expires at the question that follows the first.
pub encode-Tagged :
    (g : Setting) (depth : ℕ) (v : GoValue) (o : WafObject) (s : State)
    → let (err, o', s') = encode g depth v o s in
      Tagged g (suc s.polls) (resolve_pointer g.heap indirection_limit v) err o o'
unfolding encode
encode-Tagged g zero v o s =
    timed-Tagged g (encode_resolved g (λ v. too_deep))
      (resolved-Tagged g (λ v. too_deep) (λ w o s e. refl)) v o s
encode-Tagged g (suc d) v o s =
    let inside = encode_container g (encode g d) in
    timed-Tagged g (encode_resolved g inside)
      (resolved-Tagged g inside (container-Tagged g (encode g d))) v o s
