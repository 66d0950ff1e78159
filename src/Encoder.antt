-- ===== src/Encoder.antt =====
-- encoder.go: the state of an encoder and the steps that its parts share. `encode` writes through
-- `obj`, which nothing else refers to: here the object is passed by value and returned. It is never
-- nil: `Encode` passes a new object and the containers pass `&objArray[i]`.
pub mod Containers
pub mod Filled
pub mod Correct
pub mod Roundtrip
pub mod Names
pub mod Safe
pub mod Tagged
pub mod Depth
pub mod Tests
pub mod Encode
use go_libddwaf.Base.{
  ℕ, zero, suc, ◌+◌, ◌*◌, ◌-◌, ◌^◌, ◌%◌, Bool, true, false, not, ◌&&◌, ◌||◌, Option, none, some,
  List, [], ◌∷◌, Text, bytes, length, take, ltb, leb, ◌==◌, if◌then◌else◌,
}
use go_libddwaf.Base.Int.{ℤ, pos, negsuc, pos_part, neg_part}
use go_libddwaf.WafObject.{WafObject}
use go_libddwaf.RefPool.{Store, alloc_waf_string, alloc_waf_map_key}
use go_libddwaf.GoValue.{GoValue, pointer, interface, GoHeap, FieldType}
use go_libddwaf.Truncation.{TruncationReason, string_too_long, Truncations, add_truncation}

-- What an encoder meets and does not change: the heap behind the pointers, its three limits, and the
-- answers of its timer, where `expired k` is the answer to question number `k`. `stray` is the seven
-- bytes behind a Go bool in memory, which `NativeToUintptr` reads along with it.
pub record Setting : Type 0 where
  pub heap : GoHeap
  pub expired : ℕ → Bool
  pub stray : ℕ
  pub container_max_size : ℕ
  pub string_max_size : ℕ
  pub object_max_depth : ℕ

-- `polls` counts the calls of `timer.Exhausted()`.
pub record State : Type 0 where
  pub store : Store
  pub truncations : Truncations
  pub polls : ℕ

-- The bits of an int64 or uint64, as a uintptr.
abbrev pub word_of : ℤ → ℕ
word_of z = (pos_part z + (2 ^ 64 - neg_part z % 2 ^ 64)) % 2 ^ 64

-- encodeNative
abbrev pub encode_native : ℕ → ℕ → WafObject → WafObject
encode_native val t obj = record obj { type = t; value = val }

abbrev bit : Bool → ℕ
bit true = 1
bit false = 0

-- `NativeToUintptr` of a bool: its byte is the lowest of eight.
abbrev pub bool_word : ℕ → Bool → ℕ
bool_word stray b = (bit b + 2 ^ 8 * stray) % 2 ^ 64

-- timer.Exhausted()
abbrev pub exhausted : Setting → State → Bool × State
exhausted g s = (g.expired s.polls, record s { polls = suc s.polls })

abbrev pub truncated : TruncationReason → ℤ → State → State
truncated reason size s = record s { truncations = add_truncation reason size s.truncations }

-- Truncations: what was recorded, which the encoder forgets.
abbrev pub take_truncations : State → Truncations × State
take_truncations s = (s.truncations, record s { truncations = [] })

-- At most eight pointers are followed, and every interface.
unfoldable pub resolve_pointer : GoHeap → ℕ → GoValue → GoValue
resolve_pointer h (suc limit) (pointer a) = resolve_pointer h limit (h a)
resolve_pointer h (suc limit) (interface v) = resolve_pointer h limit v
resolve_pointer h zero (interface v) = resolve_pointer h zero v
resolve_pointer h limit v = v

abbrev pub indirection_limit : ℕ
indirection_limit = 8

-- `str[:max]` and its record, if the text is too long.
unfoldable pub clip : ℕ → Text → Text
clip max str = if ltb max (length str) then take max str else str

unfoldable pub note_clip : ℕ → Text → State → State
note_clip max str s =
    if ltb max (length str) then truncated string_too_long (pos (length str)) s else s

unfoldable pub encode_string : Setting → Text → WafObject → State → WafObject × State
unfolding clip note_clip
encode_string g str obj s =
    let t = note_clip g.string_max_size str s in
    let (o, st) = alloc_waf_string obj (clip g.string_max_size str) t.store in
    (o, record t { store = st })

unfoldable pub encode_map_key_from_string : Setting → Text → WafObject → State → WafObject × State
unfolding clip note_clip
encode_map_key_from_string g str obj s =
    let t = note_clip g.string_max_size str s in
    let (o, st) = alloc_waf_map_key obj (clip g.string_max_size str) t.store in
    (o, record t { store = st })

-- unicode.IsLower of a byte read as a Latin-1 character.
abbrev pub is_lower : ℕ → Bool
is_lower c =
    (leb b'a' c && leb c b'z') || (c == 0xb5) || (leb 0xdf c && leb c 0xff && not (c == 0xf7))

-- strings.IndexByte(tag, ','), if positive, cuts the tag there.
abbrev pub index_comma : Text → Option ℕ
index_comma [] = none
index_comma (c ∷ s) =
    if c == b',' then some 0 else elim (index_comma s) [ none ↦ none | some i ↦ some (suc i) ]

abbrev pub cut_at : Option ℕ → Text → Text
cut_at (some (suc i)) tag = take (suc i) tag
cut_at _ tag = tag

unfoldable pub cut_tag : Text → Text
cut_tag tag = cut_at (index_comma tag) tag

-- The tag's name replaces the field's, unless it is empty.
abbrev pub tag_or : Text → Text → Text
tag_or [] name = name
tag_or (c ∷ tag) name = c ∷ tag

abbrev json_name : Option Text → Text → Text
json_name none name = name
json_name (some tag) name = tag_or (cut_tag tag) name

abbrev is_private : Text → Bool
is_private [] = true
is_private (c ∷ name) = is_lower c

-- `none` is `"", false`.
unfoldable pub get_field_name_from_type : FieldType → Option Text
unfolding cut_tag
get_field_name_from_type t = if is_private t.name then none else some (json_name t.json t.name)
