-- ===== src/Encoder/Names.antt =====
-- encoder.go: the keys that the fields of a struct get from their json tags.
use go_libddwaf.Base.{
  ℕ, ◌≡◌, refl, ◌∙◌, ap, false, some, [], ◌∷◌, ◌++◌, Text, length, take, arith, ◌==◌, if◌then◌else◌,
}
use go_libddwaf.GoValue.{FieldType}
use go_libddwaf.Encoder.{cut_tag, index_comma, cut_at, is_private, tag_or, get_field_name_from_type}

-- No byte of the name is a comma.
abbrev pub NoComma : Text → Type 0
NoComma [] = Unit {0}
NoComma (c ∷ name) = ((c == b',') ≡ false) × NoComma name

index_comma-append :
    (name options : Text) → NoComma name → index_comma (name ++ b',' ∷ options) ≡ some (length name)
index_comma-append [] options h = refl
index_comma-append (c ∷ name) options (e, h) = rw (e, index_comma-append name options h) refl

take-length : (xs ys : Text) → take (length xs) (xs ++ ys) ≡ xs
take-length [] ys = refl
take-length (x ∷ xs) ys = ap (λ l. x ∷ l) (take-length xs ys)

cut_tag-append :
    (c : ℕ) (name options : Text)
    → NoComma (c ∷ name)
    → cut_tag (c ∷ (name ++ b',' ∷ options)) ≡ c ∷ name
unfolding cut_tag
cut_tag-append c name options h =
    ap (λ i. cut_at i (c ∷ (name ++ b',' ∷ options))) (index_comma-append (c ∷ name) options h)
    ∙ take-length (c ∷ name) (b',' ∷ options)

-- A field that is not private and has a json tag with options gets the tag's name as its key; where
-- that name is empty it gets the whole tag, with its comma and its options.
pub field_name-options :
    (t : FieldType) (name options : Text)
    → is_private t.name ≡ false
    → t.json ≡ some (name ++ b',' ∷ options)
    → NoComma name
    → get_field_name_from_type t ≡ some (if length name == 0 then b',' ∷ options else name)
unfolding get_field_name_from_type cut_tag
field_name-options t [] options visible tag h = rw (visible, tag) refl
field_name-options t (c ∷ name) options visible tag h =
    let named : (length (c ∷ name) == 0) ≡ false = ground arith in
    rw (visible, tag, named) (ap (λ x. some (tag_or x t.name)) (cut_tag-append c name options h))
