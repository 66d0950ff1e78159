-- ===== src/GoValue.antt =====
-- The Go values that the encoder walks over, as package reflect presents them.
use go_libddwaf.Base.{ℕ, suc, Bool, Option, [], ◌∷◌, Text}
use go_libddwaf.Base.Int.{ℤ}

-- What the encoder asks of the type of an array or a slice: whether its elements are of kind uint8,
-- and whether it is `[]byte` itself.
pub record SequenceType : Type 0 where
  pub elem_uint8 : Bool
  pub is_byte_slice : Bool

-- A field of a struct type: its name, and what `Tag.Lookup` finds under "json" and "ddwaf".
pub record FieldType : Type 0 where
  pub name : Text
  pub json : Option Text
  pub ddwaf : Option Text

-- `invalid` is the zero reflect.Value; `nil` a nil value of a kind that has one. `opaque` stands for
-- non-nil functions, channels and unsafe pointers, and for complex numbers. A float is its bit
-- pattern as a float64. A pointer is an address in a heap, so that cycles can be expressed.
mutual
  pub data GoValue : Type 0 where
    invalid opaque : GoValue
    nil : NilKind → GoValue
    bool : Bool → GoValue
    int : ℤ → GoValue
    uint float : ℕ → GoValue
    string : Text → GoValue
    pointer : ℕ → GoValue
    interface : GoValue → GoValue
    sequence : SequenceType → Items → GoValue
    dict : Entries → GoValue
    struct : Fields → GoValue

  pub data Items : Type 0 where
    no_items : Items
    item : GoValue → Items → Items

  -- The entries of a map in the order of its iteration.
  pub data Entries : Type 0 where
    no_entries : Entries
    entry : GoValue → GoValue → Entries → Entries

  pub data Fields : Type 0 where
    no_fields : Fields
    field : FieldType → GoValue → Fields → Fields

  -- The kind of a nil value; `nil_slice` says whether the type is `[]byte`.
  pub data NilKind : Type 0 where
    nil_pointer nil_interface nil_map nil_func nil_chan nil_unsafe : NilKind
    nil_slice : Bool → NilKind

abbrev pub GoHeap : Type 0
GoHeap = ℕ → GoValue

-- value.Len()
abbrev pub count_items : Items → ℕ
count_items no_items = 0
count_items (item v r) = suc (count_items r)

abbrev pub count_entries : Entries → ℕ
count_entries no_entries = 0
count_entries (entry k v r) = suc (count_entries r)

-- typ.NumField()
abbrev pub count_fields : Fields → ℕ
count_fields no_fields = 0
count_fields (field t v r) = suc (count_fields r)

-- value.Bytes(), of a value of type `[]byte`.
abbrev pub byte_of : GoValue → ℕ
byte_of (uint n) = n
byte_of v = 0

abbrev pub bytes_of : Items → Text
bytes_of no_items = []
bytes_of (item v r) = byte_of v ∷ bytes_of r
