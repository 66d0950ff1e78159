-- ===== src/WafObject.antt =====
-- internal/bindings/ctypes.go: the layout that Go and libddwaf share.
use go_libddwaf.Base.{ℕ, Bool, ◌==◌, ◌||◌}

abbrev pub waf_max_string_length : ℕ
waf_max_string_length = 4096

abbrev pub waf_max_container_depth : ℕ
waf_max_container_depth = 20

abbrev pub waf_max_container_size : ℕ
waf_max_container_size = 256

-- The values of `WafObjectType`, a uint32.
abbrev pub waf_invalid_type : ℕ
waf_invalid_type = 0

abbrev pub waf_int_type : ℕ
waf_int_type = 1

abbrev pub waf_uint_type : ℕ
waf_uint_type = 2

abbrev pub waf_string_type : ℕ
waf_string_type = 4

abbrev pub waf_array_type : ℕ
waf_array_type = 8

abbrev pub waf_map_type : ℕ
waf_map_type = 16

abbrev pub waf_bool_type : ℕ
waf_bool_type = 32

abbrev pub waf_float_type : ℕ
waf_float_type = 64

abbrev pub waf_nil_type : ℕ
waf_nil_type = 128

-- Pointers and lengths are words; the padding is left out.
pub record WafObject : Type 0 where
  pub parameter_name : ℕ
  pub parameter_name_length : ℕ
  pub value : ℕ
  pub nb_entries : ℕ
  pub type : ℕ

-- Go's zero value.
abbrev pub zero_object : WafObject
zero_object = record {
  parameter_name = 0;
  parameter_name_length = 0;
  value = 0;
  nb_entries = 0;
  type = waf_invalid_type;
}

abbrev pub is_invalid : WafObject → Bool
is_invalid w = w.type == waf_invalid_type

abbrev pub is_nil : WafObject → Bool
is_nil w = w.type == waf_nil_type

abbrev pub is_array : WafObject → Bool
is_array w = w.type == waf_array_type

abbrev pub is_map : WafObject → Bool
is_map w = w.type == waf_map_type

abbrev pub is_unusable : WafObject → Bool
is_unusable w = w.type == waf_invalid_type || w.type == waf_nil_type
