-- ===== src/Errors.antt =====
-- errors/waf.go: the errors of the encoder and the decoder, and those of a run.
pub mod Messages
use go_libddwaf.Base.Int.{ℤ}

-- The sentinel errors, and a `RunError` by its cases that this program returns.
pub data Error : Type 0 where
  max_depth_exceeded unsupported_value invalid_map_key nil_object_ptr : Error
  invalid_object_type too_many_indirections : Error
  internal invalid_object invalid_argument timeout out_of_memory empty_rule_addresses : Error
  unknown_return_code : ℤ → Error
