-- ===== src/Errors/Messages.antt =====
-- errors/waf.go, errors/support.go and handle.go: the messages of the errors.
use go_libddwaf.Base.{suc, ◌≡◌, refl, ◌∷◌, ◌++◌, Text, bytes, decimal, if◌then◌else◌}
use go_libddwaf.Base.Int.{ℤ, pos, negsuc, eq_ℤ}
use go_libddwaf.Errors.{
  Error, max_depth_exceeded, unsupported_value, invalid_map_key, nil_object_ptr,
  invalid_object_type, too_many_indirections, internal, invalid_object, invalid_argument, timeout,
  out_of_memory, empty_rule_addresses, unknown_return_code,
}

-- %d of an int.
abbrev pub show_int : ℤ → Text
show_int (pos n) = decimal n
show_int (negsuc n) = b'-' ∷ decimal (suc n)

-- The `RunError` of a number: `iota + 1`.
abbrev pub run_error : ℤ → Text
run_error e =
    if eq_ℤ e (pos 1)
    then bytes "internal waf error"
    else if eq_ℤ e (pos 4)
    then bytes "waf timeout"
    else if eq_ℤ e (pos 2)
    then bytes "invalid waf object"
    else if eq_ℤ e (pos 3)
    then bytes "invalid waf argument"
    else if eq_ℤ e (pos 5)
    then bytes "out of memory"
    else if eq_ℤ e (pos 6)
    then bytes "empty rule addresses"
    else bytes "unknown waf error " ++ show_int e

-- Error, of the errors of the package, those of a run and that of `goRunError`.
abbrev pub message : Error → Text
message max_depth_exceeded = bytes "max depth exceeded"
message unsupported_value = bytes "unsupported Go value"
message invalid_map_key = bytes "invalid WAF object map key"
message nil_object_ptr = bytes "nil WAF object pointer"
message invalid_object_type = bytes "invalid type encountered when decoding"
message too_many_indirections = bytes "too many indirections"
message internal = run_error (pos 1)
message invalid_object = run_error (pos 2)
message invalid_argument = run_error (pos 3)
message timeout = run_error (pos 4)
message out_of_memory = run_error (pos 5)
message empty_rule_addresses = run_error (pos 6)
message (unknown_return_code rc) = bytes "unknown waf return code " ++ show_int rc

-- PanicError, with an error `E` of any kind; `verbose` is its %#+v.
pub record PanicError (E : Type 0) : Type 0 where
  pub err : E
  pub in_func : Text

module _ {E : Type 0} where
  abbrev pub unwrap : PanicError E → E
  unwrap e = e.err

  abbrev pub panic_message : (E → Text) → PanicError E → Text
  panic_message verbose e =
      bytes "panic while executing " ++ (e.in_func ++ (bytes ": " ++ verbose e.err))

-- The errors of an unsupported platform.
pub data SupportError : Type 0 where
  unsupported_os_arch : Text → Text → SupportError
  unsupported_go_version cgo_disabled manually_disabled : SupportError

-- `version` is runtime.Version.
abbrev pub support_message : Text → SupportError → Text
support_message version (unsupported_os_arch os arch) =
    bytes "unsupported OS/Arch: " ++ (os ++ (bytes "/" ++ arch))
support_message version unsupported_go_version = bytes "unsupported Go version: " ++ version
support_message version cgo_disabled =
    bytes
      "go-libddwaf is disabled when cgo is disabled unless you compile with the go build tag `appsec`. It will require libdl.so.2. libpthread.so.0 and libc.so.6 shared libraries at run time on linux"
support_message version manually_disabled =
    bytes "the WAF has been manually disabled using the `datadog.no_waf` go build tag"

unknown_code : message (unknown_return_code (negsuc 11)) ≡ bytes "unknown waf return code -12"
unfolding decimal
unknown_code = refl

timed_out : message timeout ≡ bytes "waf timeout"
timed_out = refl
