-- ===== src/Log.antt =====
-- internal/log/log.go: the levels of libddwaf's log and their names.
pub mod Names
pub mod Messages
pub mod Startup
mod Tests
use go_libddwaf.Base.{
  ℕ, ◌+◌, Bool, ◌&&◌, ◌||◌, List, [], ◌∷◌, Text, bytes, text_eq, leb, if◌then◌else◌,
}
use go_libddwaf.Base.Int.{ℤ, pos, eq_ℤ}

abbrev pub level_trace : ℤ
level_trace = pos 0

abbrev pub level_debug : ℤ
level_debug = pos 1

abbrev pub level_info : ℤ
level_info = pos 2

abbrev pub level_warning : ℤ
level_warning = pos 3

abbrev pub level_error : ℤ
level_error = pos 4

abbrev pub level_off : ℤ
level_off = pos 5

-- The `switch` on the lower-case name.
unfoldable pub level_of : Text → ℤ
level_of s =
    if text_eq s (bytes "trace")
    then level_trace
    else if text_eq s (bytes "debug")
    then level_debug
    else if text_eq s (bytes "info")
    then level_info
    else if text_eq s (bytes "warn") || text_eq s (bytes "warning")
    then level_warning
    else if text_eq s (bytes "error")
    then level_error
    else level_off

-- `to_lower` is strings.ToLower.
unfoldable pub level_named : (Text → Text) → Text → ℤ
unfolding level_of
level_named to_lower name = level_of (to_lower name)

-- `hex` is `fmt.Sprintf("0x%X", uintptr(l))`.
unfoldable pub level_string : (ℤ → Text) → ℤ → Text
level_string hex l =
    if eq_ℤ l level_trace
    then bytes "TRACE"
    else if eq_ℤ l level_debug
    then bytes "DEBUG"
    else if eq_ℤ l level_info
    then bytes "INFO"
    else if eq_ℤ l level_warning
    then bytes "WARN"
    else if eq_ℤ l level_error
    then bytes "ERROR"
    else if eq_ℤ l level_off
    then bytes "OFF"
    else hex l
