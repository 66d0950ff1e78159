-- ===== src/Log/Messages.antt =====
-- internal/log/log.go and internal/log/log_purego.go: what libddwaf's log callback prints.
use go_libddwaf.Base.{
  ℕ, ◌<◌, ◌≡◌, refl, Bool, false, Option, none, some, List, [], ◌∷◌, ◌++◌, Text, bytes, decimal,
  length, ◌==◌, if◌then◌else◌,
}
use go_libddwaf.Base.Int.{ℤ}
use go_libddwaf.Bindings.Strings.{Bytes, gostring}
use go_libddwaf.Bindings.Strings.Laws.{StringAt, gostring-StringAt}
use go_libddwaf.Log.{level_string}

abbrev pub entry_of : (ℤ → Text) → ℤ → Text → Text → ℕ → Text → Text
entry_of hex level function file line message =
    bytes "["
    ++ (level_string hex level
        ++ (bytes "] libddwaf @ "
            ++ (file
                ++ (bytes ":"
                    ++ (decimal line ++ (bytes " (" ++ (function ++ (bytes "): " ++ message))))))))

abbrev pub unless_filtered : Option (Text → Bool) → Text → List Text
unless_filtered none entry = entry ∷ []
unless_filtered (some matches) entry = if matches entry then entry ∷ [] else []

-- logMessage: what is printed. `filter` is the compiled regular expression, `none` for nil.
unfoldable pub log_message :
    Option (Text → Bool) → (ℤ → Text) → ℤ → Text → Text → ℕ → Text → List Text
log_message filter hex level function file line message =
    unless_filtered filter (entry_of hex level function file line message)

module _ (m : Bytes) (fuel : ℕ) (filter : Option (Text → Bool)) (hex : ℤ → Text) where
  abbrev all_three : ℤ → ℕ → Option Text → Option Text → Option Text → Option (List Text)
  all_three level line (some function) (some file) (some message) =
      some (log_message filter hex level function file line message)
  all_three level line function file message = none

  -- ddwafLogCallbackFn, with pointers to C strings.
  unfoldable pub ddwaf_log_callback : ℤ → ℕ → ℕ → ℕ → ℕ → Option (List Text)
  unfolding gostring log_message
  ddwaf_log_callback level fn_ptr file_ptr line msg_ptr =
      all_three level line (gostring m fuel fn_ptr) (gostring m fuel file_ptr)
        (gostring m fuel msg_ptr)

  -- If the three pointers lead to texts that end in a NUL within the fuel, the callback prints one entry with
  -- them, the level and the line, unless the filter does not match it.
  pub callback_lem :
      (level : ℤ) (line fn_ptr file_ptr msg_ptr : ℕ) (function file message : Text)
      → ((fn_ptr == 0) ≡ false) × ((file_ptr == 0) ≡ false) × ((msg_ptr == 0) ≡ false)
      → StringAt m fn_ptr function × StringAt m file_ptr file × StringAt m msg_ptr message
      → (length function < fuel) × (length file < fuel) × (length message < fuel)
      → ddwaf_log_callback level fn_ptr file_ptr line msg_ptr
        ≡ some (log_message filter hex level function file line message)
  unfolding ddwaf_log_callback
  callback_lem level line fn_ptr file_ptr msg_ptr function file message (a, b, c) (f, g, h)
        (x, y, z) =
      rw
        (
          gostring-StringAt m fuel fn_ptr function x a f,
          gostring-StringAt m fuel file_ptr file y b g,
          gostring-StringAt m fuel msg_ptr message z c h,
        )
        refl
