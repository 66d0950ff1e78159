-- ===== src/Log/Tests.antt =====
-- internal/log/log.go: the witness of the theorem on the names of levels.
use go_libddwaf.Base.{◌≡◌, refl, bytes, arith}
use go_libddwaf.Log.{level_named, level_string, level_warning}
use go_libddwaf.Log.Names.{level_named-level_string, lower_ascii}

level_named_again :
    level_named lower_ascii (level_string (λ l. bytes "0x7") level_warning) ≡ level_warning
level_named_again =
    level_named-level_string lower_ascii (λ l. bytes "0x7") 3 (λ s ascii. refl) (omega arith)
