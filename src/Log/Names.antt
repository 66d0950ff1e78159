-- ===== src/Log/Names.antt =====
-- internal/log/log.go: how the names of the levels and the levels correspond.
use go_libddwaf.Base.{
  ℕ, zero, suc, ◌+◌, ◌<◌, ◌≡◌, refl, ap, true, ◌&&◌, [], ◌∷◌, Text, bytes, arith, ltb, leb,
  if◌then◌else◌,
}
use go_libddwaf.Base.Int.{ℤ, pos}
use go_libddwaf.Log.{level_named, level_of, level_string}

-- The lower case of an ASCII letter.
abbrev pub lower : ℕ → ℕ
lower c = if leb b'A' c && leb c b'Z' then c + 32 else c

abbrev pub lower_ascii : Text → Text
lower_ascii [] = []
lower_ascii (c ∷ s) = lower c ∷ lower_ascii s

abbrev pub IsAscii : Text → Type 0
IsAscii [] = Unit {0}
IsAscii (c ∷ s) = (ltb c 128 ≡ true) × IsAscii s

-- Where strings.ToLower folds the letters of ASCII texts, `LevelNamed` reads the name that `String`
-- gives to any of the six levels as that level.
pub level_named-level_string :
    (to_lower : Text → Text) (hex : ℤ → Text) (n : ℕ)
    → ((s : Text) → IsAscii s → to_lower s ≡ lower_ascii s)
    → n < 6
    → level_named to_lower (level_string hex (pos n)) ≡ pos n
unfolding level_named level_string
level_named-level_string f hex zero fold h =
    ap level_of (fold (bytes "TRACE") (refl, (refl, (refl, (refl, (refl, tt))))))
level_named-level_string f hex (suc zero) fold h =
    ap level_of (fold (bytes "DEBUG") (refl, (refl, (refl, (refl, (refl, tt))))))
level_named-level_string f hex (suc (suc zero)) fold h =
    ap level_of (fold (bytes "INFO") (refl, (refl, (refl, (refl, tt)))))
level_named-level_string f hex (suc (suc (suc zero))) fold h =
    ap level_of (fold (bytes "WARN") (refl, (refl, (refl, (refl, tt)))))
level_named-level_string f hex (suc (suc (suc (suc zero)))) fold h =
    ap level_of (fold (bytes "ERROR") (refl, (refl, (refl, (refl, (refl, tt))))))
level_named-level_string f hex (suc (suc (suc (suc (suc zero))))) fold h =
    ap level_of (fold (bytes "OFF") (refl, (refl, (refl, tt))))
level_named-level_string f hex (suc (suc (suc (suc (suc (suc n)))))) fold h = absurd (omega arith)
