-- ===== src/Handle/Queries.antt =====
-- handle.go: what a handle tells of its rules, `Diagnostics` and `Addresses`.
use go_libddwaf.Base.{ℕ, ◌≡◌, refl, Option, some, List, [], Text}
use go_libddwaf.Diagnostics.{Diagnostics}
use go_libddwaf.Handle.{Handle}
use go_libddwaf.Bindings.Strings.{Bytes, waf_known_addresses}

abbrev pub diagnostics : Handle → Diagnostics
diagnostics h = h.diagnostics

-- ddwaf_known_addresses and the memory of C are parameters, see Bindings/Strings.
unfoldable pub addresses : Bytes → ℕ → (ℕ → ℕ × ℕ) → Handle → Option (List Text)
unfolding waf_known_addresses
addresses m fuel known_addresses h = waf_known_addresses m fuel known_addresses h.c_handle

-- libddwaf knows no addresses of the null handle.
cleared_knows_none :
    (m : Bytes) (fuel : ℕ) (known_addresses : ℕ → ℕ × ℕ) (h : Handle)
    → h.c_handle ≡ 0
    → known_addresses 0 ≡ (0, 0)
    → addresses m fuel known_addresses h ≡ some []
unfolding addresses
cleared_knows_none m fuel known_addresses h gone e = rw gone (rw e refl)
