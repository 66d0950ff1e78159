-- ===== src/Timer/Clock.antt =====
-- timer/clock.go: the cache of the clock's readings. A reading of the monotonic clock is a number of
-- nanoseconds.
use go_libddwaf.Base.{ℕ, ◌+◌, ◌-◌, ◌^◌, ◌≤◌, ◌<◌, ◌≡◌, refl, ap, List, [], ◌∷◌, arith, min}

-- `clock` is its `lastRequest`; each operation is given the reading of the monotonic clock.
abbrev pub new_time_cache : ℕ → ℕ
new_time_cache reading = reading

-- now: the result is the new `lastRequest`; time.Since stops at the largest duration.
unfoldable pub now : ℕ → ℕ → ℕ
now last_request reading = last_request + min (reading - last_request) (2 ^ 63 - 1)

-- The results of `now` at these readings, one after the other.
abbrev pub nows : ℕ → List ℕ → List ℕ
nows last [] = []
nows last (reading ∷ readings) = now last reading ∷ nows (now last reading) readings

-- The readings do not go back, and lie within 2^63 - 1 ns of one another.
abbrev pub Forward : ℕ → List ℕ → Type 0
Forward last [] = Unit {0}
Forward last (reading ∷ readings) =
    (last ≤ reading) × (reading < last + 2 ^ 63) × Forward reading readings

now_lem : (last reading : ℕ) → last ≤ reading → reading < last + 2 ^ 63 → now last reading ≡ reading
unfolding now
now_lem last reading h b = omega arith

-- On a clock that does not go back, and is read at least every 2^63 - 1 ns, the cached clock returns the
-- readings themselves.
pub nows_lem :
    (first : ℕ) (readings : List ℕ)
    → Forward (new_time_cache first) readings
    → nows (new_time_cache first) readings ≡ readings
nows_lem first [] h = refl
nows_lem first (reading ∷ readings) (a, b, h) =
    rw (now_lem first reading a b) (ap (◌∷◌ reading) (nows_lem reading readings h))
