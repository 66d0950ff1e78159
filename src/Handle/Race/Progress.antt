-- ===== src/Handle/Race/Progress.antt =====
-- handle.go under concurrency: a client that is left alone gets through.
use go_libddwaf.Base.{
  ℕ, zero, suc, ◌≡◌, refl, ap, ◌∙◌, Bool, true, false, some, arith, get_elem?, get_elem?-set_self,
  get_elem?_lt, set, replicate, if◌then◌else◌,
}
use go_libddwaf.Base.Int.{ℤ, pos, negsuc, leb_ℤ, eq_ℤ, ltb_ℤ, wrap32, ◌+ℤ◌}
use go_libddwaf.Handle.{
  Attempt, looping, loaded, returned, turn, after_swap, compare_and_swap, is_positive, is_zero,
}
use go_libddwaf.Handle.Race.{
  Client, fresh, refused, holding, destroying, clearing, gone, retaining, releasing, Shared, move,
  System, step, run,
}

-- Gone, or refused by `retain`.
abbrev pub is_through : Client → Bool
is_through gone = true
is_through refused = true
is_through p = false

-- `n` actions of one client, and no other.
unfoldable pub alone : ℕ → Shared → Client → Client
unfolding move
alone zero s p = p
alone (suc n) s p = let (s', p') = move s p in alone n s' p'

abbrev Ends : ℕ → Shared → Client → Type 0
Ends n s p = is_through (alone n s p) ≡ true

gone-Ends : (n : ℕ) (s : Shared) → Ends n s gone
unfolding alone
gone-Ends zero s = refl
gone-Ends (suc n) s = gone-Ends n s

refused-Ends : (n : ℕ) (s : Shared) → Ends n s refused
unfolding alone
refused-Ends zero s = refl
refused-Ends (suc n) s = refused-Ends n s

if-Ends :
    (n : ℕ) (s : Shared) (b : Bool) (p q : Client)
    → Ends n s p
    → Ends n s q
    → Ends n s (if b then p else q)
if-Ends n s true p q h k = h
if-Ends n s false p q h k = k

clearing-Ends : (n : ℕ) (s : Shared) → Ends (suc n) s clearing
unfolding alone
clearing-Ends n s = gone-Ends n _

destroying-Ends : (n : ℕ) (s : Shared) → Ends (suc (suc n)) s destroying
unfolding alone
destroying-Ends n s = gone-Ends n _

released-Ends : (n : ℕ) (s : Shared) (r : ℤ) → Ends (suc (suc (suc n))) s (releasing (returned r))
unfolding alone
released-Ends n s r =
    if-Ends (suc (suc n)) s (is_zero (returned r)) destroying gone (destroying-Ends n s)
      (gone-Ends (suc (suc n)) s)

eq_ℤ_refl : (z : ℤ) → eq_ℤ z z ≡ true
eq_ℤ_refl z = ground arith

-- What follows a swap that succeeded, one that may have failed, and a load.
swapped-Ends :
    (n : ℕ) (s : Shared) (w : Attempt → Client) (b : Bool)
    → ((r : ℤ) → Ends n s (w (returned r)))
    → (next : ℤ) → Ends n s (w (if b then returned (pos 0) else returned next))
swapped-Ends n s w true h next = h (pos 0)
swapped-Ends n s w false h next = h next

after_swap-Ends :
    (n : ℕ) (s : Shared) (w : Attempt → Client) (b : Bool) (next : ℤ)
    → ((r : ℤ) → Ends n s (w (returned r)))
    → Ends n s (w looping)
    → Ends n s (w (after_swap next b))
after_swap-Ends n s w true next h k = swapped-Ends n s w (ltb_ℤ next (pos 0)) h next
after_swap-Ends n s w false next h k = k

after_load-Ends :
    (n : ℕ) (s : Shared) (w : Attempt → Client) (b : Bool) (c : ℤ)
    → ((r : ℤ) → Ends n s (w (returned r)))
    → Ends n s (w (loaded c))
    → Ends n s (w (if b then returned (negsuc 0) else loaded c))
after_load-Ends n s w true c h k = h (negsuc 0)
after_load-Ends n s w false c h k = k

-- The state after a swap.
abbrev swapped : ℤ → ℤ → Shared → Shared
swapped x c s =
    let (b, d) = compare_and_swap s.handle.ref_counter c (wrap32 (c +ℤ x)) in
    record s { handle = record s.handle { ref_counter = d } }

abbrev next_of : ℤ → ℤ → ℤ
next_of x c = wrap32 (c +ℤ x)

-- `releasing`: a swap of the value that the counter has succeeds.
release_loaded-Ends :
    (n : ℕ) (s : Shared) (c : ℤ)
    → eq_ℤ s.handle.ref_counter c ≡ true
    → Ends (suc (suc (suc (suc n)))) s (releasing (loaded c))
unfolding alone turn
release_loaded-Ends n s c e = rw e (
    swapped-Ends (suc (suc (suc n)))
      (record s { handle = record s.handle { ref_counter = next_of (negsuc 0) c } }) releasing
      (ltb_ℤ (next_of (negsuc 0) c) (pos 0)) (released-Ends n _) (next_of (negsuc 0) c))

release_looping-Ends :
    (n : ℕ) (s : Shared) → Ends (suc (suc (suc (suc (suc n))))) s (releasing looping)
unfolding alone turn
release_looping-Ends n s =
    let c = s.handle.ref_counter in
    after_load-Ends (suc (suc (suc (suc n)))) s releasing (leb_ℤ c (pos 0)) c
      (released-Ends (suc n) s) (release_loaded-Ends n s c (eq_ℤ_refl c))

release_stale-Ends :
    (n : ℕ) (s : Shared) (c : ℤ)
    → Ends (suc (suc (suc (suc (suc (suc n)))))) s (releasing (loaded c))
unfolding alone turn
release_stale-Ends n s c =
    after_swap-Ends (suc (suc (suc (suc (suc n))))) (swapped (negsuc 0) c s) releasing
      (compare_and_swap s.handle.ref_counter c (next_of (negsuc 0) c)).0 (next_of (negsuc 0) c)
      (released-Ends (suc (suc n)) (swapped (negsuc 0) c s))
      (release_looping-Ends n (swapped (negsuc 0) c s))

holding-Ends : (n : ℕ) (s : Shared) → Ends (suc (suc (suc (suc (suc (suc n)))))) s holding
unfolding alone
holding-Ends n s = release_looping-Ends n s

retained-Ends :
    (n : ℕ) (s : Shared) (r : ℤ)
    → Ends (suc (suc (suc (suc (suc (suc (suc n))))))) s (retaining (returned r))
unfolding alone
retained-Ends n s r =
    if-Ends (suc (suc (suc (suc (suc (suc n)))))) s (is_positive (returned r)) holding refused
      (holding-Ends n s) (refused-Ends (suc (suc (suc (suc (suc (suc n)))))) s)

-- `retaining`, in the same way.
retain_loaded-Ends :
    (n : ℕ) (s : Shared) (c : ℤ)
    → eq_ℤ s.handle.ref_counter c ≡ true
    → Ends (suc (suc (suc (suc (suc (suc (suc (suc n)))))))) s (retaining (loaded c))
unfolding alone turn
retain_loaded-Ends n s c e = rw e (
    swapped-Ends (suc (suc (suc (suc (suc (suc (suc n)))))))
      (record s { handle = record s.handle { ref_counter = next_of (pos 1) c } }) retaining
      (ltb_ℤ (next_of (pos 1) c) (pos 0)) (retained-Ends n _) (next_of (pos 1) c))

retain_looping-Ends :
    (n : ℕ) (s : Shared)
    → Ends (suc (suc (suc (suc (suc (suc (suc (suc (suc n))))))))) s (retaining looping)
unfolding alone turn
retain_looping-Ends n s =
    let c = s.handle.ref_counter in
    after_load-Ends (suc (suc (suc (suc (suc (suc (suc (suc n)))))))) s retaining (leb_ℤ c (pos 0))
      c (retained-Ends (suc n) s) (retain_loaded-Ends n s c (eq_ℤ_refl c))

retain_stale-Ends :
    (n : ℕ) (s : Shared) (c : ℤ)
    → Ends (suc (suc (suc (suc (suc (suc (suc (suc (suc (suc n)))))))))) s (retaining (loaded c))
unfolding alone turn
retain_stale-Ends n s c =
    after_swap-Ends (suc (suc (suc (suc (suc (suc (suc (suc (suc n))))))))) (swapped (pos 1) c s)
      retaining (compare_and_swap s.handle.ref_counter c (next_of (pos 1) c)).0 (next_of (pos 1) c)
      (retained-Ends (suc (suc n)) (swapped (pos 1) c s))
      (retain_looping-Ends n (swapped (pos 1) c s))

fresh-Ends :
    (n : ℕ) (s : Shared)
    → Ends (suc (suc (suc (suc (suc (suc (suc (suc (suc (suc n)))))))))) s fresh
unfolding alone
fresh-Ends n s = retain_looping-Ends n s

alone-Ends : (s : Shared) (p : Client) → Ends 10 s p
alone-Ends s fresh = fresh-Ends 0 s
alone-Ends s refused = refused-Ends 10 s
alone-Ends s holding = holding-Ends 4 s
alone-Ends s destroying = destroying-Ends 8 s
alone-Ends s clearing = clearing-Ends 9 s
alone-Ends s gone = gone-Ends 10 s
alone-Ends s (retaining looping) = retain_looping-Ends 1 s
alone-Ends s (retaining (loaded c)) = retain_stale-Ends 0 s c
alone-Ends s (retaining (returned r)) = retained-Ends 3 s r
alone-Ends s (releasing looping) = release_looping-Ends 5 s
alone-Ends s (releasing (loaded c)) = release_stale-Ends 4 s c
alone-Ends s (releasing (returned r)) = released-Ends 7 s r

pub step-move :
    (s : System) (i : ℕ) (p : Client)
    → get_elem? s.clients i ≡ some p
    → step s i
      ≡ record { shared = (move s.shared p).0; clients = set s.clients i (move s.shared p).1 }
unfolding step
step-move s i p h = rw (h, step) refl

-- In the system, the client at `i` moves as if it were alone if it is picked `n` times.
run-alone :
    (n : ℕ) (s : System) (i : ℕ) (p : Client)
    → get_elem? s.clients i ≡ some p
    → get_elem? (run s (replicate n i)).clients i ≡ some (alone n s.shared p)
unfolding run alone
run-alone zero s i p h = h
run-alone (suc n) s i p h =
    let p' = (move s.shared p).1 in
    ap (λ x. get_elem? (run x (replicate n i)).clients i) (step-move s i p h)
    ∙ run-alone n (record { shared = (move s.shared p).0; clients = set s.clients i p' }) i p'
        (get_elem?-set_self s.clients i p' (get_elem?_lt s.clients i p h))

-- From every state of the system, whatever the other clients were interrupted at, a client that is picked
-- ten times in a row is gone or was refused: no lock and no endless loop holds it up.
pub run-is_through :
    (s : System) (i : ℕ) (p : Client)
    → get_elem? s.clients i ≡ some p
    → (q : Client) × (get_elem? (run s (replicate 10 i)).clients i ≡ some q) × (is_through q ≡ true)
run-is_through s i p h = (alone 10 s.shared p, run-alone 10 s i p h, alone-Ends s.shared p)
