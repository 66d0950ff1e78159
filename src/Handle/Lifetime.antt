-- ===== src/Handle/Lifetime.antt =====
-- handle.go, one caller at a time: the handle against the count of its owners.
use go_libddwaf.Base.{
  ℕ, zero, suc, ◌+◌, ◌-◌, ◌^◌, ◌≤◌, ◌<◌, ◌≡◌, refl, false, List, [], ◌∷◌, ◌++◌, arith,
  if◌then◌else◌, length, ◌==◌, ◌∙◌,
}
use go_libddwaf.Base.Int.{ℤ, pos, negsuc, ◌+ℤ◌, leb_ℤ, ltb_ℤ, wrap32}
use mathlib.Core.Path.{ap₂}
use go_libddwaf.Diagnostics.{Diagnostics}
use go_libddwaf.Handle.{Handle, new_handle, returned, add_ref_counter, retain, release}

-- What a client can ask of a handle.
pub data Call : Type 0 where
  retains releases : Call

-- The specification: a number of owners, 0 once the handle is gone.
abbrev pub owners_after : ℕ → Call → ℕ
owners_after zero c = 0
owners_after (suc n) retains = suc (suc n)
owners_after (suc n) releases = n

-- The handle destroys `c` exactly when the last owner leaves.
abbrev pub destroyed_by : ℕ → ℕ → Call → List ℕ
destroyed_by c (suc zero) releases = c ∷ []
destroyed_by c n _ = []

abbrev pub call : Handle → Call → Handle × List ℕ
call h retains = ((retain h).1, [])
call h releases = release h

-- The handle of `c` with `n` owners.
pub record HasOwners (c n : ℕ) (h : Handle) : Type 0 where
  pub counted : h.ref_counter ≡ pos n
  pub live : h.c_handle ≡ (if n == 0 then 0 else c)

-- What a call that nothing interrupts returns and leaves in the counter.
abbrev pub result : ℤ → ℤ → ℤ
result x counter =
    if leb_ℤ counter (pos 0)
    then negsuc 0
    else if ltb_ℤ (wrap32 (counter +ℤ x)) (pos 0)
    then pos 0
    else wrap32 (counter +ℤ x)

abbrev pub counter_after : ℤ → ℤ → ℤ
counter_after x counter = if leb_ℤ counter (pos 0) then counter else wrap32 (counter +ℤ x)

-- A call of `addRefCounter` that nothing interrupts ends in its first round: on a counter that is not
-- positive it returns -1 and writes nothing, else it adds and returns the sum, clamped at 0.
pub add_ref_counter_returns :
    (h : Handle) (x : ℤ)
    → add_ref_counter h x ≡ (
      returned (result x h.ref_counter),
      record h { ref_counter = counter_after x h.ref_counter },
    )
unfolding add_ref_counter
add_ref_counter_returns h x = ground arith

-- One call keeps the count of owners, and destroys when it takes the last of them.
pub call-HasOwners :
    (c n : ℕ) (h : Handle) (k : Call)
    → n + 1 < 2 ^ 31
    → HasOwners c n h
    → HasOwners c (owners_after n k) (call h k).0 × ((call h k).1 ≡ destroyed_by c n k)
unfolding retain release
call-HasOwners c zero h retains b v = ground arith
call-HasOwners c zero h releases b v = ground arith
call-HasOwners c (suc zero) h retains b v = ground arith
call-HasOwners c (suc zero) h releases b v = ground arith
call-HasOwners c (suc (suc n)) h retains b v = ground arith
call-HasOwners c (suc (suc n)) h releases b v = ground arith

-- A sequence of calls, and what it destroys, in order.
abbrev pub calls : Handle → List Call → Handle × List ℕ
calls h [] = (h, [])
calls h (k ∷ ks) = let (h', d) = call h k in let (h'', d') = calls h' ks in (h'', d ++ d')

abbrev pub owners_of : ℕ → List Call → ℕ
owners_of n [] = n
owners_of n (k ∷ ks) = owners_of (owners_after n k) ks

abbrev pub destroyed_of : ℕ → ℕ → List Call → List ℕ
destroyed_of c n [] = []
destroyed_of c n (k ∷ ks) = destroyed_by c n k ++ destroyed_of c (owners_after n k) ks

owners_after-le : (n : ℕ) (k : Call) → owners_after n k ≤ n + 1
owners_after-le zero k = omega arith
owners_after-le (suc n) retains = omega arith
owners_after-le (suc n) releases = omega arith

-- A handle with `n` owners follows the count of its owners along every sequence of calls of `retain`
-- and `release`, if the owners and the calls are fewer than 2^31 together: same counter, same
-- destructions.
pub calls-HasOwners :
    (c n : ℕ) (h : Handle) (ks : List Call)
    → n + length ks < 2 ^ 31
    → HasOwners c n h
    → HasOwners c (owners_of n ks) (calls h ks).0 × ((calls h ks).1 ≡ destroyed_of c n ks)
calls-HasOwners c n h [] b v = (v, refl)
calls-HasOwners c n h (k ∷ ks) b v =
    let (v', d) = call-HasOwners c n h k (omega arith) v in
    let (v'', d') =
      calls-HasOwners c (owners_after n k) (call h k).0 ks (omega (arith, owners_after-le n k))
        v' in
    (v'', ap₂ ◌++◌ d d')

destroyed-dead : (c : ℕ) (ks : List Call) → destroyed_of c 0 ks ≡ []
destroyed-dead c [] = refl
destroyed-dead c (k ∷ ks) = destroyed-dead c ks

owners-dead : (ks : List Call) → owners_of 0 ks ≡ 0
owners-dead [] = refl
owners-dead (k ∷ ks) = owners-dead ks

-- The specification destroys once if it ends without owners, and else not at all.
destroyed-owners :
    (c n : ℕ) (ks : List Call)
    → destroyed_of c (suc n) ks ≡ (if owners_of (suc n) ks == 0 then c ∷ [] else [])
destroyed-owners c n [] = ground arith
destroyed-owners c zero (retains ∷ ks) = destroyed-owners c 1 ks
destroyed-owners c (suc n) (retains ∷ ks) = destroyed-owners c (suc (suc n)) ks
destroyed-owners c zero (releases ∷ ks) = rw (destroyed-dead c ks, owners-dead ks)
destroyed-owners c (suc n) (releases ∷ ks) = destroyed-owners c n ks

-- From a new handle, any sequence of fewer than 2^31 - 1 calls of `retain` and `release` calls
-- `WafDestroy` on the handle's instance exactly once if it leaves no owner, and else never; the
-- counter is the number of owners left.
pub lifetime :
    (d : Diagnostics) (c : ℕ) (ks : List Call)
    → length ks + 1 < 2 ^ 31
    → ((calls (new_handle d c) ks).0.ref_counter ≡ pos (owners_of 1 ks))
      × ((calls (new_handle d c) ks).1 ≡ (if owners_of 1 ks == 0 then c ∷ [] else []))
lifetime d c ks b =
    let (v, e) =
      calls-HasOwners c 1 (new_handle d c) ks (omega arith)
        (record { counted = refl; live = refl }) in
    (v.counted, e ∙ destroyed-owners c 0 ks)

call_negative :
    (m : ℕ) (h : Handle) (k : Call)
    → h.ref_counter ≡ negsuc m
    → ((call h k).0.ref_counter ≡ negsuc m) × ((call h k).1 ≡ [])
unfolding retain release
call_negative m h retains e = ground arith
call_negative m h releases e = ground arith

calls_negative :
    (m : ℕ) (h : Handle) (ks : List Call) → h.ref_counter ≡ negsuc m → (calls h ks).1 ≡ []
calls_negative m h [] e = refl
calls_negative m h (k ∷ ks) e =
    let (e', d) = call_negative m h k e in ap₂ ◌++◌ d (calls_negative m (call h k).0 ks e')

-- At the top of int32 `retain` wraps the counter: it returns false, and from then on no sequence of
-- calls of `retain` and `release` calls `WafDestroy`.
pub retain_overflow :
    (h : Handle) (ks : List Call)
    → h.ref_counter ≡ pos (2 ^ 31 - 1)
    → ((retain h).0 ≡ false) × ((calls (retain h).1 ks).1 ≡ [])
unfolding retain
retain_overflow h ks full =
    (ground arith, calls_negative (2 ^ 31 - 1) (retain h).1 ks (ground arith))
