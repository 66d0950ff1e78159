-- ===== src/Handle/Creation/Laws.antt =====
-- handle.go: what `NewHandle` makes, and what it leaves of libddwaf's instances.
use go_libddwaf.Base.{
  ℕ, ◌≡◌, ◌≢◌, refl, sym, subst, Bool, true, false, Option, none, some, List, [], ◌∷◌, ◌++◌, arith,
  Text, inl, inr, ◌==◌, if◌then◌else◌, total, Bool-cases,
}
use go_libddwaf.Base.Int.{pos}
use go_libddwaf.Errors.{Error}
use go_libddwaf.WafObject.{WafObject}
use go_libddwaf.Memory.{Memory}
use go_libddwaf.Encoder.{State}
use go_libddwaf.Encoder.Depth.{encode_value}
use go_libddwaf.GoValue.{GoValue}
use go_libddwaf.Diagnostics.{Diagnostics}
use go_libddwaf.Decoder.{ok, err, fault, unfinished}
use go_libddwaf.Bindings.{LoadError}
use go_libddwaf.Handle.Creation.{
  World, LibraryCall, initialised, destroyed, info_freed, Made, Read, read_info, init_done,
  after_info, failed_init, instance_of, after_init, with_rules, create_handle, max_encoder,
  initial_state, new_config,
}

abbrev pub count : Bool → ℕ
count b = if b then 1 else 0

abbrev pub initialised_as : ℕ → LibraryCall → ℕ
initialised_as c (initialised k) = count (c == k)
initialised_as c e = 0

abbrev pub destroyed_as : ℕ → LibraryCall → ℕ
destroyed_as c (destroyed k) = count (c == k)
destroyed_as c e = 0

-- A handle comes with its instance, made once and alive, and one reference; with an error, every
-- instance that was made is destroyed.
abbrev pub Owned : Made → Type 0
Owned (ok (inr h), calls) =
    (h.ref_counter ≡ pos 1)
    × (h.c_handle ≢ 0)
    × ((c : ℕ)
        → (total (initialised_as c) calls ≡ count (c == h.c_handle))
          × (total (destroyed_as c) calls ≡ 0))
Owned (ok (inl e), calls) = (c : ℕ) → total (initialised_as c) calls ≡ total (destroyed_as c) calls
Owned (result, calls) = Unit

zero_test : (c : ℕ) → c ≢ 0 → (c == 0) ≡ false
zero_test c n = ground arith

-- `init_done` and `after_info` with the calls around them.
abbrev around : ℕ → Made → Made
around c (made, calls) = (made, instance_of c ++ (calls ++ info_freed ∷ []))

nonzero : (c : ℕ) → (c == 0) ≡ false → c ≢ 0
nonzero c b e = ground arith

init_done-Owned :
    (c : ℕ) (r : Option Diagnostics × Option Error)
    → (c == 0) ≡ false
    → Owned (around c (init_done c r))
unfolding total
init_done-Owned c (diags, some e) b = rw b (λ k. omega arith)
init_done-Owned c (some d, none) b = rw b (refl, nonzero c b, λ k. (omega arith, refl))
init_done-Owned c (none, none) b = tt

after_info-Owned : (c : ℕ) (r : Read) → Owned (around c (after_info c r))
unfolding after_info total
after_info-Owned c (ok r) = elim (Bool-cases (c == 0)) [
  | inl b ↦ rw b (λ k. refl)
  | inr b ↦
      subst (λ x. Owned (around c (if x then (ok (inl (failed_init r)), []) else init_done c r)))
        (sym b) (init_done-Owned c r b)
]
after_info-Owned c (err e) = tt
after_info-Owned c fault = tt
after_info-Owned c unfinished = tt

with_rules-Owned :
    (w : World) (key val : Text) (e : Option Error) (o : WafObject) (s : Option State)
    → Owned (with_rules w key val e o s)
unfolding after_init total
with_rules-Owned w key val (some e) o s = λ c. refl
with_rules-Owned w key val none o none = tt
with_rules-Owned w key val none o (some s) =
    let (config, st) = new_config key val s.store in
    let a = w.waf_init o config st.memory in after_info-Owned a.c_handle (read_info a)

-- Whatever libddwaf answers, if `NewHandle` returns a handle, then it holds an instance that was made
-- once and is not destroyed, with one reference; if it returns an error, then every instance that was
-- made is destroyed.
pub create_handle-Owned :
    (w : World) (m : Memory) (loaded : Bool × List LoadError) (rules : GoValue) (key val : Text)
    → Owned (create_handle w m loaded rules key val)
unfolding create_handle total
create_handle-Owned w m (false, errors) rules key val = λ c. refl
create_handle-Owned w m (true, errors) rules key val =
    let r = encode_value (max_encoder w) w.done w.depth_fuel rules (initial_state m) in
    with_rules-Owned w key val r.0 r.1 r.2
