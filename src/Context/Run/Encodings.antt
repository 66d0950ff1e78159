-- ===== src/Context/Run/Encodings.antt =====
-- context.go: what the encodings of a run leave.
use go_libddwaf.Base.{
  ℕ, ◌≡◌, refl, Bool, true, false, Option, none, some, arith, if◌then◌else◌, length, ◌==◌,
}
use go_libddwaf.WafObject.{WafObject, zero_object, waf_max_container_depth}
use go_libddwaf.Memory.{Memory}
use go_libddwaf.Memory.Growth.{Grows, Same-refl}
use go_libddwaf.GoValue.{GoValue, Entries}
use go_libddwaf.Truncation.{object_too_deep, sizes_of}
use go_libddwaf.Encoder.{Setting, State, exhausted}
use go_libddwaf.Encoder.Encode.{encode}
use go_libddwaf.Encoder.Depth.{
  Measured, finish, encode_value, measure_object_depth, record_depth, depth_of,
}
use go_libddwaf.Encoder.Safe.{Retained, Safe, Safe-Same}
use go_libddwaf.Encoder.Safe.Values.{encode-Safe, encode-Retained}
use go_libddwaf.RefPool.{RefPool}
use go_libddwaf.Timer.{BaseTimer}
use go_libddwaf.Decoder.{Decoded, ok, err, fault, unfinished, ◌>>=◌}
use go_libddwaf.Context.Run.{
  Context, World, Encoding, encoder_of, encoder_state, encoded, encode_one_address_type,
}
use go_libddwaf.Context.Run.Objects.{counter_of, limits, SafeObject, KeptObject, Safe-limits}

-- Every value that a `Decoded` returns.
abbrev pub Yields : {A : Type 0} → (A → Type 0) → Decoded A → Type 0
Yields p (ok a) = p a
Yields p (err e) = Unit
Yields p fault = Unit
Yields p unfinished = Unit

pub bind-Yields :
    {A B : Type 0} (p : A → Type 0) (q : B → Type 0) (x : Decoded A) (f : A → Decoded B)
    → Yields p x
    → ((a : A) → p a → Yields q (f a))
    → Yields q (x >>= f)
bind-Yields p q (ok a) f h k = k a h
bind-Yields p q (err e) f h k = tt
bind-Yields p q fault f h k = tt
bind-Yields p q unfinished f h k = tt

-- The same where nothing is known of the value.
pub any-Yields :
    {A B : Type 0} (q : B → Type 0) (x : Decoded A) (f : A → Decoded B)
    → ((a : A) → Yields q (f a))
    → Yields q (x >>= f)
any-Yields q (ok a) f k = k a
any-Yields q (err e) f k = tt
any-Yields q fault f k = tt
any-Yields q unfinished f k = tt

pub if-Yields :
    {A : Type 0} (p : A → Type 0) (b : Bool) (x y : Decoded A)
    → Yields p x
    → Yields p y
    → Yields p (if b then x else y)
if-Yields p true x y h k = h
if-Yields p false x y h k = k

-- After `encode`, `Encode` changes the truncations and asks the timer, no more.
abbrev SameStore : State → Option State → Type 0
SameStore s none = Unit
SameStore s (some s') = s'.store ≡ s.store

record_depth-SameStore :
    (r : Option Measured) (s t : State) → t.store ≡ s.store → SameStore s (record_depth r t)
record_depth-SameStore none s t e = tt
record_depth-SameStore (some r) s t e = e

if-SameStore :
    (a b : Bool) (s : State) (x y z : Option State)
    → SameStore s x
    → SameStore s y
    → SameStore s z
    → SameStore s (if a then x else if b then y else z)
if-SameStore true b s x y z h k l = h
if-SameStore false true s x y z h k l = k
if-SameStore false false s x y z h k l = l

finish-SameStore :
    (g : Setting) (done : ℕ → Bool) (fuel : ℕ) (v : GoValue) (s : State)
    → SameStore s (finish g done fuel v s)
unfolding measure_object_depth
finish-SameStore g done fuel v s =
    let t = (exhausted g s).1 in
    if-SameStore (length (sizes_of object_too_deep s.truncations) == 0) (exhausted g s).0 s (some s)
      (some t) (measure_object_depth g done fuel v t) refl refl
      (record_depth-SameStore (depth_of g.heap done fuel v 0) s t refl)

-- What `Encode` makes can be read in the memory that it leaves, and its blocks are in the pool.
abbrev EncodedSafe : Setting → Memory → WafObject → Option State → Type 0
EncodedSafe g m o none = Unit
EncodedSafe g m o (some s) =
    Grows m s.store.memory
    × Safe g g.object_max_depth (length m) s.store.memory o
    × Retained (length m) s.store

kept-Safe :
    (g : Setting) (m : Memory) (o : WafObject) (s : State) (r : Option State)
    → SameStore s r
    → Grows m s.store.memory
    → Safe g g.object_max_depth (length m) s.store.memory o
    → Retained (length m) s.store
    → EncodedSafe g m o r
kept-Safe g m o s none e grows h r = tt
kept-Safe g m o s (some s') e grows h r = rw e (grows, h, r)

encode_value-Safe :
    (g : Setting) (done : ℕ → Bool) (fuel : ℕ) (v : GoValue) (s : State)
    → let r = encode_value g done fuel v s in EncodedSafe g s.store.memory r.1 r.2
unfolding encode_value
encode_value-Safe g done fuel v s =
    let r = encode g g.object_max_depth v zero_object s in
    let (safe, grows) = encode-Safe g g.object_max_depth v s in
    kept-Safe g s.store.memory r.1 r.2 _ (finish-SameStore g done fuel v r.2) grows safe
      (encode-Retained g g.object_max_depth v zero_object s)

-- What an encoding leaves: the counter, older memory, and an object that can be read and is kept.
abbrev pub EncodingOk : Context → Encoding → Type 0
EncodingOk ctx e =
    (counter_of e.context ≡ counter_of ctx)
    × (e.context.cgo_refs ≡ ctx.cgo_refs)
    × Grows ctx.memory e.context.memory
    × SafeObject e.context.memory e.object
    × KeptObject (length ctx.memory) e.refs e.context.memory e.object

module _ (w : World) (t : BaseTimer) where
  if-SafeObject :
      (b : Bool) (m : Memory) (o : WafObject)
      → SafeObject m (some o)
      → SafeObject m (if b then none else some o)
  if-SafeObject true m o h = tt
  if-SafeObject false m o h = h

  if-KeptObject :
      (b : Bool) (lo : ℕ) (pool : RefPool) (m : Memory) (o : WafObject)
      → KeptObject lo pool m (some o)
      → KeptObject lo pool m (if b then none else some o)
  if-KeptObject true lo pool m o h = tt
  if-KeptObject false lo pool m o h = h

  encoded-EncodingOk :
      (ctx : Context) (o : WafObject) (r : Option State)
      → EncodedSafe (encoder_of w t) ctx.memory o r
      → Yields (EncodingOk ctx) (encoded (encoder_of w t) ctx o r)
  encoded-EncodingOk ctx o none h = tt
  encoded-EncodingOk ctx o (some s) (g, h, r) =
      let m = s.store.memory in
      let safe = Safe-limits w t waf_max_container_depth (length ctx.memory) m o h in
      let low =
        Safe-Same limits (omega arith) (Same-refl (length ctx.memory) m) waf_max_container_depth o
          safe in
      let stop = (exhausted (encoder_of w t) s).0 in
      (
        refl,
        refl,
        g,
        if-SafeObject stop m o low,
        if-KeptObject stop (length ctx.memory) s.store.refs m o (m, safe, Same-refl 0 m, r),
      )

  pub encode_one-EncodingOk :
      (ctx : Context) (d : Option Entries) (polls : ℕ)
      → Yields (EncodingOk ctx) (encode_one_address_type w t ctx d polls)
  unfolding encode_one_address_type
  encode_one-EncodingOk ctx none polls = (refl, refl, Same-refl 0 _, tt, tt)
  encode_one-EncodingOk ctx (some entries) polls =
      let g = encoder_of w t in
      let h =
        encode_value-Safe g w.done w.depth_fuel (GoValue.dict entries) (encoder_state ctx polls) in
      encoded-EncodingOk ctx _ _ h
