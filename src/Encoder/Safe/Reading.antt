-- ===== src/Encoder/Safe/Reading.antt =====
-- decoder.go: `decodeObject` on an object that can be read.
use go_libddwaf.Base.{
  ℕ, zero, suc, ◌+◌, ◌≤◌, ◌≡◌, ap, subst, sym, true, some, List, arith, length, All, All-elem,
  get_elem?, inl, inr,
}
use go_libddwaf.WafObject.{WafObject}
use go_libddwaf.Memory.{Memory, objects}
use go_libddwaf.Decoder.{
  Decoded, ok, err, fault, unfinished, ◌>>=◌, gostring_sized, cast_with_offset, string_of,
  parameter_of,
}
use go_libddwaf.Decoder.Objects.{
  Any, Members, no_members, put, array_from, map_from, decode_by_type, decode_object,
}
use go_libddwaf.Tree.Holds.{ArrayAt}
use go_libddwaf.Tree.ReadBack.{gostring-TextAt}
use go_libddwaf.Encoder.{Setting}
use go_libddwaf.Encoder.Safe.{is_plain, ShortText, SafeText, Safe, SafeSlot}

-- A value or an error, not a fault and not more levels than the fuel.
abbrev pub IsRead : {A : Type 0} → Decoded A → Type 0
IsRead (ok a) = Unit {0}
IsRead (err e) = Unit {0}
IsRead fault = ⊥
IsRead unfinished = ⊥

IsRead-bind :
    {A B : Type 0} (x : Decoded A) (f : A → Decoded B)
    → IsRead x
    → ((a : A) → IsRead (f a))
    → IsRead (x >>= f)
IsRead-bind (ok a) f h k = k a
IsRead-bind (err e) f h k = tt
IsRead-bind fault f h k = absurd h
IsRead-bind unfinished f h k = absurd h

module _ (g : Setting) (lo : ℕ) (m : Memory) where
  text-IsRead : (a n : ℕ) → ShortText g lo m a n → IsRead (gostring_sized m a n)
  text-IsRead a n (s, b, h) = rw (gostring-TextAt lo m a n s h) tt

  plain-IsRead :
      (dec : WafObject → Decoded Any) (o : WafObject)
      → is_plain o ≡ true
      → IsRead (decode_by_type m dec o)
  unfolding decode_by_type
  plain-IsRead dec o e = ground arith

  module _ (dec : WafObject → Decoded Any) (d : ℕ)
      (reads : (o : WafObject) → Safe g d lo m o → IsRead (dec o)) where
    cast_at :
        (k i : ℕ) (os : List WafObject) (o : WafObject)
        → get_elem? m k ≡ some (objects os)
        → get_elem? os i ≡ some o
        → cast_with_offset m (suc k) i ≡ ok o
    unfolding cast_with_offset
    cast_at k i os o at e = rw at (rw e)

    array_from-IsRead :
        (k : ℕ) (os : List WafObject) (left i : ℕ)
        → get_elem? m k ≡ some (objects os)
        → i + left ≤ length os
        → All (SafeSlot g d lo m) os
        → IsRead (array_from m dec (suc k) left i)
    unfolding array_from
    array_from-IsRead k os zero i at b h = tt
    array_from-IsRead k os (suc left) i at b h =
        let (o, e, (key, v)) = All-elem _ os i (omega arith) h in
        rw (cast_at k i os o at e) (
          IsRead-bind (dec o) _ (reads o v) (λ a.
            IsRead-bind (array_from m dec (suc k) left (suc i)) _
              (array_from-IsRead k os left (suc i) at (omega arith) h) (λ l. tt)))

    map_from-IsRead :
        (k : ℕ) (os : List WafObject) (left i : ℕ) (acc : Members)
        → get_elem? m k ≡ some (objects os)
        → i + left ≤ length os
        → All (SafeSlot g d lo m) os
        → IsRead (map_from m dec (suc k) left i acc)
    unfolding map_from
    map_from-IsRead k os zero i acc at b h = tt
    map_from-IsRead k os (suc left) i acc at b h =
        let (o, e, (key, v)) = All-elem _ os i (omega arith) h in
        rw (cast_at k i os o at e) (
          IsRead-bind (parameter_of m o) _
            (text-IsRead o.parameter_name o.parameter_name_length key)
            (λ name.
              IsRead-bind (dec o) _ (reads o v)
                (λ a. map_from-IsRead k os left (suc i) (put name a acc) at (omega arith) h)))

    array_from-ArrayAt :
        (a n : ℕ) (os : List WafObject)
        → n ≤ length os
        → ArrayAt lo m a os
        → All (SafeSlot g d lo m) os
        → IsRead (array_from m dec a n 0)
    unfolding array_from
    array_from-ArrayAt a zero os b at h = tt
    array_from-ArrayAt a (suc n) os b (inl e) h = absurd (omega (arith, ap length e))
    array_from-ArrayAt a (suc n) os b (inr (k, e, l, at)) h =
        subst (λ x. IsRead (array_from m dec x (suc n) 0)) (sym e)
          (array_from-IsRead k os (suc n) 0 at (omega arith) h)

    map_from-ArrayAt :
        (a n : ℕ) (os : List WafObject)
        → n ≤ length os
        → ArrayAt lo m a os
        → All (SafeSlot g d lo m) os
        → IsRead (map_from m dec a n 0 no_members)
    unfolding map_from
    map_from-ArrayAt a zero os b at h = tt
    map_from-ArrayAt a (suc n) os b (inl e) h = absurd (omega (arith, ap length e))
    map_from-ArrayAt a (suc n) os b (inr (k, e, l, at)) h =
        subst (λ x. IsRead (map_from m dec x (suc n) 0 no_members)) (sym e)
          (map_from-IsRead k os (suc n) 0 no_members at (omega arith) h)

  string-IsRead :
      (dec : WafObject → Decoded Any) (o : WafObject)
      → SafeText g lo m o
      → IsRead (decode_by_type m dec o)
  unfolding decode_by_type
  string-IsRead dec o (e, h) =
      rw e (IsRead-bind (string_of m o) _ (text-IsRead o.value o.nb_entries h) (λ s. tt))

  -- With fuel for one level more than it has, an object that can be read is read.
  pub decode_object-IsRead :
      (d : ℕ) (o : WafObject) → Safe g d lo m o → IsRead (decode_object m (suc d) o)
  unfolding decode_object
  decode_object-IsRead zero o (inl e) = plain-IsRead (decode_object m 0) o e
  decode_object-IsRead zero o (inr h) = string-IsRead (decode_object m 0) o h
  decode_object-IsRead (suc d) o (inl e) = plain-IsRead (decode_object m (suc d)) o e
  decode_object-IsRead (suc d) o (inr (inl h)) = string-IsRead (decode_object m (suc d)) o h
  decode_object-IsRead (suc d) o (inr (inr (os, inl ty, n, c, at, h))) = rw ty (
      IsRead-bind _ _
        (array_from-ArrayAt (decode_object m (suc d)) d (decode_object-IsRead d) o.value
          o.nb_entries os n at h)
        (λ l. tt))
  decode_object-IsRead (suc d) o (inr (inr (os, inr ty, n, c, at, h))) = rw ty (
      IsRead-bind _ _
        (map_from-ArrayAt (decode_object m (suc d)) d (decode_object-IsRead d) o.value o.nb_entries
          os n at h)
        (λ l. tt))
