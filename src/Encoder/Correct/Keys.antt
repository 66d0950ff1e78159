-- ===== src/Encoder/Correct/Keys.antt =====
-- encoder.go: the keys that `encodeMapKeyFromString` writes, and the values under them.
use go_libddwaf.Base.{ℕ, ◌≡◌, refl, Option, none, some, [], ◌∷◌, Text, arith, length}
use go_libddwaf.Errors.{Error}
use go_libddwaf.WafObject.{WafObject, zero_object, waf_invalid_type}
use go_libddwaf.Memory.{Memory}
use go_libddwaf.Memory.Growth.{Grows, Same-refl, Grows-allocate, allocate_self}
use go_libddwaf.RefPool.{alloc_waf_map_key}
use go_libddwaf.Encoder.{Setting, State, clip, note_clip, encode_map_key_from_string}
use go_libddwaf.Encoder.Containers.{or_noop}
use go_libddwaf.Tree.{Tree, hole, null, bool, int, uint, float, string, array, map}
use go_libddwaf.Tree.Holds.{TextAt, Holds}
use go_libddwaf.Tree.Spec.{or_hole}
use go_libddwaf.Encoder.Correct.{memory_of, SameKey, Outcome}

-- A slot that was never written.
abbrev pub Blank : WafObject → Type 0
Blank o = o ≡ zero_object

-- The object has the key, and as yet no value.
pub record Keyed (key : Text) (m : Memory) (o : WafObject) (r : WafObject × State) : Type 0 where
  pub grows : Grows m (memory_of r.1)
  pub name : TextAt (length m) (memory_of r.1) r.0.parameter_name r.0.parameter_name_length key
  pub untyped : r.0.type ≡ o.type

pub memory-note : (max : ℕ) (str : Text) (s : State) → memory_of (note_clip max str s) ≡ memory_of s
unfolding note_clip
memory-note max str s = ground arith

alloc-Keyed :
    (key : Text) (o : WafObject) (t : State)
    → o.parameter_name ≡ 0
    → let (o', st) = alloc_waf_map_key o key t.store in
      Keyed key (memory_of t) o (o', record t { store = st })
unfolding alloc_waf_map_key
alloc-Keyed [] o t e = record { grows = Same-refl 0 _; name = e; untyped = refl }
alloc-Keyed (c ∷ s) o t e = record {
  grows = Grows-allocate _ _;
  name = (length (memory_of t), refl, omega arith, allocate_self _ (memory_of t), refl);
  untyped = refl;
}

pub encode-Keyed :
    (g : Setting) (str : Text) (o : WafObject) (s : State)
    → o.parameter_name ≡ 0
    → Keyed (clip g.string_max_size str) (memory_of s) o (encode_map_key_from_string g str o s)
unfolding encode_map_key_from_string
encode-Keyed g str o s e =
    rw (memory-note g.string_max_size str s) at
      (alloc-Keyed (clip g.string_max_size str) o (note_clip g.string_max_size str s) e)

-- A value under a key: what it stands for, or a hole.
pub Outcome-or_noop :
    (x : Option Tree) (lo : ℕ) (m : Memory) (o : WafObject) (err : Option Error) (o' : WafObject)
    → o.type ≡ waf_invalid_type
    → Outcome x lo m o err o'
    → SameKey o (or_noop err o') × Holds lo m (or_noop err o') (or_hole x)
Outcome-or_noop none lo m o err o' e ((x, p), q) = rw (p, q) ((refl, refl), refl)
Outcome-or_noop (some hole) lo m o err o' e (p, q) = rw (p, q) ((refl, refl), e)
Outcome-or_noop (some null) lo m o err o' e (p, k, h) = rw p (k, h)
Outcome-or_noop (some (bool b)) lo m o err o' e (p, k, h) = rw p (k, h)
Outcome-or_noop (some (int z)) lo m o err o' e (p, k, h) = rw p (k, h)
Outcome-or_noop (some (uint n)) lo m o err o' e (p, k, h) = rw p (k, h)
Outcome-or_noop (some (float n)) lo m o err o' e (p, k, h) = rw p (k, h)
Outcome-or_noop (some (string s)) lo m o err o' e (p, k, h) = rw p (k, h)
Outcome-or_noop (some (array b)) lo m o err o' e (p, k, h) = rw p (k, h)
Outcome-or_noop (some (map b)) lo m o err o' e (p, k, h) = rw p (k, h)
