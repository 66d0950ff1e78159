-- ===== src/Encoder/Correct/Values.antt =====
-- encoder.go: `encode` is right, at every depth.
use go_libddwaf.Base.{
  ℕ, zero, suc, ◌≡◌, refl, Bool, true, false, Option, none, some, List, [], ◌∷◌, Text, arith,
  length, Bool-cases, inl, inr,
}
use go_libddwaf.Base.Int.{ℤ, wrap64}
use go_libddwaf.Errors.{Error, max_depth_exceeded}
use go_libddwaf.WafObject.{WafObject}
use go_libddwaf.Memory.Growth.{Same-refl, Grows-allocate, allocate_self}
use go_libddwaf.RefPool.{array_container, map_container, alloc_waf_string}
use go_libddwaf.GoValue.{GoValue}
use go_libddwaf.Encoder.{Setting, State, clip, note_clip, encode_string, word_of, bool_word}
use go_libddwaf.Encoder.Containers.{Encoded, EncodeValue}
use go_libddwaf.Encoder.Encode.{encode, encode_resolved, encode_container, too_deep, done}
use go_libddwaf.Decoder.Objects.{signed_word, bool_of_word}
use go_libddwaf.Tree.{Tree, string, array, map, Child, branches}
use go_libddwaf.Tree.Spec.{tree_of, tree_of_resolved, tree_of_container}
use go_libddwaf.Encoder.Correct.{memory_of, Right, Correct, Unlimited, asked}
use go_libddwaf.Encoder.Correct.Keys.{memory-note}
use go_libddwaf.Encoder.Correct.Frame.{WholeRight}
use go_libddwaf.Encoder.Correct.Whole.{encode_array_lem, encode_map_lem, encode_struct_lem}

-- A word is read back as the int64 that it was made from, modulo 2^64.
signed-word_of : (z : ℤ) → signed_word (word_of z) ≡ wrap64 z
unfolding wrap64
signed-word_of z = ground arith

bool_of-bool_word : (stray : ℕ) (b : Bool) → bool_of_word (bool_word stray b) ≡ b
bool_of-bool_word stray true = ground arith
bool_of-bool_word stray false = ground arith

alloc-string :
    (str : Text) (o : WafObject) (t : State)
    → let (o', st) = alloc_waf_string o str t.store in
      Right (some (string str)) o t (none, o', record t { store = st })
unfolding alloc_waf_string
alloc-string [] o t = record {
  grows = Same-refl 0 (memory_of t);
  outcome = (refl, (refl, refl), (refl, refl));
}
alloc-string (c ∷ s) o t = record {
  grows = Grows-allocate _ _;
  outcome = (
    refl,
    (refl, refl),
    (refl, (length (memory_of t), refl, omega arith, allocate_self _ (memory_of t), refl)),
  );
}

encode_string_lem :
    (g : Setting) (str : Text) (o : WafObject) (s : State)
    → Right (some (string (clip g.string_max_size str))) o s (done (encode_string g str o s))
unfolding encode_string
encode_string_lem g str o s =
    let r = alloc-string (clip g.string_max_size str) o (note_clip g.string_max_size str s) in
    record {
      grows = rw (memory-note g.string_max_size str s) at r.grows;
      outcome = rw (memory-note g.string_max_size str s) at r.outcome;
    }

-- A container that is encoded whole.
array-Right :
    {obj : WafObject} {l : List Child} {s : State} {r : WafObject × State}
    → WholeRight array_container obj l (memory_of s) r
    → Right (some (array (branches l))) obj s (done r)
array-Right w =
    let (os, n, at, es) = w.parts in
    record { grows = w.grows; outcome = (refl, w.key, (os, w.type, n, at, es)) }

map-Right :
    {obj : WafObject} {l : List Child} {s : State} {r : WafObject × State}
    → WholeRight map_container obj l (memory_of s) r
    → Right (some (map (branches l))) obj s (done r)
map-Right w =
    let (os, n, at, es) = w.parts in
    record { grows = w.grows; outcome = (refl, w.key, (os, w.type, n, at, es)) }

-- An error that touches neither memory nor object.
error-Right : (e : Error) (o : WafObject) (s : State) → Right none o s (some e, o, s)
error-Right e o s = record { grows = Same-refl 0 (memory_of s); outcome = ((e, refl), refl) }

module _ (g : Setting) where
  resolved-Correct :
      (deeper : EncodeValue) (f : GoValue → Option Tree)
      → Correct deeper f
      → Correct (encode_resolved g deeper) (tree_of_resolved g f)
  unfolding encode_resolved tree_of_resolved
  resolved-Correct deeper f h (GoValue.pointer a) o s = error-Right _ o s
  resolved-Correct deeper f h (GoValue.interface v) o s = error-Right _ o s
  resolved-Correct deeper f h GoValue.invalid o s = error-Right _ o s
  resolved-Correct deeper f h (GoValue.nil k) o s = record {
    grows = Same-refl 0 _;
    outcome = (refl, (refl, refl), refl);
  }
  resolved-Correct deeper f h (GoValue.bool b) o s = record {
    grows = Same-refl 0 _;
    outcome = (refl, (refl, refl), (refl, bool_of-bool_word g.stray b));
  }
  resolved-Correct deeper f h (GoValue.int z) o s = record {
    grows = Same-refl 0 _;
    outcome = (refl, (refl, refl), (refl, signed-word_of z));
  }
  resolved-Correct deeper f h (GoValue.uint n) o s = record {
    grows = Same-refl 0 _;
    outcome = (refl, (refl, refl), (refl, refl));
  }
  resolved-Correct deeper f h (GoValue.float n) o s = record {
    grows = Same-refl 0 _;
    outcome = (refl, (refl, refl), (refl, refl));
  }
  resolved-Correct deeper f h (GoValue.string str) o s = encode_string_lem g str o s
  resolved-Correct deeper f h (GoValue.sequence t items) o s = elim (Bool-cases t.elem_uint8) [
    | inl e ↦ simp e (record { grows = Same-refl 0 _; outcome = (refl, refl) })
    | inr e ↦ simp e (h (GoValue.sequence t items) o s)
  ]
  resolved-Correct deeper f h GoValue.opaque o s = h GoValue.opaque o s
  resolved-Correct deeper f h (GoValue.dict m) o s = h (GoValue.dict m) o s
  resolved-Correct deeper f h (GoValue.struct m) o s = h (GoValue.struct m) o s

  too_deep-Correct : Correct (λ v. too_deep) (λ v. none)
  too_deep-Correct v o s = record {
    grows = Same-refl 0 (memory_of s);
    outcome = ((max_depth_exceeded, refl), refl);
  }

  module _ (never : Unlimited g) where
    container-Correct :
        (enc : EncodeValue) (f : GoValue → Option Tree)
        → Correct enc f
        → Correct (encode_container g enc) (tree_of_container g f)
    unfolding encode_container tree_of_container
    container-Correct enc f h (GoValue.sequence t items) o s =
        array-Right (encode_array_lem g never enc f h items o s)
    container-Correct enc f h (GoValue.dict m) o s =
        map-Right (encode_map_lem g never enc f h m o s)
    container-Correct enc f h (GoValue.struct m) o s =
        map-Right (encode_struct_lem g never enc f h m o s)
    container-Correct enc f h GoValue.invalid o s = error-Right _ o s
    container-Correct enc f h _ o s = error-Right _ o s

    -- Without a timeout the encoder does what the specification says: from any state, the object
    -- comes to represent the tree of the value, with new blocks only, or there is an error and the
    -- object is untouched; no block that was there before is changed.
    pub encode-Correct : (depth : ℕ) → Correct (encode g depth) (tree_of g depth)
    unfolding encode tree_of
    encode-Correct zero v o s =
        rw (never s.polls)
          (resumed (resolved-Correct (λ w. too_deep) (λ w. none) too_deep-Correct _ o (asked s)))
      where
        resumed : {t : Option Tree} {r : Encoded} → Right t o (asked s) r → Right t o s r
        resumed r = record { grows = r.grows; outcome = r.outcome }
    encode-Correct (suc depth) v o s = rw (never s.polls) (
        resumed (resolved-Correct _ _ (container-Correct _ _ (encode-Correct depth)) _ o (asked s)))
      where
        resumed : {t : Option Tree} {r : Encoded} → Right t o (asked s) r → Right t o s r
        resumed r = record { grows = r.grows; outcome = r.outcome }
