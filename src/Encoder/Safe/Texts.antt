-- ===== src/Encoder/Safe/Texts.antt =====
-- encoder.go under any timer: texts and keys.
use go_libddwaf.Base.{ℕ, ◌≤◌, ◌≡◌, refl, [], ◌∷◌, Text, arith, length, Option-cases, inl, inr}
use go_libddwaf.WafObject.{WafObject}
use go_libddwaf.Memory.{chars}
use go_libddwaf.Memory.Growth.{Same-refl, Same-of-Grows, Grows-allocate, allocate_self}
use go_libddwaf.RefPool.{alloc_waf_string, alloc_waf_map_key, keep_string}
use go_libddwaf.GoValue.{GoValue}
use go_libddwaf.Tree.Limits.{length-clip}
use go_libddwaf.Encoder.{
  Setting, State, clip, note_clip, encode_string, encode_map_key_from_string, resolve_pointer,
  indirection_limit,
}
use go_libddwaf.Encoder.Containers.{encode_map_key, key_text}
use go_libddwaf.Encoder.Correct.{memory_of}
use go_libddwaf.Encoder.Safe.{
  Careful, Careful-trans, Careful-same, Safe-text, Safe-key, SafeSlot-Same, Retained-string,
}

store-note : (max : ℕ) (str : Text) (s : State) → (note_clip max str s).store ≡ s.store
unfolding note_clip
store-note max str s = ground arith

module _ (g : Setting) (d : ℕ) where
  alloc-Careful_string :
      (str : Text) (o : WafObject) (t : State)
      → length str ≤ g.string_max_size
      → let (o', st) = alloc_waf_string o str t.store in
        Careful g d o t o' (record t { store = st })
  unfolding alloc_waf_string keep_string
  alloc-Careful_string [] o t b = record {
    grows = Same-refl 0 _;
    safe = λ lo l h. (h.0, Safe-text g d lo _ _ (refl, ([], omega arith, refl)));
    retained = λ lo h. h;
  }
  alloc-Careful_string (c ∷ str) o t b =
      let grown = Grows-allocate (chars (c ∷ str)) (memory_of t) in
      record {
        grows = grown;
        safe = λ lo l h. (
          (SafeSlot-Same g (omega arith) (Same-of-Grows grown) d o h).0,
          Safe-text g d lo _ _ (
            refl,
            (c ∷ str, b, (length (memory_of t), refl, l, allocate_self _ (memory_of t), refl)),
          ),
        );
        retained = λ lo h. Retained-string lo t.store (c ∷ str) h;
      }

  alloc-Careful_key :
      (str : Text) (o : WafObject) (t : State)
      → length str ≤ g.string_max_size
      → let (o', st) = alloc_waf_map_key o str t.store in
        Careful g d o t o' (record t { store = st })
  unfolding alloc_waf_map_key keep_string
  alloc-Careful_key [] o t b = Careful-same g d o refl
  alloc-Careful_key (c ∷ str) o t b =
      let grown = Grows-allocate (chars (c ∷ str)) (memory_of t) in
      record {
        grows = grown;
        safe = λ lo l h. (
          (c ∷ str, b, (length (memory_of t), refl, l, allocate_self _ (memory_of t), refl)),
          Safe-key g d lo _ _ _ _ (SafeSlot-Same g (omega arith) (Same-of-Grows grown) d o h).1,
        );
        retained = λ lo h. Retained-string lo t.store (c ∷ str) h;
      }

  pub encode_string-Careful :
      (str : Text) (o : WafObject) (s : State)
      → let (o', s') = encode_string g str o s in Careful g d o s o' s'
  unfolding encode_string
  encode_string-Careful str o s =
      Careful-trans (Careful-same g d o (store-note g.string_max_size str s)) (
        alloc-Careful_string (clip g.string_max_size str) o (note_clip g.string_max_size str s)
          (length-clip g.string_max_size str))

  pub encode_key-Careful :
      (str : Text) (o : WafObject) (s : State)
      → let (o', s') = encode_map_key_from_string g str o s in Careful g d o s o' s'
  unfolding encode_map_key_from_string
  encode_key-Careful str o s =
      Careful-trans (Careful-same g d o (store-note g.string_max_size str s)) (
        alloc-Careful_key (clip g.string_max_size str) o (note_clip g.string_max_size str s)
          (length-clip g.string_max_size str))

  pub encode_map_key-Careful :
      (v : GoValue) (o : WafObject) (s : State)
      → let (e, o', s') = encode_map_key g v o s in Careful g d o s o' s'
  unfolding encode_map_key
  encode_map_key-Careful v o s =
      elim (Option-cases (key_text (resolve_pointer g.heap indirection_limit v))) [
        | inl e ↦ rw (e, encode_map_key) (Careful-same g d o refl)
        | inr (str, e) ↦ rw (e, encode_map_key) (encode_key-Careful str o s)
      ]
