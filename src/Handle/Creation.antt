-- ===== src/Handle/Creation.antt =====
-- handle.go: `NewHandle` and `Update`, with libddwaf's ddwaf_init and ddwaf_update as parameters.
pub mod Laws
mod Tests
use go_libddwaf.Base.{
  ℕ, ◌-◌, ◌^◌, Bool, true, false, Option, none, some, List, [], ◌∷◌, ◌++◌, Text, ◌⊎◌, inl, inr,
  ◌==◌, if◌then◌else◌,
}
use go_libddwaf.Errors.{Error}
use go_libddwaf.WafObject.{
  WafObject, is_invalid, waf_max_container_size, waf_max_string_length, waf_max_container_depth,
}
use go_libddwaf.Memory.{Memory}
use go_libddwaf.RefPool.{Store, no_refs, alloc_c_string}
use go_libddwaf.GoValue.{GoValue, GoHeap}
use go_libddwaf.Encoder.{Setting, State}
use go_libddwaf.Encoder.Depth.{encode_value}
use go_libddwaf.Diagnostics.{Diagnostics, no_diagnostics, top_level_error}
use go_libddwaf.Decoder.{Decoded, ok, err, fault, unfinished}
use go_libddwaf.Decoder.Reports.{decode_diagnostics}
use go_libddwaf.Bindings.{LoadError}
use go_libddwaf.Handle.{Handle, new_handle}

-- The three limits, the addresses of the two expressions, and `FreeFn`.
pub record WafConfig : Type 0 where
  pub max_container_depth : ℕ
  pub max_container_size : ℕ
  pub max_string_length : ℕ
  pub key_regex : ℕ
  pub value_regex : ℕ
  pub free_fn : ℕ

-- newConfig
unfoldable pub new_config : Text → Text → Store → WafConfig × Store
unfolding alloc_c_string
new_config key_obfuscator_regex value_obfuscator_regex st =
    let (key, st') = alloc_c_string st key_obfuscator_regex in
    let (val, st'') = alloc_c_string st' value_obfuscator_regex in
    (
      record {
        max_container_depth = waf_max_container_depth;
        max_container_size = waf_max_container_size;
        max_string_length = waf_max_string_length;
        key_regex = key;
        value_regex = val;
        free_fn = 0;
      },
      st'',
    )

-- What ddwaf_init and ddwaf_update answer: the instance, 0 if there is none, the diagnostics, and memory.
pub record InitAnswer : Type 0 where
  pub c_handle : ℕ
  pub info : WafObject
  pub memory : Memory

-- The Go heap, libddwaf, and fuel for `measureObjectDepth`.
pub record World : Type 0 where
  pub heap : GoHeap
  pub stray : ℕ
  pub done : ℕ → Bool
  pub depth_fuel : ℕ
  pub waf_init : WafObject → WafConfig → Memory → InitAnswer
  pub waf_update : ℕ → WafObject → Memory → InitAnswer

-- The calls of libddwaf, with the instance that was made or destroyed.
pub data LibraryCall : Type 0 where
  initialised destroyed : ℕ → LibraryCall
  info_freed : LibraryCall

-- The errors of `NewHandle` and `Update`.
pub data HandleError : Type 0 where
  not_loaded : List LoadError → HandleError
  not_encoded diagnostics_not_decoded : Error → HandleError
  rejected : List (Text × Text) → HandleError
  not_instantiated not_updated : HandleError

-- What is returned, or how the call ends otherwise, and the calls of libddwaf.
abbrev pub Made : Type 0
Made = Decoded (HandleError ⊎ Handle) × List LibraryCall

-- newMaxEncoder: no limit and no time limit.
abbrev pub max_encoder : World → Setting
max_encoder w = record {
  heap = w.heap;
  expired = λ k. false;
  stray = w.stray;
  container_max_size = 2 ^ 63 - 1;
  string_max_size = 2 ^ 63 - 1;
  object_max_depth = 2 ^ 63 - 1;
}

abbrev pub initial_state : Memory → State
initial_state m = record {
  store = record { memory = m; refs = no_refs };
  truncations = [];
  polls = 0;
}

-- The diagnostics if they were decoded; the second is `diagsErr`.
abbrev pub Read : Type 0
Read = Decoded (Option Diagnostics × Option Error)

abbrev pub read_of : Decoded Diagnostics → Read
read_of (ok d) = ok (some d, none)
read_of (err e) = ok (none, some e)
read_of fault = fault
read_of unfinished = unfinished

unfoldable pub read_info : InitAnswer → Read
unfolding decode_diagnostics
read_info a =
    if is_invalid a.info then ok (none, none) else read_of (decode_diagnostics a.memory a.info)

-- `diags.TopLevelError()`, if there is one.
abbrev pub reason_of : List (Text × Text) → HandleError
reason_of [] = not_instantiated
reason_of (e ∷ errors) = rejected (e ∷ errors)

-- What follows a failed ddwaf_init.
unfoldable pub failed_init : Option Diagnostics × Option Error → HandleError
unfolding top_level_error
failed_init (some diags, none) = reason_of (top_level_error diags)
failed_init (diags, diags_err) = not_instantiated

-- What follows a successful one; without an error `*diags` is read.
abbrev pub init_done : ℕ → Option Diagnostics × Option Error → Made
init_done c (diags, some e) = (ok (inl (diagnostics_not_decoded e)), destroyed c ∷ [])
init_done c (some diags, none) = (ok (inr (new_handle diags c)), [])
init_done c (none, none) = (fault, [])

-- What follows the decoding of the diagnostics.
unfoldable pub after_info : ℕ → Read → Made
unfolding failed_init
after_info c (ok read) = if c == 0 then (ok (inl (failed_init read)), []) else init_done c read
after_info c (err e) = (err e, [])
after_info c fault = (fault, [])
after_info c unfinished = (unfinished, [])

abbrev pub instance_of : ℕ → List LibraryCall
instance_of c = if c == 0 then [] else initialised c ∷ []

-- From ddwaf_init on; the deferred function frees the diagnostics, a panic included.
unfoldable pub after_init : InitAnswer → Made
unfolding read_info after_info
after_init a =
    let (made, calls) = after_info a.c_handle (read_info a) in
    (made, instance_of a.c_handle ++ (calls ++ info_freed ∷ []))

-- What follows `Encode`.
abbrev pub with_rules : World → Text → Text → Option Error → WafObject → Option State → Made
with_rules w key val (some e) o s = (ok (inl (not_encoded e)), [])
with_rules w key val none o none = (unfinished, [])
with_rules w key val none o (some s) =
    let (config, st) = new_config key val s.store in after_init (w.waf_init o config st.memory)

-- NewHandle, with the results of `Load`.
unfoldable pub create_handle : World → Memory → Bool × List LoadError → GoValue → Text → Text → Made
unfolding encode_value after_init new_config
create_handle w m (false, errors) rules key val = (ok (inl (not_loaded errors)), [])
create_handle w m (true, errors) rules key val =
    let (e, o, s) = encode_value (max_encoder w) w.done w.depth_fuel rules (initial_state m) in
    with_rules w key val e o s

-- From ddwaf_update on; nothing reads the diagnostics.
unfoldable pub after_update : InitAnswer → Made
after_update a =
    if a.c_handle == 0
    then (ok (inl not_updated), [])
    else (ok (inr (new_handle no_diagnostics a.c_handle)), initialised a.c_handle ∷ info_freed ∷ [])

abbrev pub update_with : World → Handle → Option Error → WafObject → Option State → Made
update_with w h (some e) o s = (ok (inl (not_encoded e)), [])
update_with w h none o none = (unfinished, [])
update_with w h none o (some s) = after_update (w.waf_update h.c_handle o s.store.memory)

-- Update
unfoldable pub update : World → Memory → Handle → GoValue → Made
unfolding encode_value after_update
update w m h rules =
    let (e, o, s) = encode_value (max_encoder w) w.done w.depth_fuel rules (initial_state m) in
    update_with w h e o s
