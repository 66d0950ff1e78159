-- ===== src/Decoder/Reports.antt =====
-- decoder.go: the ruleset reports of libddwaf, `decodeDiagnostics` and what it calls.
use go_libddwaf.Base.{
  ℕ, zero, suc, Bool, ◌&&◌, some, List, [], ◌∷◌, ◌++◌, Text, bytes, text_eq, ltb, ◌==◌,
  if◌then◌else◌, Dict, insert, text_key,
}
use go_libddwaf.Diagnostics.{
  DiagnosticAddresses, DiagnosticEntry, Diagnostics, no_addresses, no_entry, no_diagnostics,
}
use go_libddwaf.Errors.{unsupported_value, invalid_object_type, nil_object_ptr}
use go_libddwaf.WafObject.{WafObject, waf_string_type, is_nil, is_array, is_map}
use go_libddwaf.Memory.{Memory}
use go_libddwaf.Decoder.{Decoded, ok, err, ◌>>=◌, cast_with_offset, parameter_of, string_of}

-- `obj.Value == 0 && obj.NbEntries > 0`
abbrev has_nil_ptr : WafObject → Bool
has_nil_ptr obj = obj.value == 0 && ltb 0 obj.nb_entries

-- The guards that the decoders of maps begin with.
abbrev pub guard_map {ℓ} : {A : Type ℓ} → WafObject → Decoded A → Decoded A
guard_map obj k =
    if is_map obj
    then (if has_nil_ptr obj then err nil_object_ptr else k)
    else err invalid_object_type

module _ (m : Memory) where
  unfoldable pub string_array_from : ℕ → ℕ → ℕ → List Text → Decoded (List Text)
  string_array_from a zero i strs = ok strs
  string_array_from a (suc left) i strs = do
    elem ← cast_with_offset m a i
    str ← (if elem.type == waf_string_type then string_of m elem else err invalid_object_type)
    string_array_from a left (suc i) (strs ++ str ∷ [])

  unfoldable pub decode_string_array : WafObject → Decoded (List Text)
  unfolding string_array_from
  decode_string_array obj =
      if is_nil obj
      then ok []
      else if is_array obj
      then (if has_nil_ptr obj
          then err nil_object_ptr
          else string_array_from obj.value obj.nb_entries 0 [])
      else err invalid_object_type

  -- A loop over the entries of a map object, with what one entry does to the result.
  unfoldable pub fold_entries {ℓ} :
      {A : Type ℓ} → (Text → WafObject → A → Decoded A) → ℕ → ℕ → ℕ → A → Decoded A
  fold_entries f a zero i acc = ok acc
  fold_entries f a (suc left) i acc = do
    elem ← cast_with_offset m a i
    key ← parameter_of m elem
    acc' ← f key elem acc
    fold_entries f a left (suc i) acc'

  unfoldable pub add_errors :
      Text → WafObject → Dict Text (List Text) → Decoded (Dict Text (List Text))
  unfolding decode_string_array insert
  add_errors key elem errors = do ids ← decode_string_array elem; ok (insert key ids errors)

  unfoldable pub decode_errors : WafObject → Decoded (Dict Text (List Text))
  unfolding add_errors fold_entries
  decode_errors obj = guard_map obj (fold_entries add_errors obj.value obj.nb_entries 0 [])

  unfoldable pub set_addresses :
      Text → WafObject → DiagnosticAddresses → Decoded DiagnosticAddresses
  unfolding decode_string_array
  set_addresses key elem addrs =
      if text_eq key (bytes "required")
      then (do l ← decode_string_array elem; ok (record addrs { required = l }))
      else if text_eq key (bytes "optional")
      then (do l ← decode_string_array elem; ok (record addrs { optional = l }))
      else err unsupported_value

  unfoldable pub decode_diagnostic_addresses : WafObject → Decoded DiagnosticAddresses
  unfolding set_addresses fold_entries
  decode_diagnostic_addresses obj =
      guard_map obj (fold_entries set_addresses obj.value obj.nb_entries 0 no_addresses)

  unfoldable pub set_entry : Text → WafObject → DiagnosticEntry → Decoded DiagnosticEntry
  unfolding decode_diagnostic_addresses decode_errors decode_string_array
  set_entry key elem entry =
      if text_eq key (bytes "addresses")
      then (do a ← decode_diagnostic_addresses elem; ok (record entry { addresses = some a }))
      else if text_eq key (bytes "error")
      then (do s ← string_of m elem; ok (record entry { error = s }))
      else if text_eq key (bytes "errors")
      then (do d ← decode_errors elem; ok (record entry { errors = d }))
      else if text_eq key (bytes "failed")
      then (do l ← decode_string_array elem; ok (record entry { failed = l }))
      else if text_eq key (bytes "loaded")
      then (do l ← decode_string_array elem; ok (record entry { loaded = l }))
      else err unsupported_value

  unfoldable pub decode_diagnostics_entry : WafObject → Decoded DiagnosticEntry
  unfolding set_entry fold_entries
  decode_diagnostics_entry obj =
      guard_map obj (fold_entries set_entry obj.value obj.nb_entries 0 no_entry)

  unfoldable pub set_diagnostics : Text → WafObject → Diagnostics → Decoded Diagnostics
  unfolding decode_diagnostics_entry
  set_diagnostics key elem d =
      if text_eq key (bytes "custom_rules")
      then (do e ← decode_diagnostics_entry elem; ok (record d { custom_rules = some e }))
      else if text_eq key (bytes "exclusions")
      then (do e ← decode_diagnostics_entry elem; ok (record d { exclusions = some e }))
      else if text_eq key (bytes "rules")
      then (do e ← decode_diagnostics_entry elem; ok (record d { rules = some e }))
      else if text_eq key (bytes "rules_data")
      then (do e ← decode_diagnostics_entry elem; ok (record d { rules_data = some e }))
      else if text_eq key (bytes "rules_override")
      then (do e ← decode_diagnostics_entry elem; ok (record d { rules_overrides = some e }))
      else if text_eq key (bytes "processors")
      then (do e ← decode_diagnostics_entry elem; ok (record d { processors = some e }))
      else if text_eq key (bytes "scanners")
      then (do e ← decode_diagnostics_entry elem; ok (record d { scanners = some e }))
      else if text_eq key (bytes "ruleset_version")
      then (do s ← string_of m elem; ok (record d { version = s }))
      else ok d

  unfoldable pub decode_diagnostics : WafObject → Decoded Diagnostics
  unfolding set_diagnostics fold_entries
  decode_diagnostics obj =
      guard_map obj (fold_entries set_diagnostics obj.value obj.nb_entries 0 no_diagnostics)
