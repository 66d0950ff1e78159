-- ===== src/Bindings/Tests.antt =====
-- internal/bindings/waf_dl.go: a run of `NewWafDl`, and the witnesses of its theorems.
use go_libddwaf.Base.{◌≡◌, refl, none, [], ◌∷◌, bytes, length, inl, inr}
use go_libddwaf.Base.Int.{pos}
use go_libddwaf.Log.{level_named}
use go_libddwaf.Bindings.{
  foreign, Platform, WafDl, resolve_waf_symbols, new_waf_dl, created, closed_file, opened,
  called_version, removed, log_callback_set, ◌>>=◌,
}
use go_libddwaf.Bindings.Symbols.{found, look_up, symbol_names, resolve-look_up}
use go_libddwaf.Bindings.Loading.{Outcome, Tidy, new_waf_dl-Outcome, new_waf_dl-Tidy}

-- All calls succeed; the address of a function is the length of its name, and the log is at "warn".
abbrev pub working : Platform
working = record {
  create_temp = inr (bytes "/tmp/waf");
  write_file = λ path. none;
  close_file = λ path. none;
  remove = λ path. none;
  dlopen = λ path. inr 7;
  dlsym = λ h name. inr (length name);
  dlclose = λ h. none;
  call_version = λ dl. inr (bytes "1.18.0");
  log_level = bytes "warn";
  to_lower = λ s. s;
}

-- Every function is found, but the call of ddwaf_get_version panics.
abbrev pub panicking : Platform
panicking = record working { call_version = λ dl. inl (foreign 3) }

working_events :
    (new_waf_dl working).2
    ≡ created (bytes "/tmp/waf")
      ∷ closed_file (bytes "/tmp/waf")
      ∷ opened 7
      ∷ called_version 7
      ∷ log_callback_set 16 (pos 3)
      ∷ removed (bytes "/tmp/waf")
      ∷ []
unfolding new_waf_dl ◌>>=◌ level_named
working_events = refl

working_symbols : found (resolve_waf_symbols working 7) ≡ look_up (working.dlsym 7) [] symbol_names
working_symbols = resolve-look_up working 7

new_waf_dl-Outcome_example : Outcome (new_waf_dl panicking)
new_waf_dl-Outcome_example = new_waf_dl-Outcome panicking

panicking_removes : Tidy (new_waf_dl panicking).2
panicking_removes = new_waf_dl-Tidy panicking

-- The library of `working`.
abbrev working_dl : WafDl
working_dl = record {
  symbols = record {
    init = 10;
    update = 12;
    destroy = 13;
    known_addresses = 21;
    get_version = 17;
    context_init = 18;
    context_destroy = 21;
    object_free = 17;
    result_free = 17;
    run = 9;
  };
  handle = 7;
}
