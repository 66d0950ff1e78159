-- ===== src/Bindings.antt =====
-- internal/bindings/waf_dl.go, internal/bindings/safe.go and internal/lib/lib.go: how libddwaf is
-- loaded.
pub mod Symbols
pub mod Events
pub mod Loading
pub mod Closing
pub mod Calls
pub mod Strings
pub mod Tests
use go_libddwaf.Errors.Messages.{SupportError}
use go_libddwaf.Base.{
  ℕ, Bool, true, false, Option, none, some, List, [], ◌∷◌, ◌++◌, Text, bytes, text_eq, ◌⊎◌, inl,
  inr, if◌then◌else◌,
}
use go_libddwaf.Base.Int.{ℤ}
use go_libddwaf.Log.{level_named}

-- A Go error: one of another package, by number, and what this code wraps around errors. `panicked` is
-- the `PanicError` of `tryCall`, `support` an error of an unsupported platform.
pub data LoadError : Type 0 where
  foreign : ℕ → LoadError
  creating_temp writing_file closing_file panicked : LoadError → LoadError
  along_with : LoadError → LoadError → LoadError
  support : SupportError → LoadError

-- Where the code outside has an effect: temporary files by path, the library by its handle.
pub data Event : Type 0 where
  created closed_file removed : Text → Event
  opened called_version closed_library : ℕ → Event
  log_callback_set : ℕ → ℤ → Event

pub record WafSymbols : Type 0 where
  pub init : ℕ
  pub update : ℕ
  pub destroy : ℕ
  pub known_addresses : ℕ
  pub get_version : ℕ
  pub context_init : ℕ
  pub context_destroy : ℕ
  pub object_free : ℕ
  pub result_free : ℕ
  pub run : ℕ

pub record WafDl : Type 0 where
  pub symbols : WafSymbols
  pub handle : ℕ

-- What the packages os and purego and the library answer. `call_version` is the call of
-- ddwaf_get_version, with what it panics with; `log_level` is the environment variable.
pub record Platform : Type 0 where
  pub create_temp : LoadError ⊎ Text
  pub write_file : Text → Option LoadError
  pub close_file : Text → Option LoadError
  pub remove : Text → Option LoadError
  pub dlopen : Text → LoadError ⊎ ℕ
  pub dlsym : ℕ → Text → LoadError ⊎ ℕ
  pub dlclose : ℕ → Option LoadError
  pub call_version : WafDl → LoadError ⊎ Text
  pub log_level : Text
  pub to_lower : Text → Text

-- The early return on an error.
infixl 20 ◌>>=◌
unfoldable pub ◌>>=◌ : {A B : Type 0} → LoadError ⊎ A → (A → LoadError ⊎ B) → LoadError ⊎ B
inl e >>= f = inl e
inr a >>= f = f a

-- `fmt.Errorf("%w; along with an error …", err, other)`, if there is another error.
abbrev pub joined : LoadError → Option LoadError → LoadError
joined err none = err
joined err (some other) = along_with err other

-- resolveWafSymbols
unfoldable pub resolve_waf_symbols : Platform → ℕ → LoadError ⊎ WafSymbols
resolve_waf_symbols p handle = do
  init ← p.dlsym handle (bytes "ddwaf_init")
  update ← p.dlsym handle (bytes "ddwaf_update")
  destroy ← p.dlsym handle (bytes "ddwaf_destroy")
  known_addresses ← p.dlsym handle (bytes "ddwaf_known_addresses")
  get_version ← p.dlsym handle (bytes "ddwaf_get_version")
  context_init ← p.dlsym handle (bytes "ddwaf_context_init")
  context_destroy ← p.dlsym handle (bytes "ddwaf_context_destroy")
  result_free ← p.dlsym handle (bytes "ddwaf_result_free")
  object_free ← p.dlsym handle (bytes "ddwaf_object_free")
  run ← p.dlsym handle (bytes "ddwaf_run")
  inr (record {
    init = init;
    update = update;
    destroy = destroy;
    known_addresses = known_addresses;
    get_version = get_version;
    context_init = context_init;
    context_destroy = context_destroy;
    object_free = object_free;
    result_free = result_free;
    run = run;
  })

-- The deferred part of `DumpEmbeddedWAF`: the file is closed, and removed if there is an error.
abbrev pub after_close : Option LoadError → Option LoadError → Option LoadError
after_close err none = err
after_close (some err) (some close_err) = some (along_with err close_err)
after_close none (some close_err) = some (closing_file close_err)

abbrev pub remove_on_error : Platform → Text → Option LoadError → Option LoadError × List Event
remove_on_error p path none = (none, [])
remove_on_error p path (some err) =
    if text_eq path []
    then (some err, [])
    else (some (joined err (p.remove path)), removed path ∷ [])

abbrev pub written : Platform → Text → Option LoadError
written p path = elim (p.write_file path) [ none ↦ none | some e ↦ some (writing_file e) ]

-- DumpEmbeddedWAF: the path, the error and the effects; what follows `CreateTemp`.
abbrev pub after_create : Platform → LoadError ⊎ Text → Text × Option LoadError × List Event
after_create p (inl e) = ([], some (creating_temp e), [])
after_create p (inr path) =
    let (err, events) = remove_on_error p path (after_close (written p path) (p.close_file path)) in
    (path, err, created path ∷ closed_file path ∷ events)

unfoldable pub dump_embedded_waf : Platform → Text × Option LoadError × List Event
dump_embedded_waf p = after_create p p.create_temp

-- tryCall, of the call of ddwaf_get_version.
abbrev pub try_call : LoadError ⊎ Text → Option LoadError
try_call (inl e) = some (panicked e)
try_call (inr version) = none

-- The two results of `NewWafDl`, and the effects.
abbrev pub Opened : Type 0
Opened = Option WafDl × Option LoadError × List Event

abbrev pub set_callback : Platform → LoadError ⊎ ℕ → List Event
set_callback p (inl e) = []
set_callback p (inr symbol) = log_callback_set symbol (level_named p.to_lower p.log_level) ∷ []

abbrev pub set_log : Platform → WafDl → List Event
set_log p dl =
    if text_eq p.log_level []
    then []
    else set_callback p (p.dlsym dl.handle (bytes "ddwaf_set_log_cb"))

-- What follows `tryCall`: after an error the library is closed, and `dl` is still returned.
abbrev pub after_call : Platform → WafDl → Option LoadError → Opened
after_call p dl none = (some dl, none, opened dl.handle ∷ called_version dl.handle ∷ set_log p dl)
after_call p dl (some err) = (
  some dl,
  some (joined err (p.dlclose dl.handle)),
  opened dl.handle ∷ called_version dl.handle ∷ closed_library dl.handle ∷ [],
)

-- What follows `resolveWafSymbols`.
abbrev pub after_resolve : Platform → ℕ → LoadError ⊎ WafSymbols → Opened
after_resolve p handle (inl err) =
    (none, some (joined err (p.dlclose handle)), opened handle ∷ closed_library handle ∷ [])
after_resolve p handle (inr symbols) =
    let dl : WafDl = record { symbols = symbols; handle = handle } in
    after_call p dl (try_call (p.call_version dl))

-- What follows `Dlopen`.
unfoldable pub after_dlopen : Platform → LoadError ⊎ ℕ → Opened
unfolding resolve_waf_symbols
after_dlopen p (inl err) = (none, some err, [])
after_dlopen p (inr handle) = after_resolve p handle (resolve_waf_symbols p handle)

-- The deferred `os.Remove`.
abbrev pub with_remove : Option LoadError → Option LoadError → Option LoadError
with_remove err none = err
with_remove none (some rm_err) = some rm_err
with_remove (some err) (some rm_err) = some (along_with err rm_err)

-- `NewWafDl`, after the file was dumped or not.
abbrev pub removing : Platform → Text → List Event → Opened → Opened
removing p file dumped (dl, err, events) =
    (dl, with_remove err (p.remove file), dumped ++ (events ++ removed file ∷ []))

abbrev pub after_dump : Platform → Text × Option LoadError × List Event → Opened
after_dump p (file, some err, dumped) = (none, some err, dumped)
after_dump p (file, none, dumped) = removing p file dumped (after_dlopen p (p.dlopen file))

unfoldable pub new_waf_dl : Platform → Opened
unfolding dump_embedded_waf after_dlopen
new_waf_dl p = after_dump p (dump_embedded_waf p)
