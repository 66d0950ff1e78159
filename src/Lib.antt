-- ===== src/Lib.antt =====
-- The parts of go-libddwaf, the Go bindings of Datadog's in-app WAF, that carry its own logic: the
-- library is loaded once, Go values are encoded into objects that the C library libddwaf reads, what
-- libddwaf answers is decoded, a handle counts the references to libddwaf's instance, timers and
-- metrics add up the time that the parts of a run take, and a context turns libddwaf's answer into a
-- result.
--
-- Files and code:
-- - WafObject (internal/bindings/ctypes.go): `WafObject`, its predicates, the type and limit constants.
-- - Memory: the memory that Go and libddwaf share, as numbered blocks of bytes or of objects; address
--   0 is nil. Casts and pointer arithmetic (internal/unsafe/utils.go) are reads of a block, and a read
--   outside of it is a fault. Memory/Growth: how memory changes while an encoder runs.
-- - RefPool (cgo_ref_pool.go): `cgoRefPool` and its Alloc methods.
-- - GoValue: what package reflect shows of a Go value, with a heap for its pointers.
-- - Truncation (encoder.go): `TruncationReason` and `addTruncation`.
-- - Encoder (encoder.go): state, strings, field names; Encoder/Containers: `encodeArray`, `encodeMap`,
--   `encodeStruct`, `encodeMapKey`; Encoder/Encode: `encode`. An object is passed by value and returned,
--   where the code writes through a pointer that nothing else holds.
-- - Encoder/Depth (encoder.go): `depthOf`, `measureObjectDepth` and `Encode`; Encoder/Depth/Ends,
--   /Children, /Exact and /Whole: their theorems.
-- - Tree, Tree/Spec: the specification, the tree of WAF values that a Go value stands for;
--   Tree/Holds: an object in memory represents a tree; Tree/Limits: trees keep to the limits.
-- - Encoder/Filled, Encoder/Correct, Encoder/Roundtrip: the encoder against the specification.
-- - Encoder/Safe: the encoder under any timer, what can be read and what stays referenced;
--   Encoder/Tagged: the type that an object gets and the key that it keeps.
-- - Decoder (decoder.go): memory reads; Decoder/Objects: `decodeObject`, `decodeArray`, `decodeMap`;
--   Decoder/Reports: the decoders of diagnostics; Tree/ReadBack: the decoder against the specification.
-- - Tree/Reports: the specification of ruleset reports, the tree that stands for diagnostics;
--   Tree/Reports/Entries, /Diagnoses and /Whole: the decoders of diagnostics against it.
-- - Diagnostics (waf.go): the diagnostics records and `TopLevelError`. Errors (errors/waf.go): the
--   errors as data; Errors/Messages (errors/waf.go, errors/support.go): their messages.
-- - Bindings (internal/bindings/waf_dl.go, internal/bindings/safe.go, internal/lib/lib.go): `NewWafDl`,
--   `resolveWafSymbols`, `tryCall` and `DumpEmbeddedWAF`, with what the packages os and purego and the
--   library answer as a record; what they do outside is a list of events. Bindings/Symbols,
--   Bindings/Events, Bindings/Loading, Bindings/Closing: their theorems. Bindings/Calls: the methods
--   of `WafDl` that call libddwaf, with purego's call as a parameter. Bindings/Strings
--   (internal/unsafe/utils.go, internal/bindings/waf_dl.go): `Gostring`, `Cstring` and
--   `WafKnownAddresses` over a memory of bytes; Bindings/Strings/Laws, /Copies: their theorems.
-- - Loader (waf.go): the package variables, `Load`, `Health`, `SupportsTarget` and `Version`, one call at a
--   time; Loader/Once and Loader/Health: their theorems.
-- - Loader/Targets (internal/support, and the build constraints of internal/bindings and internal/log):
--   what is compiled for a target, which is a record of build tags, and what the initialisers register.
-- - Handle (handle.go): `addRefCounter`, `retain`, `release`, `Close`; Handle/Lifetime: one caller at a
--   time; Handle/Race: concurrent clients as a schedule of atomic actions, in which every loop of
--   compare-and-swap can be interrupted; Handle/Race/Invariant, /Safety, /Progress, /Bounded: theorems.
--   Handle/Creation: `NewHandle`, `newConfig` and `Update`, with the results of `Load`, ddwaf_init and
--   ddwaf_update as parameters; Handle/Creation/Laws: their theorems. Handle/Queries: `Diagnostics` and
--   `Addresses`.
-- - Context (context.go): `unwrapWafResult`, `goRunError` of handle.go and the record of truncations;
--   Context/Merge: `merge`; Context/Laws, Context/Unwrap: their theorems. Context/Run, Context/Run/Whole:
--   `Run`, `run` and `encodeOneAddressType`, with ddwaf_run, the readings of the clock and the Go heap as
--   parameters, one run at a time; a deferred function is a step after what it follows.
--   Context/Run/Objects, /Encodings, /Steps and /Laws: their theorems. Context/Life:
--   `NewContextWithBudget`, `NewContext` and `Close`, with ddwaf_context_init as a parameter;
--   Context/Life/Laws: their theorems. Context/Sequence: runs that follow one another, and a client that
--   makes a context, runs it and closes it; Context/Sequence/Laws, /Borrowed: their theorems.
--   Context/Race: concurrent calls of `Run` and `Close` on one context as a schedule of actions, each on
--   what the calls share: the mutex, the truncations, the pool, libddwaf's context and the counter of
--   timeouts. What a call of `Run` decides by its own timers and encoders, and by the context's timer,
--   is given with it and arbitrary. Context/Race/Sums, /Pools, /Counts and /Merges: sums that every
--   interleaving keeps, with Context/Race/Fresh: what is read under the lock stays true; /Works, /Settled:
--   what every call has done at the end; /Safety and /Progress: their theorems. Context/Stats (context.go,
--   metrics.go, encoder.go): `Stats`, the totals, `Stats.Metrics` and `TruncationReason.String`;
--   Context/Results (waf.go): `HasEvents`, `HasDerivatives` and `HasActions`.
-- - Timer (timer/config.go, timer/base_timer.go): options, `Start`, `Spent`, `Remaining`, `Exhausted` and
--   `Stop` with the time as an argument; Timer/Nodes (timer/node_timer.go, timer/component.go): the sums
--   of a node and `childStopped` along the ancestors; Timer/Trees (timer/node_timer.go):
--   `NewTreeTimer`, `NewNode`, `NewLeaf`, `MustLeaf`. Timer/Timed (timer/base_timer.go): `Timed`, `Stop`
--   with the ancestors, and a leaf that stops before its node; Timer/Clock (timer/clock.go): the cache of the clock. Timer/Laws,
--   Timer/Reports: theorems.
-- - Metrics (metrics.go): `metricsStore` and its operations; Metrics/Laws: how they relate.
-- - Log (internal/log/log.go): `Level`, `LevelNamed` and `String`, with strings.ToLower as a parameter;
--   Log/Names: their theorem. Log/Messages (internal/log/log.go, internal/log/log_purego.go): the entry
--   that is printed, and the callback. Log/Startup (also internal/log/log_unsupported.go): the filter
--   that the initialiser compiles, and the pointer to the callback.
-- - Base: names from the libraries, lists, texts as lists of bytes, integers with wrap-around.
--
-- Bounds and fuel. `encode` recurs on the depth that is left, as the code does. `resolvePointer`
-- follows at most eight pointers. `decodeObject` of the model has fuel for levels of nesting, since
-- memory could be cyclic; one level more than the encoder's depth is enough for all that it encodes.
-- `depth_of` has fuel for levels of a value that may contain itself; one level more than the questions
-- that its context answers before it is done is enough.
-- An int32 or int64 wraps around, a time.Duration is an int64. The timer is an arbitrary sequence of
-- answers; the theorems on trees assume one that never expires, those of Encoder/Safe, Encoder/Tagged
-- and Context/Run hold for every one. The order in which Go iterates over a map is that of the entries
-- of the value.
--
-- `Gostring` has fuel for the bytes it looks at; one more than the text has is enough. A schedule of
-- concurrent calls is a list of the numbers of those that act, of any length.
--
-- Not modelled: libddwaf itself, which is not code of the repository; the locks and atomics of the
-- timers and the metrics, whose operations follow one another; the methods of the bindings of
-- unsupported platforms, which return zero values; and the tool that updates the embedded library,
-- which downloads and writes files. What the environment holds, and the compiler of regular
-- expressions, are parameters.
pub mod Base
pub mod Bindings
pub mod Context
pub mod Decoder
pub mod Diagnostics
pub mod Encoder
pub mod Errors
pub mod GoValue
pub mod Handle
pub mod Loader
pub mod Log
pub mod Memory
pub mod Metrics
pub mod RefPool
pub mod Timer
pub mod Tree
pub mod Truncation
pub mod WafObject
