-- ===== src/Context/Sequence/Tests.antt =====
-- context.go: a life of a context, and the witnesses of the theorems on it.
use go_libddwaf.Base.{ℕ, ◌≡◌, refl, Option, none, some, List, [], ◌∷◌, arith, length}
use go_libddwaf.Base.Int.{pos}
use go_libddwaf.Diagnostics.{no_diagnostics}
use go_libddwaf.Encoder.{resolve_pointer, encode_map_key_from_string}
use go_libddwaf.Encoder.Containers.{encode_map_key}
use go_libddwaf.Encoder.Depth.{encode_value}
use go_libddwaf.Timer.{start_timer}
use go_libddwaf.Handle.{Handle, new_handle}
use go_libddwaf.Decoder.{Decoded, ok, err, fault, unfinished}
use go_libddwaf.Context.Run.{Context, Ran}
use go_libddwaf.RefPool.{alloc_waf_map_key, alloc_waf_array}
use go_libddwaf.Context.Run.Whole.{run}
use go_libddwaf.Context.Run.Samples.{world, fresh, data_of_7}
use go_libddwaf.Context.Run.Encodings.{Yields}
use go_libddwaf.Context.Sequence.{Request, runs, Session, session}
use go_libddwaf.Context.Sequence.Laws.{timeouts, Lasting, runs-Lasting}
use go_libddwaf.Context.Sequence.Borrowed.{Returned, session-Returned}

abbrev request : ℕ → Request
request late = record { world = world late; address_data = data_of_7 }

-- The timeouts returned, those counted, and the blocks that the pool keeps.
abbrev lasting : Decoded (List Ran × Context) → Option (ℕ × ℕ × ℕ)
lasting (ok (rs, last)) = some (timeouts rs, last.timeout_count, length last.cgo_refs.string_refs)
lasting (err e) = none
lasting fault = none
lasting unfinished = none

three_requests : List Request
three_requests = request 0 ∷ request 1 ∷ request 0 ∷ []

-- Every run costs 150 ns by the account of the context, so that the third is refused.
run_thrice : lasting (runs (fresh (pos 200)) three_requests) ≡ some (2, 2, 2)
unfolding runs three_requests encode_value start_timer resolve_pointer encode_map_key
    encode_map_key_from_string run alloc_waf_map_key alloc_waf_array
run_thrice = refl

runs-Lasting_example : Yields (Lasting (fresh (pos 200))) (runs (fresh (pos 200)) three_requests)
runs-Lasting_example = runs-Lasting (fresh (pos 200)) three_requests

abbrev sample_handle : Handle
sample_handle = new_handle no_diagnostics 7

-- ddwaf_context_init: context 4 of every instance.
abbrev four : ℕ → ℕ
four c = 4

-- The numbers of runs, of calls of the library and of instances destroyed.
abbrev numbers : Decoded Session → Option (ℕ × ℕ × ℕ)
numbers (ok s) = some (length s.rans, length s.calls, length s.destroyed)
numbers (err e) = none
numbers fault = none
numbers unfinished = none

session_returns : numbers (session four [] sample_handle (pos 200) three_requests) ≡ some (3, 2, 0)
unfolding session three_requests encode_value start_timer resolve_pointer encode_map_key
    encode_map_key_from_string run alloc_waf_map_key alloc_waf_array
session_returns = refl

session-Returned_example :
    Yields (Returned 7 1) (session four [] sample_handle (pos 200) three_requests)
session-Returned_example =
    session-Returned four [] sample_handle (pos 200) three_requests 7 0 (omega arith)
      (record { counted = refl; live = refl }) refl
