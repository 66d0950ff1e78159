-- ===== src/Context/Race.antt =====
-- context.go under concurrency: calls of `Run` and `Close` on one context, of which a scheduler picks
-- the one that makes its next action. What a run decides by its own timers and its own encoders is
-- given with it; the timers' and the metrics' own locks are left out.
pub mod Sums
pub mod Safety
pub mod Pools
pub mod Counts
pub mod Merges
pub mod Fresh
pub mod Works
pub mod Settled
pub mod Progress
mod Tests
use go_libddwaf.Base.{
  ℕ, suc, ◌+◌, ◌%◌, ◌^◌, Bool, true, false, Option, none, some, List, [], ◌∷◌, get_elem?, set,
  length, ltb, if◌then◌else◌,
}
use go_libddwaf.RefPool.{RefPool, no_refs, append}
use go_libddwaf.Truncation.{Truncations}
use go_libddwaf.Context.{record_truncations}

-- What a call of `Run` with data brings: the truncations of its two encoders, the blocks of the persistent one, and
-- what the timers say: of the context, after each encoding, of the run; and whether ddwaf_run times out.
pub record Work : Type 0 where
  pub first : Truncations
  pub second : Truncations
  pub refs : RefPool
  pub spent_before : Bool
  pub first_expired : Bool
  pub second_expired : Bool
  pub spent_inside : Bool
  pub call_timed_out : Bool

-- Where `Run` stands. It holds the lock from `merging` and `checking` to `unlocking`. To add to the
-- truncations or to the pool takes two actions: the field is read, and what was made of it is stored.
pub data Stage : Type 0 where
  entering encoded_first merging_first storing_first unlocking_first : Stage
  encoded_second merging_second storing_second unlocking_second : Stage
  waiting checking calling keeping storing unlocking counting done : Stage

-- A call of `Run`, with what it has read of the context's truncations and pool, and with what it has
-- done; the last three fields are only there to be counted.
pub record Runner : Type 0 where
  pub stage : Stage
  pub work : Work
  pub seen : Truncations
  pub seen_refs : RefPool
  pub timed_out : Bool
  pub merged_first : Bool
  pub merged_second : Bool
  pub kept : Bool

-- Where `Close` stands; it holds the lock from `destroying` to `unlocking_close`.
pub data Closer : Type 0 where
  closing destroying clearing_refs clearing_context releasing unlocking_close closed : Closer

pub data Client : Type 0 where
  runner : Runner → Client
  closer : Closer → Client

-- The context's fields, and what was done outside: `calls` and `destroyed` are the contexts that
-- ddwaf_run and ddwaf_context_destroy were called with, `freed` the blocks that `Close` let go, and
-- `released` counts the calls of `handle.release`.
pub record Shared : Type 0 where
  pub locked : Bool
  pub truncations : Truncations
  pub cgo_refs : RefPool
  pub c_context : ℕ
  pub timeout_count : ℕ
  pub calls : List ℕ
  pub destroyed : List ℕ
  pub freed : RefPool
  pub released : ℕ

abbrev pub go_to : Stage → Runner → Client
go_to stage r = runner (record r { stage = stage })

-- A return of the timeout.
abbrev pub give_up : Stage → Runner → Client
give_up stage r = runner (record r { stage = stage; timed_out = true })

-- Lock: one who finds it taken stays where it is.
abbrev pub acquire : Shared → Client → Client → Shared × Client
acquire s p next = if s.locked then (s, p) else (record s { locked = true }, next)

abbrev pub unlock : Shared → Shared
unlock s = record s { locked = false }

-- After the encodings, where the timer may be exhausted.
abbrev pub after_first : Runner → Client
after_first r = if r.work.first_expired then give_up counting r else go_to encoded_second r

abbrev pub after_second : Runner → Client
after_second r = if r.work.second_expired then give_up counting r else go_to waiting r

-- `context.truncations = merge(...)`, of what was read.
abbrev pub merged : Shared → Truncations → Truncations → Shared
merged s seen new = record s { truncations = record_truncations seen new }

-- One action of `Run`.
unfoldable pub turn : Stage → Shared → Runner → Shared × Client
turn entering s r = (s, if r.work.spent_before then give_up counting r else go_to encoded_first r)
turn encoded_first s r =
    if ltb 0 (length r.work.first)
    then acquire s (runner r) (go_to merging_first r)
    else (s, after_first r)
turn merging_first s r = (s, runner (record r { stage = storing_first; seen = s.truncations }))
turn storing_first s r = (
  merged s r.seen r.work.first,
  runner (record r { stage = unlocking_first; merged_first = true }),
)
turn unlocking_first s r = (unlock s, after_first r)
turn encoded_second s r =
    if ltb 0 (length r.work.second)
    then acquire s (runner r) (go_to merging_second r)
    else (s, after_second r)
turn merging_second s r = (s, runner (record r { stage = storing_second; seen = s.truncations }))
turn storing_second s r = (
  merged s r.seen r.work.second,
  runner (record r { stage = unlocking_second; merged_second = true }),
)
turn unlocking_second s r = (unlock s, after_second r)
turn waiting s r = acquire s (runner r) (go_to checking r)
turn checking s r =
    if r.work.spent_inside
    then (s, give_up unlocking r)
    else (record s { calls = s.c_context ∷ s.calls }, go_to calling r)
turn calling s r = (s, runner (record r { stage = keeping; timed_out = r.work.call_timed_out }))
turn keeping s r = (s, runner (record r { stage = storing; seen_refs = s.cgo_refs }))
turn storing s r = (
  record s { cgo_refs = append r.seen_refs r.work.refs },
  runner (record r { stage = unlocking; kept = true }),
)
turn unlocking s r = (unlock s, go_to counting r)
turn counting s r =
    if r.timed_out
    then (record s { timeout_count = suc s.timeout_count % 2 ^ 64 }, go_to done r)
    else (s, go_to done r)
turn done s r = (s, runner r)

-- One action of `Close`.
unfoldable pub turn_close : Closer → Shared → Shared × Client
turn_close closing s = acquire s (closer closing) (closer destroying)
turn_close destroying s = (record s { destroyed = s.c_context ∷ s.destroyed }, closer clearing_refs)
turn_close clearing_refs s =
    (record s { cgo_refs = no_refs; freed = append s.freed s.cgo_refs }, closer clearing_context)
turn_close clearing_context s = (record s { c_context = 0 }, closer releasing)
turn_close releasing s = (record s { released = suc s.released }, closer unlocking_close)
turn_close unlocking_close s = (unlock s, closer closed)
turn_close closed s = (s, closer closed)

unfoldable pub move : Shared → Client → Shared × Client
unfolding turn turn_close
move s (runner r) = turn r.stage s r
move s (closer c) = turn_close c s

pub record System : Type 0 where
  pub shared : Shared
  pub clients : List Client

abbrev pub moved : System → ℕ → Option Client → System
moved s i none = s
moved s i (some p) =
    let (shared, p') = move s.shared p in record { shared = shared; clients = set s.clients i p' }

-- The client at `i` moves; a number that names no client changes nothing.
unfoldable pub step : System → ℕ → System
unfolding move
step s i = moved s i (get_elem? s.clients i)

unfoldable pub run_clients : System → List ℕ → System
unfolding step
run_clients s [] = s
run_clients s (i ∷ schedule) = run_clients (step s i) schedule

-- A call of `Run` or of `Close` that begins.
pub data Call : Type 0 where
  to_run : Work → Call
  to_close : Call

abbrev pub client_of : Call → Client
client_of (to_run w) = runner (record {
  stage = entering;
  work = w;
  seen = [];
  seen_refs = no_refs;
  timed_out = false;
  merged_first = false;
  merged_second = false;
  kept = false;
})
client_of to_close = closer closing

abbrev pub clients_of : List Call → List Client
clients_of [] = []
clients_of (c ∷ calls) = client_of c ∷ clients_of calls

-- A new context of libddwaf's context `c`.
abbrev pub start : ℕ → List Call → System
start c calls = record {
  shared = record {
    locked = false;
    truncations = [];
    cgo_refs = no_refs;
    c_context = c;
    timeout_count = 0;
    calls = [];
    destroyed = [];
    freed = no_refs;
    released = 0;
  };
  clients = clients_of calls;
}
