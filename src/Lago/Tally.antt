-- ===== src/Lago/Tally.antt =====
-- sinks/lago/typescript/src/tally.ts: the class `Tally`. The set `#settled` is a list of which only
-- membership is read. The code has no `taken`: the identifiers of the events that were counted in `#confirmed`.
use audr.Base.{
  ℕ, ◌+◌, Bool, true, false, not, ◌||◌, List, [], ◌∷◌, ◌++◌, map, Option, none, some, String, ltb,
  if◌then◌else◌, length, is_empty, filter_by, names,
}
use audr.Record.{RejectedRecord, BatchResult, accepted, failed as batch_failed}
use audr.Lago.Event.{LagoEvent}

pub data Stop : Type 0 where
  closed aborted unconfirmed : Stop
  failed : Bool → String → Stop

pub record Tally : Type 0 where
  pub events : List LagoEvent
  pub rejected : List RejectedRecord
  pub refused : List RejectedRecord
  pub settled : List String
  pub confirmed : ℕ
  pub taken : List String
  pub stop : Option Stop

abbrev pub ids : List LagoEvent → List String
ids = map (λ e. e.transaction_id)

unfoldable pub start : List LagoEvent → List RejectedRecord → Tally
start events rejected = record {
  events = events;
  rejected = rejected;
  refused = [];
  settled = [];
  confirmed = 0;
  taken = [];
  stop = none;
}

abbrev pub is_set : Option Stop → Bool
is_set none = false
is_set (some s) = true

-- `stopped`
abbrev pub stopped : Tally → Bool
stopped t = is_set t.stop

unfoldable pub confirm : Tally → List LagoEvent → Tally
confirm t events = record t {
  settled = t.settled ++ ids events;
  confirmed = t.confirmed + length events;
  taken = t.taken ++ ids events;
}

abbrev pub refusal : String → String → RejectedRecord
refusal detail id = record { record_id = id; detail = some detail }

unfoldable pub reject : Tally → String → String → Tally
reject t id detail = record t {
  rejected = t.rejected ++ refusal detail id ∷ [];
  settled = t.settled ++ id ∷ [];
}

unfoldable pub refuse : Tally → List LagoEvent → String → Tally
refuse t events detail = record t {
  refused = t.refused ++ map (refusal detail) (ids events);
  settled = t.settled ++ ids events;
}

-- `#stop ??= stop`
unfoldable pub halt : Tally → Stop → Tally
halt t s = record t { stop = elim t.stop [ none ↦ some s | some first ↦ some first ] }

unfoldable pub unresolved : Tally → List String
unresolved t = filter_by (λ id. not (names t.settled id)) (ids t.events)

-- Whether another record of the batch has a distinct outcome.
abbrev pub is_settled : Tally → Bool
is_settled t = ltb 0 t.confirmed || not (is_empty t.rejected)

abbrev named : Tally → BatchResult
named t = accepted (t.rejected ++ t.refused) (unresolved t)

unfoldable pub result_of : Option Stop → Tally → BatchResult
unfolding unresolved batch_failed
result_of none t = accepted t.rejected (unresolved t)
result_of (some aborted) t = named t
result_of (some unconfirmed) t = named t
result_of (some closed) t = if is_settled t then named t else BatchResult.closed
result_of (some (failed retryable detail)) t =
    if is_settled t then named t else batch_failed retryable (some detail)

unfoldable pub result : Tally → BatchResult
unfolding result_of
result t = result_of t.stop t
