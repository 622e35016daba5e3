-- ===== src/Chargebee/Sink.antt =====
-- sinks/chargebee/typescript/src/sink.ts with `classify` of retry.ts: `deliver` and the requests that it
-- makes. The network, `Date.parse` and `JSON.stringify` are parameters. Delays and diagnostics are left out.
use Prim.Native.String
use audr.Base.{
  ℕ, zero, suc, ◌+◌, ◌-◌, Bool, true, false, not, ◌||◌, List, [], ◌∷◌, ◌++◌, map, Option, none,
  some, String, str_eq, ◌==◌, if◌then◌else◌, is_empty, filter_by, names,
}
use audr.Base.Text.{decimal}
use audr.Base.Result.{Result, ok, error, and_then}
use audr.Record.{
  get, Instant, AudrRecord, Json, Items, bool, num, str, arr, nil, cons, RejectedRecord,
  BatchResult, accepted, failed,
}
use audr.Chargebee.Event.{UsageEvent, validate_event}
use audr.Chargebee.Flatten.{flatten}

-- What `transport.post` comes to: `ClosedError`, any other error by the name that `transportError`
-- gives it, or a response with its body as JSON (`undefined` if it is none).
pub data Reply : Type 0 where
  closed_error : Reply
  network_error : String → Reply
  response : ℕ → Json → Reply

pub record World : Type 0 where
  pub reply : ℕ → Reply
  pub max_attempts : ℕ
  pub parse_date : String → Instant
  pub stringify : Json → String
  pub separator : String

pub data FailureClass : Type 0 where
  transient credential permanent : FailureClass

-- `TRANSIENT_STATUSES.has(status)`
abbrev pub transient_status : ℕ → Bool
transient_status status =
    status == 408
    || status == 429
    || status == 500
    || status == 502
    || status == 503
    || status == 504

unfoldable pub classify : ℕ → FailureClass
classify status =
    if transient_status status then transient else if status == 401 then credential else permanent

abbrev bool_text : Bool → String
bool_text true = "true"
bool_text false = "false"

-- `String(value)` of a text, a number or a Boolean. A number in JSON is finite.
abbrev pub scalar_text : Json → Option String
scalar_text (str s) = some s
scalar_text (num n) = some n
scalar_text (bool b) = some (bool_text b)
scalar_text _ = none

abbrev first_text : List (Option String) → Option String
first_text [] = none
first_text (some s ∷ rest) = some s
first_text (none ∷ rest) = first_text rest

-- `errorCode`
unfoldable pub error_code : Json → Option String
unfolding get
error_code entry =
    first_text
      (map (λ name. scalar_text (get entry name)) ("api_error_code" ∷ "error_code" ∷ "code" ∷ []))

-- `occurrences.get(id) ?? 0`
unfoldable pub occurrences : List String → String → ℕ
occurrences [] id = 0
occurrences (x ∷ xs) id = (if str_eq x id then 1 else 0) + occurrences xs id

-- The locals of the loop in `#partial`.
pub record Matched : Type 0 where
  pub rejected : List RejectedRecord
  pub rejected_ids : List String
  pub unattributed : ℕ

unfoldable pub repeat : ℕ → RejectedRecord → List RejectedRecord
repeat zero r = []
repeat (suc n) r = r ∷ repeat n r

-- The body of that loop, at the entry's `deduplication_id`.
unfoldable pub match_id : List String → Json → Json → Matched → Matched
unfolding names occurrences repeat error_code
match_id ids (str id) entry m =
    if occurrences ids id == 0 || names m.rejected_ids id
    then record m { unattributed = m.unattributed + 1 }
    else record m {
      rejected_ids = id ∷ m.rejected_ids;
      rejected =
          m.rejected
          ++ repeat (occurrences ids id) (record { record_id = id; detail = error_code entry });
    }
match_id ids _ entry m = record m { unattributed = m.unattributed + 1 }

unfoldable pub match_entries : List String → Items → Matched → Matched
unfolding match_id get
match_entries ids nil m = m
match_entries ids (cons entry rest) m =
    match_entries ids rest (match_id ids (get entry "deduplication_id") entry m)

unfoldable pub reported : List String → Matched → BatchResult
unfolding names
reported ids m =
    if m.unattributed == 0
    then accepted m.rejected []
    else accepted m.rejected (filter_by (λ id. not (names m.rejected_ids id)) ids)

-- `#partial`, at `failed_events`.
unfoldable pub partial_failed : List String → Json → BatchResult
unfolding match_entries reported
partial_failed ids (arr entries) =
    reported ids
      (match_entries ids entries (record { rejected = []; rejected_ids = []; unattributed = 0 }))
partial_failed ids _ = accepted [] ids

abbrev pub ids : List UsageEvent → List String
ids = map (λ e. e.deduplication_id)

-- `#partial`
unfoldable pub partial : List UsageEvent → Json → BatchResult
unfolding partial_failed get
partial events payload = partial_failed (ids events) (get payload "failed_events")

-- One round of the loop of `#send`: its `return`, or the detail of the failure that a retry may mend.
pub data Attempt : Type 0 where
  done : BatchResult → Attempt
  retry : String → Attempt

abbrev http : ℕ → String
http status = String.◌++◌ "http_" (decimal status)

abbrev respond : FailureClass → ℕ → Attempt
respond transient status = retry (http status)
respond credential status = done (failed false (some "auth"))
respond permanent status = done (failed false (some (http status)))

unfoldable pub attempt : List UsageEvent → Reply → Attempt
unfolding partial classify failed decimal
attempt events closed_error = done BatchResult.closed
attempt events (network_error name) = retry name
attempt events (response status payload) =
    if status == 207
    then done (partial events payload)
    else if status == 202
    then done (accepted [] [])
    else if status == 413
    then done (failed false (some "payload_too_large"))
    else respond (classify status) status

module _ (world : World) (events : List UsageEvent) where
  -- The loop of `#send`, with `left` attempts after this one and `n` requests made before it;
  -- with the number of requests made.
  unfoldable pub send_from : ℕ → ℕ → BatchResult × ℕ
  unfolding attempt failed
  send_from zero n = elim (attempt events (world.reply n)) [
    | done r ↦ (r, n + 1)
    | retry detail ↦ (failed true (some detail), n + 1)
  ]
  send_from (suc left) n = elim (attempt events (world.reply n)) [
    | done r ↦ (r, n + 1)
    | retry detail ↦ send_from left (n + 1)
  ]

  -- `#send`
  unfoldable pub send : BatchResult × ℕ
  unfolding send_from
  send = send_from (world.max_attempts - 1) 0

-- The `try` of the loop of `deliver`.
unfoldable pub encode_for : World → AudrRecord → String → Result UsageEvent
unfolding flatten validate_event
encode_for world r subscription_id =
    and_then (flatten world.stringify world.separator r.body) (λ properties.
      validate_event (record {
        subscription_id = subscription_id;
        usage_timestamp = world.parse_date r.event_time;
        deduplication_id = r.record_id;
        properties = properties;
      }))

-- The body of that loop, with its `if`, at the record's `subscription_id`.
unfoldable pub encode_by : World → AudrRecord → Option String → Result UsageEvent
unfolding encode_for
encode_by world r none = error "missing_subscription_id"
encode_by world r (some s) =
    if str_eq s "" then error "missing_subscription_id" else encode_for world r s

unfoldable pub encode : World → AudrRecord → Result UsageEvent
unfolding encode_by
encode world r = encode_by world r r.subscription_id

-- The locals of `deliver` after the loop.
pub record Encoded : Type 0 where
  pub events : List UsageEvent
  pub rejected : List RejectedRecord

unfoldable pub collect : AudrRecord → Result UsageEvent → Encoded → Encoded
collect r (ok event) later = record later { events = event ∷ later.events }
collect r (error detail) later = record later {
  rejected = record { record_id = r.record_id; detail = some detail } ∷ later.rejected;
}

unfoldable pub encode_batch : World → List AudrRecord → Encoded
unfolding collect encode
encode_batch world [] = record { events = []; rejected = [] }
encode_batch world (r ∷ rs) = collect r (encode world r) (encode_batch world rs)

abbrev pub with_rejected : List RejectedRecord → BatchResult → BatchResult
with_rejected rejected (accepted more unknown) = accepted (rejected ++ more) unknown
with_rejected rejected result = result

unfoldable pub finish : World → Encoded → BatchResult
unfolding send
finish world encoded =
    if is_empty encoded.events
    then accepted encoded.rejected []
    else with_rejected encoded.rejected (send world encoded.events).0

unfoldable pub deliver : World → Bool → List AudrRecord → BatchResult
unfolding encode_batch finish
deliver world is_closed batch =
    if is_closed then BatchResult.closed else finish world (encode_batch world batch)
