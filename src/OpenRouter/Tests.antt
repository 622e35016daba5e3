-- ===== src/OpenRouter/Tests.antt =====
-- A small host of the OpenRouter adapter, a stream and a lookup, and what the adapter does on them.
use audr.Base.{ℕ, ◌+◌, ◌≡◌, refl, List, [], ◌∷◌, ◌++◌, Option, none, some, true, false, arith}
use audr.Base.Result.{every, units}
use audr.Base.Text.{digits_from}
use audr.Record.{Json, str, num, obj, end, field, get}
use audr.Adapters.Numbers.{IsReported, nat_double, nat_exact, number}
use audr.Adapters.Scope.{no_attribution}
use audr.Adapters.Slug.{is_provider_slug}
use audr.OpenRouter.Mapping.{chat, Observation, chat_observation, token_usage}
use audr.OpenRouter.Lookup.{Service, LookupOptions, failed, exhausted, threw, find}
use audr.OpenRouter.Meter.{
  Host, Call, keeps, record_observed, fits_run_id, closed, warns, stream_incomplete,
}
use audr.OpenRouter.Counters.{token_usage-conserves}
use audr.OpenRouter.Recorded.{openrouter_reasons, record_count, reason_count, record_observed-once}
use audr.OpenRouter.Valid.{IsHost, AllRecorded, IsIdentified, record_observed-IsIdentified}
use audr.OpenRouter.Stream.{
  Event, asks, settles, cancels, finishes, arrives, ends, Metering, metering, recorded, run, over,
  inspecting,
}
use audr.OpenRouter.Frames.{ChatState, chat_start, inspect_chat, inspect_responses}
use audr.OpenRouter.Resuming.{held}
use audr.OpenRouter.Passing.{run-Passes}
use audr.OpenRouter.Outcomes.{is_calm_run, chat_stream-once, response_stream-once}

abbrev host : Host ℕ
host = record {
  defaults = no_attribution;
  map_resource = λ model vendor. keeps;
  lookup = λ id. failed exhausted;
  to_lower = λ s. s;
  uuid = λ n. "0123456789";
  is_queued = λ r. true;
}

abbrev call : Call
call = record { family = chat; declared = []; attribution = no_attribution; run = none }

abbrev usage : Json
usage = obj (
    field "promptTokens" (num "10") (
      field "completionTokens" (num "4")
        (field "promptTokensDetails" (obj (field "cachedTokens" (num "3") end)) end)))

abbrev last_chunk : Json
last_chunk =
    obj (field "id" (str "gen-1") (field "model" (str "acme/one") (field "usage" usage end)))

abbrev first_chunk : Json
first_chunk = obj (field "id" (str "gen-1") end)

abbrev completed : Json
completed = obj (
    field "type" (str "response.completed") (
      field "response"
        (obj (field "id" (str "gen-2") (field "model" (str "acme/two") (field "usage" usage end))))
        end))

abbrev seen : Option (Observation ℕ)
seen = chat_observation last_chunk [] none none

abbrev whole_stream : Json → List Event
whole_stream frame =
    asks
    ∷ arrives first_chunk
    ∷ settles
    ∷ asks
    ∷ arrives frame
    ∷ settles
    ∷ asks
    ∷ finishes ends
    ∷ []

abbrev service : Service
service = record {
  started = 0;
  before = λ n. n;
  after = λ n. n;
  request = λ n.
      threw (record { status_code = some 404; is_error = true; name = "NotFoundResponseError" });
}

abbrev options : LookupOptions
options = record { max_wait = 3; initial_delay = 1; max_delay = 1 }

program : Unit {0}
unfolding record_count reason_count is_calm_run run inspect_chat inspect_responses metering number
    get units is_provider_slug every find
program = tt

lookup_exhausted : find {W = ℕ} service options 4 ≡ (some (failed exhausted), 3)
unfolding find
lookup_exhausted = refl

usage-IsReported :
    IsReported nat_exact 10
      (some 3)
      none
      (get usage "promptTokens")
      (get (get usage "promptTokensDetails") "cachedTokens")
      (get (get usage "promptTokensDetails") "cacheWriteTokens")
unfolding number get digits_from
usage-IsReported = record {
  whole_total = refl;
  first_part = refl;
  second_part = refl;
  bound = omega arith;
  parts = omega arith;
}

token_usage-conserves_example :
    (n : ℕ) × ((token_usage {W = ℕ} usage "promptTokens"
        (get usage "promptTokensDetails")
        "completionTokens"
        usage).input_tokens
      ≡ some n)
    × ((token_usage {W = ℕ} usage "promptTokens"
          (get usage "promptTokensDetails")
          "completionTokens"
          usage).cache_read_tokens
        ≡ some 3)
    × ((token_usage {W = ℕ} usage "promptTokens"
          (get usage "promptTokensDetails")
          "completionTokens"
          usage).cache_write_tokens
        ≡ none)
    × (n + 3 + 0 ≡ 10)
token_usage-conserves_example =
    token_usage-conserves nat_exact usage (get usage "promptTokensDetails") usage "promptTokens"
      "completionTokens" 10 (some 3) none usage-IsReported

record_observed-once_example :
    record_count (record_observed host call 5 seen)
      + reason_count (record_observed host call 5 seen)
    ≡ 1
record_observed-once_example = record_observed-once host call 5 seen

host-IsHost : IsHost host
unfolding fits_run_id units
host-IsHost = record { uuid = λ n. refl; mapping = λ model vendor. tt }

record_observed-IsIdentified_example : AllRecorded IsIdentified (record_observed host call 5 seen)
record_observed-IsIdentified_example = record_observed-IsIdentified host host-IsHost call tt 5 seen

run-Passes_example :
    (run (inspect_chat host call 5) (whole_stream last_chunk) (metering chat_start)).yielded
      ++ held (run (inspect_chat host call 5) (whole_stream last_chunk) (metering chat_start)).phase
    ≡ (run (inspect_chat host call 5) (whole_stream last_chunk) (metering chat_start)).seen
run-Passes_example = run-Passes (inspect_chat host call 5) (whole_stream last_chunk) chat_start

chat_calm :
    is_calm_run (inspect_chat host call 5) (whole_stream last_chunk) (metering chat_start) ≡ true
unfolding is_calm_run metering inspect_chat
chat_calm = refl

chat_over :
    (run (inspect_chat host call 5) (whole_stream last_chunk) (metering chat_start)).phase ≡ over
unfolding run metering inspect_chat
chat_over = refl

chat_recorded :
    record_count
      (run (inspect_chat host call 5) (whole_stream last_chunk) (metering chat_start)).effects
    ≡ 1
unfolding run metering inspect_chat record_count
chat_recorded = refl

chat_stream-once_example :
    record_count
        (run (inspect_chat host call 5) (whole_stream last_chunk) (metering chat_start)).effects
      + reason_count
          (run (inspect_chat host call 5) (whole_stream last_chunk) (metering chat_start)).effects
    ≡ 1
chat_stream-once_example =
    chat_stream-once host call 5 (whole_stream last_chunk) chat_calm chat_over

response_calm :
    is_calm_run (inspect_responses host call 5) (whole_stream completed) (metering tt) ≡ true
unfolding is_calm_run metering inspect_responses
response_calm = refl

response_over :
    (run (inspect_responses host call 5) (whole_stream completed) (metering tt)).phase ≡ over
unfolding run metering inspect_responses
response_over = refl

response_stream-once_example :
    record_count
        (run (inspect_responses host call 5) (whole_stream completed) (metering tt)).effects
      + reason_count
          (run (inspect_responses host call 5) (whole_stream completed) (metering tt)).effects
    ≡ 1
response_stream-once_example =
    response_stream-once host call 5 (whole_stream completed) response_calm response_over

-- The stream at its last chunk, in inspection.
abbrev at_last : Metering ChatState ℕ
at_last = record {
  is_open = true;
  failure = false;
  phase = inspecting last_chunk;
  inspector = chat_start;
  effects = [];
  seen = last_chunk ∷ [];
  yielded = [];
}

completes : (inspect_chat host call 5 chat_start last_chunk).verdict ≡ recorded
unfolding inspect_chat
completes = refl

-- Cancelled while its last frame is inspected, it is reported as incomplete, and recorded after all.
cancelled_is_recorded :
    (run (inspect_chat host call 5) (cancels ∷ settles ∷ []) at_last).effects
    ≡ ([] ++ (warns (stream_incomplete closed) ∷ []))
      ++ (inspect_chat host call 5 chat_start last_chunk).effects
unfolding run inspect_chat
cancelled_is_recorded = refl
