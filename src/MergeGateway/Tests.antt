-- ===== src/MergeGateway/Tests.antt =====
-- A usage object of Merge Gateway with cache reads and reasoning, a call and a stream.
use audr.Base.{
  ℕ, List, [], ◌∷◌, true, false, String, ◌+◌, ◌≡◌, refl, none, some, if◌then◌else◌, arith,
}
use audr.Base.Text.{digits_from}
use audr.Record.{Json, undefined, null, num, obj, str, arr, cons, nil, field, end, get}
use audr.Adapters.Numbers.{LlmUsage, IsReported, nat_double, nat_exact, number}
use audr.Adapters.Scope.{no_attribution, merge_attribution}
use audr.Adapters.Hosting.{keeps}
use audr.Adapters.Recording.{text, multimodal}
use audr.Adapters.Effects.{warns, record_count, reason_count}
use audr.MergeGateway.Meter.{
  gateway_reasons, Host, Call, responses_create, attribution_unresolved, response_modality,
  resolves, measure,
}
use audr.MergeGateway.Streams.{Event, asks, arrives, returns, Metering, metering, run}
use audr.MergeGateway.Recorded.{IsMeasured, measure-once}
use audr.MergeGateway.Outcomes.{stream-once, is_open_when_over}
use audr.MergeGateway.Mapping.{is_null, response_usage, response_usage-conserves}

abbrev usage : Json
usage = obj (
    field "input_tokens" (num "10") (
      field "cache_read_input_tokens" (num "4") (
        field "cache_creation_input_tokens" null
          (field "output_tokens" (num "7") (field "reasoning_output_tokens" (num "2") end)))))

unreadable :
    (response_usage {W = ℕ} (
      obj
        (field "input_tokens" (num "10") (field "cache_read_input_tokens" null end)))).input_tokens
    ≡ none
unfolding response_usage
unreadable = refl

prompt-IsReported :
    IsReported nat_exact 10
      (some 4)
      none
      (get usage "input_tokens")
      (get usage "cache_read_input_tokens")
      (get usage "cache_creation_input_tokens")
unfolding number get digits_from
prompt-IsReported = record {
  whole_total = refl;
  first_part = refl;
  second_part = refl;
  bound = omega arith;
  parts = omega arith;
}

completion-IsReported :
    IsReported nat_exact 7
      (some 2)
      none
      (get usage "output_tokens")
      (get usage "reasoning_output_tokens")
      undefined
unfolding number get digits_from
completion-IsReported = record {
  whole_total = refl;
  first_part = refl;
  second_part = refl;
  bound = omega arith;
  parts = omega arith;
}

response_usage-conserves_example :
    let u : LlmUsage ℕ = response_usage usage in
    (n m : ℕ) × (u.input_tokens
      ≡ (if is_null (get usage "cache_read_input_tokens") then none else some n))
    × (u.output_tokens ≡ some m)
    × (u.cache_read_tokens ≡ some 4)
    × (u.cache_write_tokens ≡ none)
    × (u.reasoning_tokens ≡ some 2)
    × (n + 4 + 0 ≡ 10)
    × (m + 2 ≡ 7)
response_usage-conserves_example =
    response_usage-conserves nat_exact usage 10 7 (some 4) none (some 2) prompt-IsReported
      completion-IsReported

abbrev host : Host ℕ
host = record {
  defaults = record no_attribution { environment = some "production" };
  map_resource = λ model vendor. keeps;
  uuid = λ n. "0197a3b0-0000-7000-8000-000000000000";
  is_queued = λ r. true;
}

abbrev call : Call
call = record {
  operation = responses_create;
  modality = text;
  attribution = no_attribution;
  run = none;
}

abbrev frame : String → Json
frame object = obj (field "object" (str object) (field "model" (str "openai/gpt-5.4") end))

-- Two frames, the second of which completes the response, and one that follows.
abbrev events : List Event
events =
    asks
    ∷ arrives (frame "response.stream")
    ∷ asks
    ∷ arrives (frame "response.done")
    ∷ asks
    ∷ arrives null
    ∷ returns
    ∷ []

is_recorded : (run host call 12 events metering).is_open ≡ false
unfolding run metering
is_recorded = refl

is_passed :
    (run host call 12 events metering).yielded
    ≡ frame "response.stream" ∷ frame "response.done" ∷ null ∷ []
unfolding run metering
is_passed = refl

many :
    response_modality
      (obj (field "modalities" (arr (cons (str "text") (cons (str "audio") nil))) end))
    ≡ multimodal
unfolding response_modality
many = refl

stream-once_example :
    let m : Metering ℕ = run host call 12 events metering in
    (m.yielded ≡ m.seen)
    × (record_count m.effects + reason_count m.effects ≡ (if m.is_open then 0 else 1))
    × (is_open_when_over m.phase m.is_open ≡ false)
stream-once_example = stream-once host call 12 events

-- Without an environment nothing is recorded.
is_unresolved :
    measure
      (record host { defaults = no_attribution })
      12
      (record { attribution = no_attribution; run = none })
      responses_create
      text
      (resolves (frame "response"))
    ≡ warns attribution_unresolved ∷ []
unfolding measure
is_unresolved = refl

measure-once_example : IsMeasured (some "production") (resolves (frame "response")) (
    measure host 12
      (record { attribution = no_attribution; run = none })
      responses_create
      text
      (resolves (frame "response")))
unfolding merge_attribution
measure-once_example =
    measure-once host 12 (record { attribution = no_attribution; run = none }) responses_create text
      (resolves (frame "response"))
