-- ===== src/Chargebee/Tests.antt =====
-- Small inputs to the Chargebee sink, and what it does on them.
use audr.Base.Result.{Result, ok, error}
use audr.Chargebee.Credentials.{Url, CredentialOptions, Credentials, resolve_credentials}
use audr.Base.{
  Option, ℕ, zero, suc, ◌≡◌, refl, List, [], ◌∷◌, Option, some, none, String, false, if◌then◌else◌,
  ◌-◌,
}
use audr.Base.Result.{ok}
use audr.Record.{
  pos, negsuc, AudrRecord, Json, str, num, arr, obj, nil, cons, end, field, undefined, accepted,
  dropped,
}
use audr.Pipeline.State.{ended}
use audr.Pipeline.Verdict.{verdict}
use audr.Chargebee.Event.{timestamp}
use audr.Chargebee.Retry.{parse_retry_after}
use audr.Chargebee.Flatten.{flatten}
use audr.Chargebee.Sink.{
  World, Reply, response, network_error, encode_batch, deliver, send, attempt, partial_failed,
}
use audr.Chargebee.Contract.{partial_failed-outcome, named_ids, rejected_id}
use audr.Chargebee.Sending.{IsLast, send-IsLast, deliver-outcome, at_last}
use audr.Chargebee.Rules.{IsSendable, encode_batch-IsSendable}
use audr.Base.{All}

abbrev named : String → Option String → AudrRecord
named id subscription_id = record {
  record_id = id;
  subscription_id = subscription_id;
  feature_id = none;
  event_time = "2026-01-01T00:00:00.000Z";
  corrects = false;
  body = obj (
      field "usage"
        (obj (field "total" (num "3") (field "labels" (obj (field "a.b" (str "x") end)) end)))
        (field "list" (arr (cons (num "1") nil)) end));
}

abbrev batch : List AudrRecord
batch = named "a" (some "sub") ∷ named "b" (some "sub") ∷ named "c" none ∷ []

-- Chargebee refuses the second event, and another that is not in the batch.
abbrev payload : Json
payload = obj (
    field "failed_events"
      (arr (
        cons (obj (field "deduplication_id" (str "b") (field "code" (num "400") end)))
          (cons (obj (field "deduplication_id" (str "z") end)) nil)))
      end)

abbrev replies : ℕ → Reply
replies zero = network_error "ECONNRESET"
replies (suc zero) = response 503 undefined
replies _ = response 207 payload

abbrev world : World
world = record {
  reply = replies;
  max_attempts = 3;
  parse_date = λ _. pos 1767225600000;
  stringify = λ _. "[1]";
  separator = "__";
}

program : Unit {0}
unfolding deliver send attempt encode_batch flatten timestamp partial_failed named_ids
program = tt

deliver-batch :
    deliver world false batch
    ≡ accepted
        (record { record_id = "c"; detail = some "missing_subscription_id" }
          ∷ record { record_id = "b"; detail = some "400" }
          ∷ [])
        ("a" ∷ [])
unfolding program
deliver-batch = refl

flatten-labels :
    flatten world.stringify "__" (named "a" none).body
    ≡ ok (
        ("usage__total", num "3")
        ∷ ("usage__labels__a_b", str "x")
        ∷ ("list__json", str "[1]")
        ∷ [])
unfolding program
flatten-labels = refl

-- 1938-04-24, in 12 digits and the sign.
timestamp-before_1970 : timestamp (negsuc 999999999998) ≡ none
unfolding program
timestamp-before_1970 = refl

partial_failed-outcome_example :
    verdict
      (partial_failed
        ("a" ∷ "b" ∷ [])
        (arr (cons (obj (field "deduplication_id" (str "b") end)) nil)))
      "b"
    ≡ ended dropped
unfolding program
partial_failed-outcome_example =
    partial_failed-outcome ("a" ∷ "b" ∷ [])
      (cons (obj (field "deduplication_id" (str "b") end)) nil) "b" refl

send-IsLast_example :
    IsLast world
      (encode_batch world batch).events
      2
      0
      (send world (encode_batch world batch).events)
send-IsLast_example = send-IsLast world (encode_batch world batch).events

deliver-outcome_example :
    let encoded = encode_batch world batch in
    verdict (deliver world false batch) "b" ≡ (
      if rejected_id encoded.rejected "b"
      then ended dropped
      else verdict
          (at_last (attempt encoded.events (world.reply ((send world encoded.events).1 - 1))))
          "b")
unfolding program
deliver-outcome_example = deliver-outcome world batch "b" refl

encode_batch-IsSendable_example : All IsSendable (encode_batch world batch).events
encode_batch-IsSendable_example = encode_batch-IsSendable world batch

wait-signed : parse_retry_after (λ _. pos 5000) 2000 (some " -3 ") ≡ some 0
unfolding parse_retry_after
wait-signed = refl

-- A parser that reads one host.
abbrev read_url : String → Option Url
read_url text = some (record {
  protocol = "https:";
  username = "";
  password = "";
  search = "";
  hash = "";
  hostname = "acme.ingest.chargebee.com";
})

abbrev no_options : CredentialOptions
no_options = record { site = none; api_key = none; ingest_domain = none; ingest_url = none }

abbrev resolve : CredentialOptions → Result Credentials
resolve options =
    resolve_credentials (λ s. s) (λ s. s) read_url options
      (record no_options { api_key = some "key" })

by_site :
    resolve (record no_options { site = some "acme" })
    ≡ ok (record { origin = "https://acme.ingest.chargebee.com"; authorization = "Basic key:" })
unfolding resolve_credentials
by_site = refl

with_port :
    resolve (record no_options { ingest_url = some "https://acme.ingest.chargebee.com:443" })
    ≡ error "ingestUrl must not include a port"
unfolding resolve_credentials
with_port = refl

not_a_site :
    resolve (record no_options { site = some "acme.example" })
    ≡ error "site must be a lowercase DNS label"
unfolding resolve_credentials
not_a_site = refl
