-- ===== src/Lago/Tests.antt =====
-- Small inputs to the Lago sink, and what it does on them.
use audr.Base.{
  ℕ, zero, suc, ◌≡◌, refl, List, [], ◌∷◌, some, none, String, false, true, map, length, names,
}
use audr.Record.{Json, str, arr, obj, nil, cons, end, field, null, accepted}
use audr.Pipeline.Verdict.{verdict}
use audr.Base.{Option, str_eq, if◌then◌else◌}
use audr.Base.Result.{Result, ok, error}
use audr.Lago.Credentials.{Url, Credentials, CredentialOptions, resolve_credentials}
use audr.Lago.Event.{LagoEvent}
use audr.Lago.Tally.{start}
use audr.Lago.Response.{ValidationVerdict, parse_validation_errors, parse_index}
use audr.Lago.Sink.{World, Reply, response, network_error, deliver, deliver_from}
use audr.Lago.Posts.{is_held, holds, says_held, is_duplicate}
use audr.Lago.Standing.{count}
use audr.Lago.Contract.{is_sent, deliver-verdict}
use audr.Lago.Encode.{encode}
use audr.Lago.Retry.{retry_hint}
use audr.Lago.Preflight.{preflight}
use audr.Lago.Batch.{preflight-count, deliver-batch}
use audr.Base.Text.{decimal}
use audr.Record.{AudrRecord, Instant, pos, num}
use audr.Lago.Reading.{IsReadable, parse_validation_errors-IsReadable}

abbrev event : String → LagoEvent
event id = record {
  transaction_id = id;
  external_subscription_id = "sub";
  code = "metric";
  timestamp = "1.000";
  properties = [];
}

-- Lago holds the first event and refuses the third.
abbrev refusals : Json
refusals = obj (
    field "error_details"
      (obj (
        field "0" (obj (field "transaction_id" (arr (cons (str "value_already_exist") nil)) end))
          (field "2" (obj (field "code" (arr (cons (str "made_up") nil)) end)) end)))
      end)

abbrev read : ValidationVerdict
read = record {
  duplicates = 0 ∷ [];
  invalid = record { index = 2; detail = "code:validation_error" } ∷ [];
}

abbrev replies : ℕ → Reply
replies zero = response 422 refusals
replies (suc zero) = network_error "ECONNRESET"
replies _ = response 200 null

abbrev world : World
world = record { reply = replies; interruption = λ _. none; max_attempts = 3 }

abbrev batch : List LagoEvent
batch = event "a" ∷ event "b" ∷ event "c" ∷ []

program : Unit {0}
unfolding deliver names count preflight encode decimal
program = tt

deliver-three :
    deliver world false batch []
    ≡ accepted (record { record_id = "c"; detail = some "code:validation_error" } ∷ []) []
unfolding program
deliver-three = refl

-- Lago holds "a", takes "b" in the third request, and refuses "c".
held-three :
    map
      (λ id. is_held id (deliver_from world (length batch) batch (start batch []) []).1)
      ("a" ∷ "b" ∷ "c" ∷ [])
    ≡ true ∷ true ∷ false ∷ []
unfolding program is_held holds says_held is_duplicate
held-three = refl

index_canonical : parse_index "07" ≡ none
unfolding parse_index
index_canonical = refl

deliver-verdict_example :
    is_sent (verdict (deliver world false batch []) "a")
    ≡ is_held "a" (deliver_from world (length batch) batch (start batch []) []).1
unfolding program
deliver-verdict_example = deliver-verdict world batch [] "a" refl refl

parse_validation_errors-IsReadable_example : IsReadable 3 read
unfolding program
parse_validation_errors-IsReadable_example =
    parse_validation_errors-IsReadable refusals 3 (unfold parse_validation_errors names in refl)

abbrev record_of : String → String → AudrRecord
record_of id total = record {
  record_id = id;
  subscription_id = some "sub";
  feature_id = some "metric";
  event_time = "2026-01-01T00:00:00.123Z";
  corrects = false;
  body = obj (field "usage" (obj (field "total" (num total) end)) end);
}

abbrev parse_date : String → Instant
parse_date _ = pos 1767225600123

abbrev stringify : Json → String
stringify _ = "[]"

-- Two events are told apart by the properties alone.
abbrev stringify_event : LagoEvent → String
stringify_event e = elim e.properties [ (name, num n) ∷ _ ↦ n | _ ↦ "" ]

-- The second record differs from the first; the fourth repeats the third.
abbrev records : List AudrRecord
records = record_of "a" "1" ∷ record_of "a" "2" ∷ record_of "b" "3" ∷ record_of "b" "3" ∷ []

preflight-records : preflight (encode parse_date stringify) stringify_event records ≡ (
  record {
    transaction_id = "b";
    external_subscription_id = "sub";
    code = "metric";
    timestamp = "1767225600.123";
    properties = ("usage__total", num "3") ∷ [];
  }
      ∷ [],
  record { record_id = "a"; detail = some "duplicate_record_id" } ∷ [],
)
unfolding program
preflight-records = refl

preflight-count_example :
    count "b" (preflight (encode parse_date stringify) stringify_event records).0 ≡ 1
unfolding program
preflight-count_example = preflight-count parse_date stringify stringify_event records "b"

deliver-batch_example :
    let sorted = preflight (encode parse_date stringify) stringify_event records in
    is_sent (verdict (deliver world false sorted.0 sorted.1) "b")
    ≡ is_held "b" (deliver_from world (length sorted.0) sorted.0 (start sorted.0 sorted.1) []).1
unfolding program
deliver-batch_example =
    deliver-batch world parse_date stringify stringify_event records "b" refl refl

waits-longest : retry_hint (λ _. pos 5000) 2000 429 (some " 7 ") (some "9") ≡ some 9000
unfolding retry_hint
waits-longest = refl

waits-reset_ignored : retry_hint (λ _. pos 5000) 2000 503 (some "soon") (some "9") ≡ none
unfolding retry_hint
waits-reset_ignored = refl

waits-date :
    retry_hint (λ _. pos 5000) 2000 503 (some "Wed, 21 Oct 2015 07:28:00 GMT") none ≡ some 3000
unfolding retry_hint
waits-date = refl

-- A parser that reads one host.
abbrev read_url : String → Option Url
read_url text = some (record {
  protocol = if str_eq text "http://lago.test/api/v1/" then "http:" else "https:";
  username = "";
  password = "";
  host = "lago.test";
  origin = "https://lago.test";
})

abbrev resolve : String → Result Credentials
resolve url =
    resolve_credentials (λ s. s) read_url
      (record { api_key = some "key"; api_url = some url; allow_insecure_http = false })

is_resolved :
    resolve "https://lago.test/api/v1/"
    ≡ ok (record {
      endpoint = "https://lago.test/api/v1/events/batch";
      authorization = "Bearer key";
    })
unfolding resolve_credentials
is_resolved = refl

wrong_host : resolve "https://lago.test:443" ≡ error "apiUrl must be a plain host name or address"
unfolding resolve_credentials
wrong_host = refl

insecure : resolve "http://lago.test/api/v1/" ≡ error "apiUrl must use https"
unfolding resolve_credentials
insecure = refl

abbrev secure : CredentialOptions
secure = record {
  api_key = some "key";
  api_url = some "https://lago.test/api/v1/";
  allow_insecure_http = false;
}
