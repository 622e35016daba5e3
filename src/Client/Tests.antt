-- ===== src/Client/Tests.antt =====
-- Small inputs to the client, and what it does on them.
use audr.Base.{◌≡◌, ◌≤◌, refl, List, [], ◌∷◌, none, some, true, false}
use audr.Base.Result.{ok}
use audr.Record.{AudrRecord, Json, null, str, obj, end, ErrorCode}
use audr.Pipeline.State.{Pipeline, fresh, stats}
use audr.Pipeline.Steps.{stop_continues, run}
use audr.Pipeline.Validity.{IsValid}
use audr.Client.Options.{nan, infinite, finite, ClientOptions, create}
use audr.Client.Calls.{Client, Inspection, stamp}
use audr.Client.Refinement.{Call, records_value, flushes, shuts_down, happens, calls, calls-IsValid}

abbrev options : ClientOptions
options = record {
  max_queue_size = none;
  batch_max_size = some (finite false 6 2);
  linger_ms = none;
  owns_sink = none;
  emitter = none;
  on_failure = none;
  on_delivered = none;
}

abbrev record_one : AudrRecord
record_one = record {
  record_id = "a";
  subscription_id = none;
  feature_id = none;
  event_time = "2026-01-01T00:00:00.000Z";
  corrects = false;
  body = null;
}

-- Only an object has no issue.
abbrev inspect : Json → Inspection
inspect (obj fs) = record { issues = []; data_ = record_one }
inspect _ = record {
  issues = record { code = ErrorCode.invalid_type; path = "/" } ∷ [];
  data_ = record_one;
}

abbrev client : Client
client = record { emitter = some (str "e"); structured_clone = some; inspect = inspect }

-- 6 / 3 is an integer.
abbrev made : Pipeline
made = fresh (record {
  max_queue_size = 1000;
  batch_max_size = 2;
  owns_sink = true;
  on_failure = none;
  on_delivered = none;
})

abbrev history : List Call
history =
    records_value (obj end)
    ∷ records_value null
    ∷ flushes nan
    ∷ shuts_down (infinite false)
    ∷ records_value (obj end)
    ∷ happens stop_continues
    ∷ []

program : Unit {0}
unfolding create fresh calls run stats stamp
program = tt

create-options : create (λ _. []) options ≡ ok made
unfolding program
create-options = refl

-- The record after `shutdown` does not reach the pipeline, and what is at the sink is unknown when the wait ends.
history-stats :
    stats (calls client made history)
    ≡ record { submitted = 1; sent = 0; dropped = 0; unknown = 1; batches = 0; queue_depth = 1 }
unfolding program
history-stats = refl

calls-IsValid_example : IsValid (calls client made history) × (made.batch_max_size ≤ 500)
calls-IsValid_example = calls-IsValid (λ _. []) options client history (unfold program in refl)
