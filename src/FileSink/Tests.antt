-- ===== src/FileSink/Tests.antt =====
-- A small history of a file sink.
use audr.Base.{◌≡◌, refl, List, [], ◌∷◌, none, some, String, false}
use audr.Record.{AudrRecord, null}
use audr.FileSink.Writes.{
  Encoder, Event, delivers, writes_next, closes, takes, refuses, created, run, text_of,
}
use audr.FileSink.Order.{IsOrdered, run-IsOrdered}

abbrev entry : String → AudrRecord
entry id = record {
  record_id = id;
  subscription_id = none;
  feature_id = none;
  event_time = "2026-01-01T00:00:00Z";
  corrects = false;
  body = null;
}

abbrev encoder : Encoder
encoder = record { encode_record = λ r. some r.record_id; error_name = "ValidationError" }

-- The first write fails half way; what is delivered after `close` is refused.
abbrev events : List Event
events =
    delivers (entry "a" ∷ [])
    ∷ delivers (entry "b" ∷ entry "c" ∷ [])
    ∷ writes_next (refuses "ENOSPC" "")
    ∷ closes
    ∷ delivers (entry "d" ∷ [])
    ∷ writes_next takes
    ∷ []

events-text : text_of (run encoder events created).written ≡ "b\nc\n"
unfolding text_of run
events-text = refl

run-IsOrdered_example : IsOrdered encoder events (run encoder events created)
run-IsOrdered_example = run-IsOrdered encoder events
