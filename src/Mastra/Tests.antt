-- ===== src/Mastra/Tests.antt =====
-- A tool call that delegates to an agent, and what the exporter of Mastra makes of it.
use audr.Base.{
  ℕ, ◌+◌, ◌≡◌, refl, List, [], ◌∷◌, none, some, String, false, not, ◌&&◌, if◌then◌else◌, names,
}
use audr.Record.{Json, undefined, str, obj, field, end}
use audr.Adapters.Numbers.{nat_double}
use audr.Adapters.Reading.{non_empty, read_attribution}
use audr.Mastra.Exporter.{
  Span, Host, queued, TracingEvent, span_started, span_ended, fresh, run, actions, is_w3c_trace_id,
}
use audr.Mastra.Delegation.{idle, Agrees, run-Agrees, watch_all}
use audr.Mastra.Ended.{
  mastra_reasons, record_count, reason_count, delegated, is_metered, ended-outcome,
}

abbrev span : String → String → Json → Span ℕ
span span_type id parent = record {
  span_type = span_type;
  id = id;
  trace_id = "0af7651916cd43dd8448eb211c80319c";
  parent_span_id = parent;
  entity_name = str "search";
  attributes = undefined;
  metadata = obj (field "audr" (obj (field "environment" (str "production") end)) end);
  starts = some 5;
  ends = some 9;
  has_error = false;
}

abbrev host : Host ℕ
host = record { defaults = none; to_lower = λ s. s; submit = λ r. queued }

abbrev call : Span ℕ
call = span "tool_call" "t1" undefined

abbrev delegation : List (TracingEvent ℕ)
delegation = span_started call ∷ span_started (span "agent_run" "a1" (str "t1")) ∷ []

program : Unit {0}
unfolding run actions watch_all record_count reason_count names non_empty is_w3c_trace_id
    read_attribution
program = tt

-- The call that delegates is not recorded; the same call without the agent is.
delegated_call : record_count (actions host (span_ended call) (run delegation fresh)) ≡ 0
unfolding record_count actions run
delegated_call = refl

plain_call : record_count (actions host (span_ended call) (run (span_started call ∷ []) fresh)) ≡ 1
unfolding record_count actions run
plain_call = refl

run-Agrees_example : Agrees "t1" (run delegation fresh) (watch_all "t1" delegation idle)
run-Agrees_example = run-Agrees "t1" delegation

ended-outcome_example :
    record_count (actions host (span_ended call) (run delegation fresh))
      + reason_count (actions host (span_ended call) (run delegation fresh))
    ≡ (if is_metered call && not (delegated call (watch_all "t1" delegation idle)) then 1 else 0)
ended-outcome_example = ended-outcome host delegation call
