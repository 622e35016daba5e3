-- ===== src/Runs/Tests.antt =====
-- A small history of calls, and what the tracker makes of it.
use audr.Base.{
  ℕ, ◌≡◌, refl, List, [], ◌∷◌, none, some, String, true, false, str_eq, if◌then◌else◌, map,
}
use audr.Adapters.Scope.{no_attribution}
use audr.Adapters.Recording.{agent_run}
use audr.Adapters.Numbers.{nat_double}
use audr.Record.{null}
use audr.Runs.Telemetry.{Host, keeps, fresh, counter_at}
use audr.Runs.Hooks.{
  Hook, starts, model_ends, tool_starts, tool_ends, embed_ends, ends as ends_call, call_hooks,
}
use audr.Runs.Steps.{steps_of, upto, call_hooks-steps}
use audr.Runs.Tracker.{TrackedCall, RootCall, call_at}
use audr.Runs.Lineage.{
  Event, starts_root, starts_child, ends, opens_span, closes_span, run, empty, lineage, run-lineage,
}

abbrev root : String → RootCall
root id = record {
  call_id = id;
  operation_id = "generateText";
  attribution = no_attribution;
  run_type = agent_run;
  name = some "demo";
}

-- A root opens a span, in which a child starts; the root ends first; another root starts.
abbrev history : List Event
history =
    starts_root (root "r")
    ∷ opens_span 0 "t"
    ∷ starts_child "c" "embed" (record { call = 0; span_id = "tool:r:0:t" })
    ∷ ends "r"
    ∷ closes_span 0 "t"
    ∷ starts_root (root "s")
    ∷ []

program : Unit {0}
unfolding run call_at
program = tt

history-runs : map (λ (c : TrackedCall). c.run_id) (run empty history).store ≡ "r" ∷ "r" ∷ "s" ∷ []
unfolding program
history-runs = refl

history-calls : (run empty history).calls ≡ ("c", 1) ∷ ("s", 2) ∷ []
unfolding program
history-calls = refl

abbrev tracked : String → ℕ → TrackedCall
tracked id spans = record {
  call_id = id;
  run_id = "r";
  operation_id = if str_eq id "r" then "generateText" else "embed";
  parent_span_id = if str_eq id "r" then none else some "tool:r:0:t";
  attribution = no_attribution;
  run_type = agent_run;
  name = some "demo";
  steps = 0;
  model_calls = 0;
  rerank_calls = 0;
  tool_calls = spans;
  open_tool_spans = [];
}

run-lineage_example : lineage (tracked "r" 1) ≡ lineage (tracked "c" 0)
run-lineage_example =
    run-lineage history 0 1 {c = tracked "r" 1} {d = tracked "c" 0} (unfold program in refl)
      (unfold program in refl) refl

-- The hooks of a text generation with one tool call, in which an embedding is made.
abbrev host : Host ℕ
host = record {
  defaults = some (record no_attribution { environment = some "test" });
  to_lower = λ s. s;
  map_resource = λ provider model. keeps;
  is_queued = λ r. true;
}

abbrev hooks : List (Hook ℕ)
hooks =
    starts none "r" "ai.generateText" (some "demo") null
    ∷ model_ends "r" "openai.chat" "gpt" null null
    ∷ tool_starts "r" "t"
    ∷ starts (some (record { call = 0; span_id = "tool:r:0:t" })) "c" "ai.embed" none null
    ∷ embed_ends "c" "e" "openai.embedding" "small" none null
    ∷ tool_ends "r" "t" "search" null false
    ∷ ends_call "r"
    ∷ model_ends "r" "openai.chat" "gpt" null null
    ∷ []

hooks-steps : steps_of 0 (call_hooks host hooks fresh).log ≡ some 0 ∷ some 1 ∷ some 2 ∷ []
unfolding steps_of call_hooks
hooks-steps = refl

call_hooks-steps_example :
    steps_of 0 (call_hooks host hooks fresh).log
    ≡ upto (counter_at (call_hooks host hooks fresh).tracker.counters 0)
call_hooks-steps_example = call_hooks-steps host hooks 0
