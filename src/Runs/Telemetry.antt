-- ===== src/Runs/Telemetry.antt =====
-- adapters/vercel-ai/typescript/src/telemetry.ts: the hooks of `AudrTelemetry` over the call tracker, with mapping.ts. What
-- the hooks do is written to a log. The host's client and its `mapResource` are parameters; so is the tool span in
-- which a call starts, and what `elapsedSince` gives.
use Prim.Native.String
use audr.Base.{
  ℕ, zero, suc, Bool, List, [], ◌∷◌, ◌++◌, Option, none, some, String, str_eq, if◌then◌else◌,
}
use audr.Base.Text.{decimal}
use audr.Adapters.Scope.{Attribution}
use audr.Adapters.Recording.{
  Operation, tool_execution, text, RunType, single_call, agent_run, Resource, Usage, RecordInput,
}
use audr.Runs.Tracker.{TrackedCall, CallTracker, update_at}

abbrev pub tool_error_code : String
tool_error_code = "VERCEL_AI_TOOL_ERROR"

abbrev pub tool_provider : String
tool_provider = "self-hosted"

abbrev pub unsupported_operations : List String
unsupported_operations = "ai.generateObject" ∷ "ai.streamObject" ∷ []

-- `runTypeFor`
unfoldable pub run_type_for : String → RunType
run_type_for operation_id =
    if str_eq operation_id "ai.generateText"
    then agent_run
    else if str_eq operation_id "ai.streamText"
    then agent_run
    else single_call

-- `modelSpanId` and `rerankSpanId`, with their first word.
unfoldable pub call_span_id : String → String → ℕ → String
unfolding decimal
call_span_id kind call_id index =
    String.◌++◌ kind (String.◌++◌ ":" (String.◌++◌ call_id (String.◌++◌ ":" (decimal index))))

pub data Diagnostic : Type 0 where
  attribution_unresolved operation_unsupported provider_unmapped map_resource_failed
        record_not_queued :
      String → Diagnostic

-- A record stands with the reference of the counter that its step is from.
pub data Action (W : Type 0) : Type 0 where
  warns : Diagnostic → Action W
  records : ℕ → RecordInput W → Action W

pub record ResourceMapping : Type 0 where
  pub provider : String
  pub name : String

-- What `mapResource` comes to.
pub data Mapped : Type 0 where
  throws keeps : Mapped
  maps : ResourceMapping → Mapped

pub record Host (W : Type 0) : Type 0 where
  pub defaults : Option Attribution
  pub to_lower : String → String
  pub map_resource : String → String → Mapped
  pub is_queued : RecordInput W → Bool

pub record AudrTelemetry (W : Type 0) : Type 0 where
  pub tracker : CallTracker
  pub warned_unsupported : List String
  pub log : List (Action W)

-- What a record says besides its call: `RecordParts`.
pub record RecordParts (W : Type 0) : Type 0 where
  pub span_id : String
  pub duration_ms : Option W
  pub resource : Resource
  pub usage : Usage W
  pub error_code : Option String

unfoldable pub counter_at : List ℕ → ℕ → ℕ
counter_at [] k = 0
counter_at (n ∷ ns) zero = n
counter_at (n ∷ ns) (suc k) = counter_at ns k

-- `next++`
unfoldable pub bump : ℕ → List ℕ → List ℕ
bump k [] = []
bump zero (n ∷ ns) = suc n ∷ ns
bump (suc k) (n ∷ ns) = n ∷ bump k ns

abbrev pub resource_of : Operation → String → String → Resource
resource_of operation provider name = record {
  provider = provider;
  namespace = none;
  name = name;
  operation = operation;
  modality = some text;
}

abbrev pub tool_resource : String → Resource
tool_resource name = record {
  provider = tool_provider;
  namespace = none;
  name = name;
  operation = tool_execution;
  modality = none;
}

abbrev pub write_call : ℕ → (TrackedCall → TrackedCall) → CallTracker → CallTracker
write_call n f t = record t { store = update_at n f t.store }

module _ {W : Type 0} where
  abbrev pub fresh : AudrTelemetry W
  fresh = record {
    tracker = record { store = []; counters = []; calls = [] };
    warned_unsupported = [];
    log = [];
  }

  abbrev pub warn : Diagnostic → AudrTelemetry W → AudrTelemetry W
  warn d s = record s { log = s.log ++ (warns d ∷ []) }

  abbrev pub track : (CallTracker → CallTracker) → AudrTelemetry W → AudrTelemetry W
  track f s = record s { tracker = f s.tracker }

  abbrev pub record_input : TrackedCall → ℕ → RecordParts W → RecordInput W
  record_input call step parts = record {
    duration_ms = parts.duration_ms;
    resource = parts.resource;
    usage = parts.usage;
    cost = none;
    run = record {
      run_id = call.run_id;
      trace_id = none;
      span_id = parts.span_id;
      parent_span_id = call.parent_span_id;
      name = call.name;
      step = some step;
      run_type = some call.run_type;
      error_code = parts.error_code;
    };
    attribution = call.attribution;
  }

  abbrev pub count_step : TrackedCall → RecordInput W → AudrTelemetry W → AudrTelemetry W
  count_step call input s = record s {
    tracker = record {
      store = s.tracker.store;
      counters = bump call.steps s.tracker.counters;
      calls = s.tracker.calls;
    };
    log = s.log ++ (records call.steps input ∷ []);
  }

  -- `#record`
  unfoldable pub record_call :
      Host W → TrackedCall → RecordParts W → AudrTelemetry W → AudrTelemetry W
  unfolding counter_at bump
  record_call host call parts s =
      let input = record_input call (counter_at s.tracker.counters call.steps) parts in
      let counted = count_step call input s in
      if host.is_queued input then counted else warn (record_not_queued call.operation_id) counted
