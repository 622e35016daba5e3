-- ===== src/Mastra/Exporter.antt =====
-- adapters/mastra/typescript/src: the class `AudrExporter` of exporter.ts, with mapping.ts. A step gives the
-- list of what it does, in order; an exception ends it with `EXPORT_FAILED`. The host's client is a parameter.
use audr.Base.{
  ℕ, Bool, true, false, not, ◌&&◌, ◌||◌, List, [], ◌∷◌, Option, none, some, String, str_eq,
  if◌then◌else◌, leb, ◌==◌, names,
}
use audr.Base.Result.{units, every}
use audr.Base.Text.{is_digit}
use audr.Record.{Json, str, get}
use audr.Adapters.Numbers.{Double, LlmUsage, exclusive, or_nought}
use audr.Adapters.Scope.{Attribution, first_of}
use audr.Adapters.Recording.{
  Operation, generation, embedding, tool_execution, text, Resource, Usage, llm, tool, RecordInput,
}
pub use audr.Adapters.Effects.{Effect, warns, records}
use audr.Adapters.Slug.{provider_slug}
use audr.Adapters.Reading.{non_empty, counter, resolve_attribution}
use audr.Adapters.Sets.{add_id, delete_id}

abbrev pub model_error_code : String
model_error_code = "MASTRA_MODEL_ERROR"

abbrev pub tool_error_code : String
tool_error_code = "MASTRA_TOOL_ERROR"

abbrev pub tool_provider : String
tool_provider = "self-hosted"

abbrev pub metered_span_types : List String
metered_span_types = "model_inference" ∷ "rag_embedding" ∷ "tool_call" ∷ "mcp_tool_call" ∷ []

abbrev pub delegation_span_types : List String
delegation_span_types = "agent_run" ∷ "workflow_run" ∷ []

-- A span as it is exported. `starts` and `ends` are what `toDate` makes of its times.
pub record Span (W : Type 0) : Type 0 where
  pub span_type : String
  pub id : String
  pub trace_id : String
  pub parent_span_id : Json
  pub entity_name : Json
  pub attributes : Json
  pub metadata : Json
  pub starts : Option W
  pub ends : Option W
  pub has_error : Bool

pub data Diagnostic : Type 0 where
  attribution_unresolved resource_unresolved : String → Diagnostic
  record_not_queued export_failed : Diagnostic

-- What `record()` of the host's client comes to.
pub data Submission : Type 0 where
  queued refused throws : Submission

pub record Host (W : Type 0) : Type 0 where
  pub defaults : Option Attribution
  pub to_lower : String → String
  pub submit : RecordInput W → Submission

-- The sets `#openToolSpans` and `#delegationToolSpans`.
pub record AudrExporter : Type 0 where
  pub open_tool_spans : List String
  pub delegation_tool_spans : List String

pub record Metered (W : Type 0) : Type 0 where
  pub resource : Resource
  pub usage : Usage W
  pub error_code : String

-- What `#meter` comes to: nothing to record, a warning, or what the span contributes.
pub data Metering (W : Type 0) : Type 0 where
  ignored unresolved : Metering W
  meters : Metered W → Metering W

abbrev is_hex : ℕ → Bool
is_hex c = is_digit c || (leb b'a' c && leb c b'f')

-- `W3C_TRACE_ID`
unfoldable pub is_w3c_trace_id : String → Bool
unfolding every units
is_w3c_trace_id id = every is_hex id && units id == 32

abbrev slug_of : (String → String) → Json → Option String
slug_of to_lower (str provider) = provider_slug to_lower provider
slug_of to_lower _ = none

abbrev model_resource : Operation → String → String → Resource
model_resource operation provider name = record {
  provider = provider;
  namespace = none;
  name = name;
  operation = operation;
  modality = some text;
}

abbrev tool_resource : Option String → String → Resource
tool_resource namespace name = record {
  provider = tool_provider;
  namespace = namespace;
  name = name;
  operation = tool_execution;
  modality = none;
}

unfoldable pub delegate_to : Option String → AudrExporter → AudrExporter
unfolding names add_id
delegate_to none e = e
delegate_to (some parent) e =
    if names e.open_tool_spans parent
    then record e { delegation_tool_spans = add_id parent e.delegation_tool_spans }
    else e

abbrev pub open_tool : String → AudrExporter → AudrExporter
open_tool id e = record e { open_tool_spans = add_id id e.open_tool_spans }

-- `#finishTool`
unfoldable pub close_tool : String → AudrExporter → AudrExporter
unfolding delete_id
close_tool id e = record {
  open_tool_spans = delete_id id e.open_tool_spans;
  delegation_tool_spans = delete_id id e.delegation_tool_spans;
}

module _ {W : Type 0} ⦃d : Double W⦄ where
  -- `toLlmUsage`
  unfoldable pub to_llm_usage : Json → LlmUsage W
  unfolding counter exclusive get
  to_llm_usage usage =
      let cache_read = counter (get (get usage "inputDetails") "cacheRead") in
      let cache_write = counter (get (get usage "inputDetails") "cacheWrite") in
      let reasoning = counter (get (get usage "outputDetails") "reasoning") in
      record {
        input_tokens =
            exclusive (counter (get usage "inputTokens"))
              (d.add (or_nought cache_read) (or_nought cache_write));
        output_tokens = exclusive (counter (get usage "outputTokens")) (or_nought reasoning);
        cache_read_tokens = cache_read;
        cache_write_tokens = cache_write;
        reasoning_tokens = reasoning;
        requests = 1;
      }

  -- `durationMs` of `spanTiming`
  unfoldable pub span_duration : Option W → Option W → Option W
  span_duration (some start) (some finish) =
      if d.at_most start finish then some (d.subtract finish start) else none
  span_duration start finish = none

  abbrev pub model_metering : Operation → Json → Option String → Option String → Metering W
  model_metering operation usage (some provider) (some name) = meters (record {
    resource = model_resource operation provider name;
    usage = llm (to_llm_usage usage);
    error_code = model_error_code;
  })
  model_metering operation usage provider name = unresolved

  -- `#model`
  unfoldable pub meter_model : (String → String) → Json → Metering W
  unfolding provider_slug to_llm_usage non_empty get
  meter_model to_lower attributes =
      model_metering generation (get attributes "usage")
        (slug_of to_lower (get attributes "provider"))
        (first_of (non_empty (get attributes "responseModel")) (non_empty (get attributes "model")))

  -- `#embedding`
  unfoldable pub meter_embedding : (String → String) → Json → Metering W
  unfolding provider_slug to_llm_usage non_empty get
  meter_embedding to_lower attributes =
      model_metering embedding (get attributes "usage")
        (slug_of to_lower (get attributes "provider")) (non_empty (get attributes "model"))

  abbrev pub tool_metering : Bool → Option String → Option String → Metering W
  tool_metering delegates namespace none = unresolved
  tool_metering true namespace (some name) = ignored
  tool_metering false namespace (some name) = meters (record {
    resource = tool_resource namespace name;
    usage = tool;
    error_code = tool_error_code;
  })

  -- `#tool`
  unfoldable pub meter_tool : List String → Span W → Metering W
  unfolding non_empty names get
  meter_tool delegation span =
      let is_mcp = str_eq span.span_type "mcp_tool_call" in
      tool_metering (not is_mcp && names delegation span.id)
        (if is_mcp then non_empty (get span.attributes "mcpServer") else none)
        (non_empty span.entity_name)

  -- `#meter`, of a metered type.
  unfoldable pub meter_span : (String → String) → List String → Span W → Metering W
  unfolding meter_model meter_embedding meter_tool
  meter_span to_lower delegation span =
      if str_eq span.span_type "model_inference"
      then meter_model to_lower span.attributes
      else if str_eq span.span_type "rag_embedding"
      then meter_embedding to_lower span.attributes
      else meter_tool delegation span

  unfoldable pub record_input : Span W → Metered W → Attribution → RecordInput W
  unfolding span_duration is_w3c_trace_id non_empty
  record_input span metered attribution = record {
    duration_ms = span_duration span.starts span.ends;
    resource = metered.resource;
    usage = metered.usage;
    cost = none;
    run = record {
      run_id = span.trace_id;
      trace_id = if is_w3c_trace_id span.trace_id then some span.trace_id else none;
      span_id = span.id;
      parent_span_id = non_empty span.parent_span_id;
      name = none;
      step = none;
      run_type = none;
      error_code = if span.has_error then some metered.error_code else none;
    };
    attribution = attribution;
  }

  module _ (host : Host W) where
    abbrev pub submitted : RecordInput W → Submission → List (Effect Diagnostic W)
    submitted input queued = records input ∷ []
    submitted input refused = records input ∷ warns record_not_queued ∷ []
    submitted input throws = warns export_failed ∷ []

    abbrev pub record_attributed :
        Span W → Metered W → Option Attribution → List (Effect Diagnostic W)
    record_attributed span metered none = warns (attribution_unresolved span.span_type) ∷ []
    record_attributed span metered (some attribution) =
        let input = record_input span metered attribution in submitted input (host.submit input)

    abbrev pub record_metered : Span W → Metering W → List (Effect Diagnostic W)
    record_metered span ignored = []
    record_metered span unresolved = warns (resource_unresolved span.span_type) ∷ []
    record_metered span (meters metered) =
        record_attributed span metered (resolve_attribution span.metadata host.defaults)

    -- `#record`
    unfoldable pub record_span : List String → Span W → List (Effect Diagnostic W)
    unfolding meter_span record_input resolve_attribution names
    record_span delegation span =
        if names metered_span_types span.span_type
        then record_metered span (meter_span host.to_lower delegation span)
        else []

  -- `#trackDelegationChild`
  unfoldable pub track_delegation_child : Span W → AudrExporter → AudrExporter
  unfolding delegate_to names non_empty
  track_delegation_child span e =
      if names delegation_span_types span.span_type
      then delegate_to (non_empty span.parent_span_id) e
      else e

  abbrev pub is_tool_call : Span W → Bool
  is_tool_call span = str_eq span.span_type "tool_call"

  -- `#trackStarted`
  unfoldable pub track_started : Span W → AudrExporter → AudrExporter
  unfolding track_delegation_child add_id
  track_started span e =
      track_delegation_child span (if is_tool_call span then open_tool span.id e else e)

  unfoldable pub finish_tool : Span W → AudrExporter → AudrExporter
  unfolding close_tool
  finish_tool span e = if is_tool_call span then close_tool span.id e else e

-- `exportTracingEvent`, of each type of event, and `shutdown`.
pub data TracingEvent (W : Type 0) : Type 0 where
  span_started span_ended span_updated : Span W → TracingEvent W
  shut_down : TracingEvent W

abbrev pub fresh : AudrExporter
fresh = record { open_tool_spans = []; delegation_tool_spans = [] }

module _ {W : Type 0} ⦃d : Double W⦄ where
  unfoldable pub step : TracingEvent W → AudrExporter → AudrExporter
  unfolding track_started track_delegation_child finish_tool
  step (span_started span) e = track_started span e
  step (span_ended span) e = finish_tool span (track_delegation_child span e)
  step (span_updated span) e = e
  step shut_down e = fresh

  -- What an event gives: only an ended span is recorded.
  unfoldable pub actions : Host W → TracingEvent W → AudrExporter → List (Effect Diagnostic W)
  unfolding record_span track_delegation_child
  actions host (span_ended span) e =
      record_span host (track_delegation_child span e).delegation_tool_spans span
  actions host event e = []

  unfoldable pub run : List (TracingEvent W) → AudrExporter → AudrExporter
  unfolding step
  run [] e = e
  run (event ∷ events) e = run events (step event e)
