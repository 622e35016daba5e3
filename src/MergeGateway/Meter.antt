-- ===== src/MergeGateway/Meter.antt =====
-- adapters/merge-gateway/typescript/src/gateway.ts: the class `Meter` but for its streams. A step is the list of what it does, in
-- order; an exception ends it with `HOOK_FAILED`. The host's client, its `mapResource` and what `uuidv7` gives are
-- parameters, and so is the native call; `record` of the client is taken not to throw, as it documents. Of a result that is read, model, vendor and id are strings or missing.
use Prim.Native.String
use audr.Base.{
  ℕ, Bool, true, false, not, ◌||◌, List, [], ◌∷◌, ◌++◌, Option, none, some, String, str_eq, ltb,
  ◌+◌, if◌then◌else◌,
}
use audr.Record.{Json, undefined, null, str, arr, Items, nil, cons, get}
use audr.Adapters.Numbers.{Double, given, LlmUsage}
use audr.Adapters.Scope.{Attribution, RunContext, Scope, merge_attribution}
use audr.Adapters.Hosting.{
  Mapped, throws, keeps, maps, fits_run_id, run_id_of, run_parent, run_name,
}
use audr.Adapters.Recording.{
  generation, embedding, Modality, text, image, audio, multimodal, single_call, agent_run,
  RecordInput, llm,
}
use audr.Adapters.Reading.{string_of}
use audr.Adapters.Effects.{Effect, warns, records, Reasons, warn_if}
use audr.MergeGateway.Mapping.{response_usage, embedding_usage, to_cost}

abbrev pub gateway_provider : String
gateway_provider = "merge-gateway"

abbrev response_failed_code : String
response_failed_code = "MERGE_GATEWAY_RESPONSE_FAILED"

pub data OperationName : Type 0 where
  responses_create embeddings_create : OperationName

pub data IncompleteReason : Type 0 where
  error_frame ended failed abandoned closed : IncompleteReason

-- A diagnostic, without the name of the operation.
pub data Diagnostic : Type 0 where
  attribution_unresolved model_unreported record_not_queued hook_failed : Diagnostic
  stream_incomplete : IncompleteReason → Diagnostic

-- The diagnostics that say why a call is not recorded.
abbrev is_reason : Diagnostic → Bool
is_reason record_not_queued = false
is_reason _ = true

instance abbrev pub gateway_reasons : Reasons Diagnostic
gateway_reasons = record { is_reason = is_reason }

-- The parameters: `uuid n` is the id that the `n`-th call of `uuidv7` in a step gives.
pub record Host (W : Type 0) : Type 0 where
  pub defaults : Attribution
  pub map_resource : Option String → Option String → Mapped
  pub uuid : ℕ → String
  pub is_queued : RecordInput W → Bool

pub record Call : Type 0 where
  pub operation : OperationName
  pub modality : Modality
  pub attribution : Attribution
  pub run : Option RunContext

-- `modalities.includes(…)`
unfoldable includes : Items → String → Bool
includes nil name = false
includes (cons (str s) items) name = let later = includes items name in str_eq s name || later
includes (cons _ items) name = includes items name

abbrev bit : Bool → ℕ
bit true = 1
bit false = 0

abbrev listed_modality : Bool → Bool → Bool → Modality
listed_modality t i a =
    if ltb 1 (bit t + bit i + bit a)
    then multimodal
    else if i
    then image
    else if a
    then audio
    else text

-- `responseModality`, of a request that can be read.
unfoldable pub response_modality : Json → Modality
unfolding includes get
response_modality params = elim (get params "modalities") [
  | arr items ↦
      listed_modality (includes items "text") (includes items "image") (includes items "audio")
  | _ ↦ text
]

-- `#begin`, at the environment.
abbrev pub begun : {W : Type 0} → Option String → Call → Option Call × List (Effect Diagnostic W)
begun none call = (none, warns attribution_unresolved ∷ [])
begun (some environment) call = (some call, [])

-- `#begin`
unfoldable pub begin_call :
    {W : Type 0}
    → Host W
    → Scope
    → OperationName
    → Modality
    → Option Call × List (Effect Diagnostic W)
unfolding merge_attribution
begin_call host scope operation modality =
    let attribution = merge_attribution host.defaults (some scope.attribution) in
    begun attribution.environment (record {
      operation = operation;
      modality = modality;
      attribution = attribution;
      run = scope.run;
    })

abbrev pub is_nullish : Json → Bool
is_nullish undefined = true
is_nullish null = true
is_nullish _ = false

abbrev is_failed : Json → Bool
is_failed (str s) = str_eq s "failed"
is_failed _ = false

abbrev span_of : OperationName → String
span_of responses_create = "response"
span_of embeddings_create = "embedding"

module _ {W : Type 0} ⦃d : Double W⦄ (host : Host W) (call : Call) (duration : W) where
  abbrev usage_of : OperationName → Json → LlmUsage W
  usage_of responses_create usage = response_usage usage
  usage_of embeddings_create usage = embedding_usage usage

  -- The record of `#record`.
  unfoldable pub record_input : Json → String → String → RecordInput W
  unfolding fits_run_id get to_cost
  record_input result provider name =
      let id = given (host.uuid 0) (string_of (get result "id")) in
      let usage = get result "usage" in
      record {
        duration_ms = some duration;
        resource = record {
          provider = provider;
          namespace = none;
          name = name;
          operation = elim call.operation [
            | responses_create ↦ generation
            | embeddings_create ↦ embedding
          ];
          modality = some call.modality;
        };
        usage = llm (usage_of call.operation usage);
        cost = to_cost usage;
        run = record {
          run_id = run_id_of call.run id (host.uuid 1);
          trace_id = none;
          span_id = String.◌++◌ (span_of call.operation) (String.◌++◌ ":" id);
          parent_span_id = run_parent call.run;
          name = run_name call.run;
          step = none;
          run_type = some (elim call.run [ none ↦ single_call | some _ ↦ agent_run ]);
          error_code = if is_failed (get result "status") then some response_failed_code else none;
        };
        attribution = call.attribution;
      }

  -- `client.record(…)` and the test of what it returns.
  unfoldable pub submit : RecordInput W → List (Effect Diagnostic W)
  unfolding warn_if
  submit input = records input ∷ warn_if (not (host.is_queued input)) record_not_queued

  -- `#record`, at the resource; a missing and an empty name are falsy.
  unfoldable pub record_named : Json → String → Option String → List (Effect Diagnostic W)
  unfolding submit record_input
  record_named result provider none = warns model_unreported ∷ []
  record_named result provider (some name) =
      if str_eq name ""
      then warns model_unreported ∷ []
      else submit (record_input result provider name)

  -- `#record`, at what `mapResource` comes to.
  unfoldable pub record_mapped : Mapped → Json → List (Effect Diagnostic W)
  unfolding record_named get
  record_mapped throws result = warns hook_failed ∷ []
  record_mapped keeps result = record_named result gateway_provider (string_of (get result "model"))
  record_mapped (maps mapping) result = record_named result mapping.provider (some mapping.name)

  -- `#record` under `#guard`; a result that is missing or null has no properties to read.
  unfoldable pub record_result : Json → List (Effect Diagnostic W)
  unfolding record_mapped get
  record_result result =
      if is_nullish result
      then warns hook_failed ∷ []
      else record_mapped
          (host.map_resource (string_of (get result "model")) (string_of (get result "vendor")))
          result

-- What the native call comes to: a result that is no stream; a stream; or a result of which `isStream` cannot tell.
pub data Created : Type 0 where
  rejects streams unreadable : Created
  resolves : Json → Created

module _ {W : Type 0} ⦃d : Double W⦄ (host : Host W) (duration : W) where
  -- What `measure` does with what the call comes to; what it does with a stream is MergeGateway/Streams.antt.
  unfoldable pub on_created : Option Call → Created → List (Effect Diagnostic W)
  unfolding record_result
  on_created none created = []
  on_created (some call) rejects = []
  on_created (some call) streams = []
  on_created (some call) unreadable = warns hook_failed ∷ []
  on_created (some call) (resolves result) = record_result host call duration result

  abbrev pub on_begun :
      Option Call × List (Effect Diagnostic W) → Created → List (Effect Diagnostic W)
  on_begun (call, started) created = started ++ on_created call created

  -- `measure`
  unfoldable pub measure : Scope → OperationName → Modality → Created → List (Effect Diagnostic W)
  unfolding begin_call on_created
  measure scope operation modality created =
      on_begun (begin_call host scope operation modality) created
