-- ===== src/OpenRouter/Meter.antt =====
-- adapters/openrouter/typescript/src/openrouter.ts: the class `Meter`. A step is the list of what it does, in order; an
-- exception ends it with `HOOK_FAILED`. The host's client, its `mapResource` and what `uuidv7` gives
-- are parameters.
use Prim.Native.String
use audr.Base.{
  ℕ, Bool, true, false, not, List, [], ◌∷◌, ◌++◌, Option, none, some, String, str_eq, if◌then◌else◌,
}
use audr.Record.{Json, undefined, get, str}
use audr.Adapters.Numbers.{Double, given}
use audr.Adapters.Scope.{Attribution, RunContext, Scope, first_of, merge_attribution}
unfoldable pub use audr.Adapters.Hosting.{fits_run_id, run_id_of, run_parent, run_name}
pub use audr.Adapters.Hosting.{ResourceMapping, Mapped, throws, keeps, maps}
use audr.Adapters.Recording.{
  Operation, generation, embedding, single_call, agent_run, RecordInput, llm,
}
use audr.Adapters.Slug.{name_slug}
pub use audr.Adapters.Effects.{Effect, warns, records}
unfoldable pub use audr.Adapters.Effects.{warn_if}
use audr.OpenRouter.Mapping.{
  Family, chat, responses, embeddings, Kind, Observation, Facts, openrouter_provider,
  chat_observation, responses_observation, embeddings_observation, declared_kinds, needs_lookup,
  served_provider, resolve_cost, CostResult, response_failed_code, response_incomplete_code,
}
use audr.OpenRouter.Lookup.{
  LookupFailureReason, no_id, LookupOutcome, found, failed, is_generation_id,
}

pub data IncompleteReason : Type 0 where
  error_frame no_usage ended failed_stream abandoned closed : IncompleteReason

-- A diagnostic, without the name of the operation.
pub data Diagnostic : Type 0 where
  attribution_unresolved provider_unresolved byok_cost_incomplete model_unreported : Diagnostic
  usage_unreported record_not_queued hook_failed : Diagnostic
  lookup_failed : LookupFailureReason → Diagnostic
  stream_incomplete : IncompleteReason → Diagnostic

-- The parameters: `uuid n` is the id that the `n`-th call of `uuidv7` in a step gives.
pub record Host (W : Type 0) : Type 0 where
  pub defaults : Attribution
  pub map_resource : Option String → Option String → Mapped
  pub lookup : String → LookupOutcome W
  pub to_lower : String → String
  pub uuid : ℕ → String
  pub is_queued : RecordInput W → Bool

pub record Call : Type 0 where
  pub family : Family
  pub declared : List Kind
  pub attribution : Attribution
  pub run : Option RunContext

abbrev span_of : Family → String
span_of chat = "chat"
span_of responses = "response"
span_of embeddings = "embedding"

abbrev operation_of : Family → Operation
operation_of chat = generation
operation_of responses = generation
operation_of embeddings = embedding

abbrev request_body : Family → Option String
request_body chat = some "chatRequest"
request_body responses = some "responsesRequest"
request_body embeddings = none

-- `requestedKinds`, of a request that can be read.
unfoldable pub requested_kinds : Json → Option String → List Kind
unfolding declared_kinds get
requested_kinds request none = declared_kinds undefined
requested_kinds request (some body) = declared_kinds (get (get request body) "modalities")

-- `#begin`
unfoldable pub begin_call :
    {W : Type 0} → Host W → Scope → Family → Json → Option Call × List (Effect Diagnostic W)
unfolding requested_kinds merge_attribution
begin_call host scope family request =
    let attribution = merge_attribution host.defaults (some scope.attribution) in
    elim attribution.environment [
      | none ↦ (none, warns attribution_unresolved ∷ [])
      | some _ ↦ (
        some (record {
          family = family;
          declared = requested_kinds request (request_body family);
          attribution = attribution;
          run = scope.run;
        }),
        [],
      )
    ]

-- `statusErrorCode`
unfoldable pub status_error_code : Json → Option String
status_error_code (str s) =
    if str_eq s "failed"
    then some response_failed_code
    else if str_eq s "incomplete"
    then some response_incomplete_code
    else none
status_error_code _ = none

abbrev pub mapped_slug : (String → String) → Option ResourceMapping → Option String → Option String
mapped_slug to_lower (some mapping) served = some mapping.provider
mapped_slug to_lower none none = none
mapped_slug to_lower none (some vendor) = name_slug to_lower vendor

abbrev pub is_missing : Option String → Bool
is_missing none = true
is_missing (some _) = false

abbrev facts_byok : {W : Type 0} → Option (Facts W) → Option Bool
facts_byok none = none
facts_byok (some facts) = facts.is_byok

abbrev facts_upstream : {W : Type 0} → Option (Facts W) → Option W
facts_upstream none = none
facts_upstream (some facts) = facts.upstream

module _ {W : Type 0} ⦃d : Double W⦄ (host : Host W) (call : Call) (duration : W) where
  -- The record of `#record`.
  unfoldable pub record_input : Observation W → Option String → String → Option W → RecordInput W
  unfolding fits_run_id
  record_input observed slug name cost =
      let id = given (host.uuid 0) observed.id in
      record {
        duration_ms = some duration;
        resource = record {
          provider = given openrouter_provider slug;
          namespace = none;
          name = name;
          operation = operation_of call.family;
          modality = some observed.modality;
        };
        usage = llm observed.usage;
        cost = cost;
        run = record {
          run_id = run_id_of call.run id (host.uuid 1);
          trace_id = none;
          span_id = String.◌++◌ (span_of call.family) (String.◌++◌ ":" id);
          parent_span_id = run_parent call.run;
          name = run_name call.run;
          step = none;
          run_type = some (elim call.run [ none ↦ single_call | some _ ↦ agent_run ]);
          error_code = observed.error_code;
        };
        attribution = call.attribution;
      }

  -- `client.record(…)` and the test of what it returns.
  unfoldable pub submit : RecordInput W → List (Effect Diagnostic W)
  submit input = records input ∷ warn_if (not (host.is_queued input)) record_not_queued

  -- `#record`, with the name, the slug and the cost that were found.
  unfoldable pub record_priced :
      Observation W → Option String → String → CostResult W → List (Effect Diagnostic W)
  unfolding submit record_input warn_if
  record_priced observed slug name cost =
      warn_if (is_missing slug) provider_unresolved
      ++ (warn_if cost.incomplete byok_cost_incomplete
          ++ submit (record_input observed slug name cost.cost))

  unfoldable pub record_named :
      Observation W → Option (Facts W) → Option String → String → List (Effect Diagnostic W)
  unfolding record_priced resolve_cost
  record_named observed facts slug name = record_priced observed slug name (
      resolve_cost observed.charge (first_of observed.is_byok (facts_byok facts))
        (first_of observed.upstream (facts_upstream facts)))

  -- `#record`, at the model's name; the empty name is falsy.
  unfoldable pub record_name :
      Option String → Observation W → Option (Facts W) → Option String → List (Effect Diagnostic W)
  unfolding record_named
  record_name none observed facts slug = warns model_unreported ∷ []
  record_name (some name) observed facts slug =
      if str_eq name "" then warns model_unreported ∷ [] else record_named observed facts slug name

  -- `#record`, at what `mapResource` comes to.
  unfoldable pub record_mapped :
      Mapped → Observation W → Option (Facts W) → Option String → List (Effect Diagnostic W)
  unfolding record_name
  record_mapped throws observed facts served = warns hook_failed ∷ []
  record_mapped keeps observed facts served =
      record_name observed.model observed facts (mapped_slug host.to_lower none served)
  record_mapped (maps mapping) observed facts served =
      record_name (some mapping.name) observed facts
        (mapped_slug host.to_lower (some mapping) served)

  abbrev pub on_outcome : LookupOutcome W → Option (Facts W) × List (Effect Diagnostic W)
  on_outcome (found facts) = (some facts, [])
  on_outcome (failed reason) = (none, warns (lookup_failed reason) ∷ [])

  -- `#find`, where the client of the host has `generations.getGeneration`, without which the lookup throws.
  unfoldable pub find_facts : Option String → Option (Facts W) × List (Effect Diagnostic W)
  unfolding is_generation_id
  find_facts none = (none, warns (lookup_failed no_id) ∷ [])
  find_facts (some id) =
      if is_generation_id id
      then on_outcome (host.lookup id)
      else (none, warns (lookup_failed no_id) ∷ [])

  -- `#record`, at what the lookup came to.
  unfoldable pub record_found :
      Observation W → Option (Facts W) × List (Effect Diagnostic W) → List (Effect Diagnostic W)
  unfolding record_mapped served_provider
  record_found observed (facts, tried) =
      let served = served_provider observed facts in
      tried ++ record_mapped (host.map_resource observed.model served) observed facts served

  -- `#record`
  unfoldable pub record_observed : Option (Observation W) → List (Effect Diagnostic W)
  unfolding find_facts record_found needs_lookup
  record_observed none = warns usage_unreported ∷ []
  record_observed (some observed) =
      record_found observed (if needs_lookup observed then find_facts observed.id else (none, []))

  -- `#observe`
  unfoldable pub observe : Family → Json → Option (Observation W)
  unfolding chat_observation responses_observation embeddings_observation status_error_code get
  observe chat result = chat_observation result call.declared none none
  observe responses result =
      responses_observation result call.declared (status_error_code (get result "status"))
  observe embeddings result = embeddings_observation result

  -- The end of `measure`, of a result that is no stream.
  unfoldable pub measure_result : Json → List (Effect Diagnostic W)
  unfolding record_observed observe
  measure_result result = record_observed (observe call.family result)
