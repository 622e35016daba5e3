-- ===== src/Runs/Hooks.antt =====
-- adapters/vercel-ai/typescript/src/telemetry.ts: the hooks, each as a step of the telemetry.
use Prim.Native.String
use audr.Base.{
  ℕ, ◌+◌, Bool, List, [], ◌∷◌, ◌++◌, Option, none, some, String, str_eq, if◌then◌else◌, names,
}
use audr.Record.{Json, num, get}
use audr.Adapters.Numbers.{Double, LlmUsage, given, exclusive, or_nought}
use audr.Adapters.Scope.{Attribution, first_of}
use audr.Adapters.Recording.{Operation, generation, embedding, reranking, Resource, llm, tool}
use audr.Adapters.Slug.{provider_slug, is_provider_slug}
use audr.Adapters.Reading.{counter, resolve_attribution}
use audr.Runs.Tracker.{
  TrackedCall, ToolSpan, CallTracker, call_at, start_root, start_child, find, end_call, update_at,
  open_tool_span, tool_span_for, close_tool_span,
}
use audr.Runs.Telemetry.{
  tool_error_code, unsupported_operations, run_type_for, call_span_id, Diagnostic,
  attribution_unresolved, operation_unsupported, provider_unmapped, map_resource_failed, Mapped,
  throws, keeps, maps, Host, AudrTelemetry, resource_of, tool_resource, warn, track, write_call,
  record_call,
}

-- `get`, with the reference of the call.
unfoldable pub get_call : String → CallTracker → Option (ℕ × TrackedCall)
unfolding find call_at
get_call call_id t = elim (find call_id t.calls) [
  | none ↦ none
  | some n ↦ elim (call_at t.store n) [ none ↦ none | some call ↦ some (n, call) ]
]

-- `nonEmpty`
abbrev non_empty : Option String → Option String
non_empty none = none
non_empty (some s) = if str_eq s "" then none else some s

-- What `#modelResource` comes to.
pub data Resolved : Type 0 where
  resolves : Resource → Resolved
  fails : Diagnostic → Resolved

abbrev pub model_calls_up : TrackedCall → TrackedCall
model_calls_up call = record call { model_calls = call.model_calls + 1 }

abbrev pub rerank_calls_up : TrackedCall → TrackedCall
rerank_calls_up call = record call { rerank_calls = call.rerank_calls + 1 }

-- The span id that `closeToolSpan` returns.
abbrev closed_span_id : String → TrackedCall → String
closed_span_id tool_call_id call =
    given "" (find tool_call_id (tool_span_for tool_call_id call).open_tool_spans)

abbrev pub requests_only : {W : Type 0} → Option W → LlmUsage W
requests_only input = record {
  input_tokens = input;
  output_tokens = none;
  cache_read_tokens = none;
  cache_write_tokens = none;
  reasoning_tokens = none;
  requests = 1;
}

module _ {W : Type 0} ⦃d : Double W⦄ where
  -- `durationMs`
  unfoldable pub duration_ms : Json → Option W
  duration_ms (num n) =
      let w = d.of_text n in if d.at_most d.nought w then some (d.round w) else none
  duration_ms _ = none

  -- `toLlmUsage`
  unfoldable pub to_llm_usage : Json → LlmUsage W
  unfolding counter exclusive get
  to_llm_usage usage =
      let input = get usage "inputTokenDetails" in
      let output = get usage "outputTokenDetails" in
      let cache_read = counter (get input "cacheReadTokens") in
      let cache_write = counter (get input "cacheWriteTokens") in
      let reasoning = counter (get output "reasoningTokens") in
      record {
        input_tokens = first_of (counter (get input "noCacheTokens")) (
            exclusive (counter (get usage "inputTokens"))
              (d.add (or_nought cache_read) (or_nought cache_write)));
        output_tokens =
            first_of (counter (get output "textTokens"))
              (exclusive (counter (get usage "outputTokens")) (or_nought reasoning));
        cache_read_tokens = cache_read;
        cache_write_tokens = cache_write;
        reasoning_tokens = reasoning;
        requests = 1;
      }

module _ {W : Type 0} (host : Host W) where
  abbrev slug_resource : TrackedCall → Operation → Option String → String → Resolved
  slug_resource call operation none name = fails (provider_unmapped call.operation_id)
  slug_resource call operation (some slug) name =
      if is_provider_slug slug
      then resolves (resource_of operation slug name)
      else fails (provider_unmapped call.operation_id)

  abbrev mapped_resource : Mapped → TrackedCall → String → String → Operation → Resolved
  mapped_resource throws call provider model_id operation =
      fails (map_resource_failed call.operation_id)
  mapped_resource keeps call provider model_id operation =
      slug_resource call operation (provider_slug host.to_lower provider) model_id
  mapped_resource (maps mapping) call provider model_id operation =
      slug_resource call operation (some mapping.provider) mapping.name

  -- `#modelResource`
  unfoldable pub model_resource : TrackedCall → String → String → Operation → Resolved
  unfolding provider_slug is_provider_slug
  model_resource call provider model_id operation =
      mapped_resource (host.map_resource provider model_id) call provider model_id operation

  -- `#warnUnsupportedOnce`
  unfoldable pub warn_unsupported_once : String → AudrTelemetry W → AudrTelemetry W
  unfolding names
  warn_unsupported_once operation_id s =
      if names s.warned_unsupported operation_id
      then s
      else warn (operation_unsupported operation_id)
          (record s { warned_unsupported = s.warned_unsupported ++ (operation_id ∷ []) })

  abbrev pub start_resolved :
      String → String → Option String → Option Attribution → AudrTelemetry W → AudrTelemetry W
  start_resolved call_id operation_id name none s = warn (attribution_unresolved operation_id) s
  start_resolved call_id operation_id name (some attribution) s =
      track
        (start_root (record {
          call_id = call_id;
          operation_id = operation_id;
          attribution = attribution;
          run_type = run_type_for operation_id;
          name = name;
        }))
        s

  abbrev pub start_call :
      Option ToolSpan → String → String → Option String → Json → AudrTelemetry W → AudrTelemetry W
  start_call (some span) call_id operation_id name context s =
      track (start_child call_id operation_id span) s
  start_call none call_id operation_id name context s =
      start_resolved call_id operation_id name (resolve_attribution context host.defaults) s

  -- `onStart`
  unfoldable pub on_start :
      Option ToolSpan → String → String → Option String → Json → AudrTelemetry W → AudrTelemetry W
  unfolding names warn_unsupported_once start_root start_child resolve_attribution run_type_for
  on_start span call_id operation_id name context s =
      if names unsupported_operations operation_id
      then warn_unsupported_once operation_id s
      else start_call span call_id operation_id (non_empty name) context s

  -- What a hook does with the call of its event, if that is tracked.
  abbrev pub on_tracked :
      Option (ℕ × TrackedCall)
      → (ℕ → TrackedCall → AudrTelemetry W → AudrTelemetry W)
      → AudrTelemetry W
      → AudrTelemetry W
  on_tracked none body s = s
  on_tracked (some (n, call)) body s = body n call s

  unfoldable pub on_resolved :
      Resolved → (Resource → AudrTelemetry W → AudrTelemetry W) → AudrTelemetry W → AudrTelemetry W
  on_resolved (fails diagnostic) body s = warn diagnostic s
  on_resolved (resolves resource) body s = body resource s

module _ {W : Type 0} ⦃d : Double W⦄ (host : Host W) where
  -- The records of a model call, an embedding and a reranking.
  unfoldable pub record_generation :
      String → Json → Json → ℕ → TrackedCall → Resource → AudrTelemetry W → AudrTelemetry W
  unfolding record_call to_llm_usage duration_ms call_span_id update_at
  record_generation call_id response_time usage n call resource s =
      record_call host call
        (record {
          span_id = call_span_id "model" call_id call.model_calls;
          duration_ms = duration_ms response_time;
          resource = resource;
          usage = llm (to_llm_usage usage);
          error_code = none;
        })
        (track (write_call n model_calls_up) s)

  unfoldable pub record_embedding :
      String → Option W → Json → TrackedCall → Resource → AudrTelemetry W → AudrTelemetry W
  unfolding record_call counter
  record_embedding embed_call_id elapsed tokens call resource = record_call host call (record {
    span_id = String.◌++◌ "embed:" embed_call_id;
    duration_ms = elapsed;
    resource = resource;
    usage = llm (requests_only (counter tokens));
    error_code = none;
  })

  unfoldable pub record_reranking :
      String → Option W → ℕ → TrackedCall → Resource → AudrTelemetry W → AudrTelemetry W
  unfolding record_call call_span_id update_at
  record_reranking call_id elapsed n call resource s =
      record_call host call
        (record {
          span_id = call_span_id "rerank" call_id call.rerank_calls;
          duration_ms = elapsed;
          resource = resource;
          usage = llm (requests_only none);
          error_code = none;
        })
        (track (write_call n rerank_calls_up) s)

  -- `onLanguageModelCallEnd`
  unfoldable pub on_language_model_call_end :
      String → String → String → Json → Json → AudrTelemetry W → AudrTelemetry W
  unfolding get_call model_resource on_resolved record_generation
  on_language_model_call_end call_id provider model_id response_time usage s =
      on_tracked host (get_call call_id s.tracker)
        (λ n call.
          on_resolved host (model_resource host call provider model_id generation)
            (record_generation call_id response_time usage n call))
        s

  -- `onToolExecutionStart`
  unfoldable pub on_tool_execution_start : String → String → AudrTelemetry W → AudrTelemetry W
  unfolding get_call open_tool_span update_at
  on_tool_execution_start call_id tool_call_id s =
      on_tracked host (get_call call_id s.tracker)
        (λ n call. track (write_call n (open_tool_span tool_call_id))) s

  -- `onToolExecutionEnd`
  unfoldable pub on_tool_execution_end :
      String → String → String → Json → Bool → AudrTelemetry W → AudrTelemetry W
  unfolding get_call close_tool_span tool_span_for find record_call duration_ms update_at
  on_tool_execution_end call_id tool_call_id tool_name time is_error s =
      on_tracked host (get_call call_id s.tracker)
        (λ n call s.
          record_call host call
            (record {
              span_id = closed_span_id tool_call_id call;
              duration_ms = duration_ms time;
              resource = tool_resource tool_name;
              usage = tool;
              error_code = if is_error then some tool_error_code else none;
            })
            (track (write_call n (close_tool_span tool_call_id)) s))
        s

  -- `onEmbedEnd`
  unfoldable pub on_embed_end :
      String → String → String → String → Option W → Json → AudrTelemetry W → AudrTelemetry W
  unfolding get_call model_resource on_resolved record_embedding
  on_embed_end call_id embed_call_id provider model_id elapsed tokens s =
      on_tracked host (get_call call_id s.tracker)
        (λ n call.
          on_resolved host (model_resource host call provider model_id embedding)
            (record_embedding embed_call_id elapsed tokens call))
        s

  -- `onRerankEnd`
  unfoldable pub on_rerank_end :
      String → String → String → Option W → AudrTelemetry W → AudrTelemetry W
  unfolding get_call model_resource on_resolved record_reranking
  on_rerank_end call_id provider model_id elapsed s =
      on_tracked host (get_call call_id s.tracker)
        (λ n call.
          on_resolved host (model_resource host call provider model_id reranking)
            (record_reranking call_id elapsed n call))
        s

  -- `executeTool`, up to the span that the tool runs in.
  unfoldable pub execute_tool : String → String → AudrTelemetry W → AudrTelemetry W
  unfolding get_call tool_span_for update_at
  execute_tool call_id tool_call_id s =
      on_tracked host (get_call call_id s.tracker)
        (λ n call. track (write_call n (tool_span_for tool_call_id))) s

-- A hook with what it reads of its event. `ends` is `onEnd`, `onAbort` and `onError`.
pub data Hook (W : Type 0) : Type 0 where
  starts : Option ToolSpan → String → String → Option String → Json → Hook W
  model_ends : String → String → String → Json → Json → Hook W
  tool_starts executes : String → String → Hook W
  tool_ends : String → String → String → Json → Bool → Hook W
  embed_ends : String → String → String → String → Option W → Json → Hook W
  rerank_ends : String → String → String → Option W → Hook W
  ends : String → Hook W

module _ {W : Type 0} ⦃d : Double W⦄ (host : Host W) where
  unfoldable pub call_hook : Hook W → AudrTelemetry W → AudrTelemetry W
  unfolding on_start on_language_model_call_end on_tool_execution_start on_tool_execution_end
      on_embed_end on_rerank_end execute_tool end_call
  call_hook (starts span call_id operation_id name context) s =
      on_start host span call_id operation_id name context s
  call_hook (model_ends call_id provider model_id time usage) s =
      on_language_model_call_end host call_id provider model_id time usage s
  call_hook (tool_starts call_id tool_call_id) s =
      on_tool_execution_start host call_id tool_call_id s
  call_hook (executes call_id tool_call_id) s = execute_tool host call_id tool_call_id s
  call_hook (tool_ends call_id tool_call_id name time is_error) s =
      on_tool_execution_end host call_id tool_call_id name time is_error s
  call_hook (embed_ends call_id embed_call_id provider model_id elapsed tokens) s =
      on_embed_end host call_id embed_call_id provider model_id elapsed tokens s
  call_hook (rerank_ends call_id provider model_id elapsed) s =
      on_rerank_end host call_id provider model_id elapsed s
  call_hook (ends call_id) s = track (end_call call_id) s

  unfoldable pub call_hooks : List (Hook W) → AudrTelemetry W → AudrTelemetry W
  unfolding call_hook
  call_hooks [] s = s
  call_hooks (hook ∷ hooks) s = call_hooks hooks (call_hook hook s)
