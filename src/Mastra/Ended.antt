-- ===== src/Mastra/Ended.antt =====
-- What an ended span of Mastra gives: `#record` of adapters/mastra/typescript/src/exporter.ts.
use audr.Base.{
  ℕ, ◌+◌, ◌≡◌, refl, sym, ap, ◌∙◌, str_eq_iff, str_eq_refl, Bool, true, false, not, ◌&&◌, List,
  Option, none, some, String, str_eq, if◌then◌else◌, names, arith, Bool-cases, inl, inr,
}
use audr.Record.{Json, get}
use audr.Adapters.Numbers.{Double}
use audr.Adapters.Scope.{Attribution, first_of}
use audr.Adapters.Recording.{RecordInput, generation, embedding, Operation}
use audr.Adapters.Reading.{non_empty, resolve_attribution}
pub use audr.Adapters.Effects.{Reasons}
unfoldable pub use audr.Adapters.Effects.{record_count, reason_count, outcome_count}
use audr.Mastra.Exporter.{
  Span, TracingEvent, span_ended, fresh, run, actions, Diagnostic, record_not_queued, Host,
  Submission, queued, refused, throws, Metering, ignored, unresolved, meters, Metered,
  record_metered, record_attributed, submitted, record_span, meter_span, meter_tool, meter_model,
  meter_embedding, model_metering, tool_metering, metered_span_types, track_delegation_child,
  record_input,
}
use audr.Mastra.Delegation.{
  Watch, delegate, idle, is_delegating, watch_all, run-Agrees, track_delegation_child-Agrees,
  is_child_of,
}

-- The diagnostics that say why a span is not recorded.
abbrev pub is_reason : Diagnostic → Bool
is_reason record_not_queued = false
is_reason _ = true

instance abbrev pub mastra_reasons : Reasons Diagnostic
mastra_reasons = record { is_reason = is_reason }

module _ {W : Type 0} where
  abbrev due : Metering W → ℕ
  due ignored = 0
  due unresolved = 1
  due (meters m) = 1

abbrev is_named : Json → Bool
is_named name = elim (non_empty name) [ none ↦ false | some _ ↦ true ]

-- The span is a tool call with a name, which delegated.
abbrev pub delegated : {W : Type 0} → Span W → Watch → Bool
delegated span w =
    str_eq span.span_type "tool_call" && (is_named span.entity_name && is_delegating w)

abbrev pub is_metered : {W : Type 0} → Span W → Bool
is_metered span = names metered_span_types span.span_type

other_type :
    (t a : String) → str_eq t a ≡ true → str_eq a "tool_call" ≡ false → str_eq t "tool_call" ≡ false
other_type t a e h = ap (λ s. str_eq s "tool_call") ((str_eq_iff t a).0 e) ∙ h

flipped : (a b : String) → str_eq a b ≡ false → str_eq b a ≡ false
flipped a b h = elim (Bool-cases (str_eq b a)) [
  | inl e ↦ absurd (ground (arith, ap (str_eq a) ((str_eq_iff b a).0 e), str_eq_refl a))
  | inr e ↦ e
]

only_tools :
    (t : String)
    → str_eq t "model_inference" ≡ false
    → str_eq t "rag_embedding" ≡ false
    → names metered_span_types t ≡ true
    → not (str_eq t "mcp_tool_call") ≡ str_eq t "tool_call"
unfolding names
only_tools t e f h = elim (Bool-cases (str_eq t "mcp_tool_call")) [
  | inl g ↦ rw g (sym (other_type t "mcp_tool_call" g refl))
  | inr g ↦ ground (
    arith,
    h,
    flipped t "model_inference" e,
    flipped t "rag_embedding" f,
    flipped t "mcp_tool_call" g,
    flipped t "tool_call",
  )
]

module _ {W : Type 0} ⦃d : Double W⦄ (host : Host W) where
  submitted-count :
      (input : RecordInput W) (s : Submission) → outcome_count (submitted host input s) ≡ 1
  unfolding outcome_count record_count reason_count
  submitted-count input queued = refl
  submitted-count input refused = refl
  submitted-count input throws = refl

  record_attributed-count :
      (span : Span W) (m : Metered W) (a : Option Attribution)
      → outcome_count (record_attributed host span m a) ≡ 1
  unfolding outcome_count record_count reason_count
  record_attributed-count span m none = refl
  record_attributed-count span m (some a) =
      submitted-count (record_input span m a) (host.submit (record_input span m a))

  record_metered-count :
      (span : Span W) (m : Metering W) → outcome_count (record_metered host span m) ≡ due m
  unfolding outcome_count record_count reason_count
  record_metered-count span ignored = refl
  record_metered-count span unresolved = refl
  record_metered-count span (meters m) =
      record_attributed-count span m (resolve_attribution span.metadata host.defaults)

  tool_metering-due :
      (delegates : Bool) (namespace name : Option String)
      → due (tool_metering {W = W} delegates namespace name)
        ≡ (if delegates && elim name [ none ↦ false | some _ ↦ true ] then 0 else 1)
  tool_metering-due delegates namespace none = ground arith
  tool_metering-due true namespace (some name) = refl
  tool_metering-due false namespace (some name) = refl

  model_metering-due :
      (operation : Operation) (usage : Json) (provider name : Option String)
      → due (model_metering {W = W} operation usage provider name) ≡ 1
  model_metering-due operation usage none none = refl
  model_metering-due operation usage none (some name) = refl
  model_metering-due operation usage (some provider) none = refl
  model_metering-due operation usage (some provider) (some name) = refl

  meter_model-due :
      (to_lower : String → String) (attributes : Json)
      → due (meter_model {W = W} to_lower attributes) ≡ 1
  unfolding meter_model
  meter_model-due to_lower attributes =
      model_metering-due generation (get attributes "usage") _
        (first_of (non_empty (get attributes "responseModel")) (non_empty (get attributes "model")))

  meter_embedding-due :
      (to_lower : String → String) (attributes : Json)
      → due (meter_embedding {W = W} to_lower attributes) ≡ 1
  unfolding meter_embedding
  meter_embedding-due to_lower attributes =
      model_metering-due embedding (get attributes "usage") _ (non_empty (get attributes "model"))

  -- One outcome of a span, by the set of the tool calls that delegate.
  abbrev due_with : List String → Span W → ℕ
  due_with delegation span =
      if str_eq span.span_type "tool_call"
        && (is_named span.entity_name && names delegation span.id)
      then 0
      else 1

  one_due :
      (delegation : List String) (span : Span W)
      → str_eq span.span_type "tool_call" ≡ false
      → due_with delegation span ≡ 1
  one_due delegation span h = ground arith

  meter_tool-due :
      (delegation : List String) (span : Span W)
      → (not (str_eq span.span_type "mcp_tool_call") ≡ str_eq span.span_type "tool_call")
      → due (meter_tool delegation span) ≡ due_with delegation span
  unfolding meter_tool
  meter_tool-due delegation span h = ground (
    arith,
    tool_metering-due (not (str_eq span.span_type "mcp_tool_call") && names delegation span.id)
        (if str_eq span.span_type "mcp_tool_call"
          then non_empty (get span.attributes "mcpServer")
          else none)
        (non_empty span.entity_name),
    h,
  )

  meter_span-due :
      (to_lower : String → String) (delegation : List String) (span : Span W)
      → is_metered span ≡ true
      → due (meter_span to_lower delegation span) ≡ due_with delegation span
  unfolding meter_span names
  meter_span-due to_lower delegation span h =
      elim (Bool-cases (str_eq span.span_type "model_inference")) [
        | inl e ↦ simp e (
            meter_model-due to_lower span.attributes
            ∙ sym (one_due delegation span (other_type span.span_type "model_inference" e refl)))
        | inr e ↦ elim (Bool-cases (str_eq span.span_type "rag_embedding")) [
          | inl f ↦
              simp (e, f)
                (meter_embedding-due to_lower span.attributes
                  ∙ sym
                      (one_due delegation span (other_type span.span_type "rag_embedding" f refl)))
          | inr f ↦ simp (e, f) (meter_tool-due delegation span (only_tools span.span_type e f h))
        ]
      ]

  record_span-count :
      (delegation : List String) (span : Span W)
      → outcome_count (record_span host delegation span)
        ≡ (if is_metered span then due_with delegation span else 0)
  unfolding record_span outcome_count record_count reason_count
  record_span-count delegation span = elim (Bool-cases (is_metered span)) [
    | inl e ↦ simp e (
        record_metered-count span (meter_span host.to_lower delegation span)
        ∙ meter_span-due host.to_lower delegation span e)
    | inr e ↦ simp e refl
  ]

  -- A tool call is no child of any span.
  not_child :
      (id : String) (span : Span W)
      → str_eq span.span_type "tool_call" ≡ true
      → is_child_of id span ≡ false
  unfolding is_child_of names
  not_child id span e =
      let same = (str_eq_iff span.span_type "tool_call").0 e in
      ground (arith, ap (str_eq "agent_run") same, ap (str_eq "workflow_run") same)

  -- After any events, a metered span that ends is recorded once, or reported once with why it is not, and never both;
  -- but a named tool call that is known to delegate to an agent or a workflow gives neither, and nor does a span of any other type.
  pub ended-outcome :
      (events : List (TracingEvent W)) (span : Span W)
      → let done = actions host (span_ended span) (run events fresh) in
        record_count done + reason_count done
        ≡ (if is_metered span && not (delegated span (watch_all span.id events idle)) then 1 else 0)
  unfolding actions outcome_count record_count reason_count
  ended-outcome events span =
      let now = run events fresh in
      let w = watch_all span.id events idle in
      let agrees = track_delegation_child-Agrees span.id span now w (run-Agrees span.id events) in
      let count = record_span-count (track_delegation_child span now).delegation_tool_spans span in
      elim (Bool-cases (str_eq span.span_type "tool_call")) [
        | inl e ↦ ground (
          arith,
          count,
          agrees.delegates
              ∙ ap (λ b. is_delegating (if b then delegate w else w)) (not_child span.id span e),
        )
        | inr e ↦ ground (arith, count)
      ]
