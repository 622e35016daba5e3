-- ===== src/MergeGateway/Recorded.antt =====
-- What a call comes to: `measure` and `#record` of adapters/merge-gateway/typescript/src/gateway.ts.
use audr.Base.{
  ◌+◌, ◌≡◌, refl, if-case, if◌then◌else◌, Bool, true, false, not, List, [], ◌∷◌, Option, none, some,
  String, str_eq, arith, Bool-cases, inl, inr,
}
use audr.Record.{Json, get}
use audr.Adapters.Numbers.{Double}
use audr.Adapters.Scope.{Scope, merge_attribution}
use audr.Adapters.Hosting.{Mapped, throws, keeps, maps}
use audr.Adapters.Recording.{Modality, RecordInput}
use audr.Adapters.Reading.{string_of}
use audr.Adapters.Effects.{
  Effect, warns, record_count, reason_count, outcome_count, outcome_count-warn_if,
}
use audr.MergeGateway.Meter.{
  gateway_reasons, Diagnostic, attribution_unresolved, record_not_queued, gateway_provider, Host,
  Call, OperationName, submit, record_input, record_named, record_mapped, record_result, Created,
  rejects, streams, unreadable, resolves, measure, begin_call, begun, on_begun, on_created,
  is_nullish,
}

-- The native call gave something else than a stream.
abbrev pub is_answered : Created → Bool
is_answered (resolves result) = true
is_answered unreadable = true
is_answered _ = false

module _ {W : Type 0} ⦃d : Double W⦄ (host : Host W) (call : Call) (duration : W) where
  outcome_count-submit :
      (input : RecordInput W) → outcome_count (submit host call duration input) ≡ 1
  unfolding outcome_count record_count reason_count submit
  outcome_count-submit input =
      omega (arith, outcome_count-warn_if W (not (host.is_queued input)) record_not_queued refl)

  outcome_count-record_named :
      (result : Json) (provider : String) (name : Option String)
      → outcome_count (record_named host call duration result provider name) ≡ 1
  unfolding record_named outcome_count record_count reason_count
  outcome_count-record_named result provider none = refl
  outcome_count-record_named result provider (some name) = elim (Bool-cases (str_eq name "")) [
    | inl e ↦ rw e refl
    | inr e ↦ rw e (outcome_count-submit (record_input host call duration result provider name))
  ]

  outcome_count-record_mapped :
      (mapped : Mapped) (result : Json)
      → outcome_count (record_mapped host call duration mapped result) ≡ 1
  unfolding record_mapped outcome_count record_count reason_count
  outcome_count-record_mapped throws result = refl
  outcome_count-record_mapped keeps result =
      outcome_count-record_named result gateway_provider (string_of (get result "model"))
  outcome_count-record_mapped (maps mapping) result =
      outcome_count-record_named result mapping.provider (some mapping.name)

  pub outcome_count-record_result :
      (result : Json) → outcome_count (record_result host call duration result) ≡ 1
  unfolding record_result outcome_count record_count reason_count
  outcome_count-record_result result =
      if-case (λ (es : List (Effect Diagnostic W)). outcome_count es ≡ 1) (is_nullish result) _ _
        (λ e. refl)
        (λ e.
          outcome_count-record_mapped
            (host.map_resource (string_of (get result "model")) (string_of (get result "vendor")))
            result)

  outcome_count-on_created :
      (created : Created)
      → outcome_count (on_created host duration (some call) created)
        ≡ (if is_answered created then 1 else 0)
  unfolding on_created outcome_count record_count reason_count
  outcome_count-on_created rejects = refl
  outcome_count-on_created streams = refl
  outcome_count-on_created unreadable = refl
  outcome_count-on_created (resolves result) = outcome_count-record_result result

-- What `measure` does of a call with this environment.
abbrev pub IsMeasured : {W : Type 0} → Option String → Created → List (Effect Diagnostic W) → Type 0
IsMeasured none created effects = effects ≡ warns attribution_unresolved ∷ []
IsMeasured (some environment) created effects =
    record_count effects + reason_count effects ≡ (if is_answered created then 1 else 0)

module _ {W : Type 0} ⦃d : Double W⦄ (host : Host W) (duration : W) where
  on_begun-IsMeasured :
      (environment : Option String) (call : Call) (created : Created)
      → IsMeasured environment created (on_begun host duration (begun environment call) created)
  unfolding on_created outcome_count
  on_begun-IsMeasured none call created = refl
  on_begun-IsMeasured (some e) call created = outcome_count-on_created host call duration created

  -- A call without an environment in its attribution is not recorded, and `measure` reports that, once, and nothing
  -- else. Of any other call, a result that is no stream is recorded once or reported once with why it is not, and neither
  -- is done where the native call fails or gives a stream.
  pub measure-once :
      (scope : Scope) (operation : OperationName) (modality : Modality) (created : Created)
      → IsMeasured
          (merge_attribution host.defaults (some scope.attribution)).environment
          created
          (measure host duration scope operation modality created)
  unfolding measure begin_call
  measure-once scope operation modality created =
      on_begun-IsMeasured (merge_attribution host.defaults (some scope.attribution)).environment
        (record {
          operation = operation;
          modality = modality;
          attribution = merge_attribution host.defaults (some scope.attribution);
          run = scope.run;
        })
        created
