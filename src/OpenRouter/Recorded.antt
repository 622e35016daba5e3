-- ===== src/OpenRouter/Recorded.antt =====
-- What the steps of OpenRouter/Meter.antt come to: `#record` and `measure` of adapters/openrouter/typescript/src/openrouter.ts.
use audr.Base.{
  ◌+◌, ◌≡◌, refl, Bool, true, false, not, List, [], Option, none, some, String, str_eq,
  if◌then◌else◌, arith, Bool-cases, inl, inr,
}
use audr.Adapters.Numbers.{Double}
use audr.Adapters.Recording.{RecordInput}
pub use audr.Adapters.Effects.{
  Reasons, outcome_count-append, outcome_count-skip, outcome_count-warn_if,
}
unfoldable pub use audr.Adapters.Effects.{record_count, reason_count, outcome_count}
use audr.OpenRouter.Mapping.{Observation, Facts, needs_lookup, served_provider, CostResult}
use audr.OpenRouter.Lookup.{LookupOutcome, found, failed, is_generation_id}
use audr.OpenRouter.Meter.{
  Diagnostic, usage_unreported, model_unreported, hook_failed, stream_incomplete,
  provider_unresolved, byok_cost_incomplete, record_not_queued, Effect, Host, Call, Mapped, throws,
  keeps, maps, record_observed, record_found, record_priced, is_missing, record_mapped, record_name,
  record_named, record_input, find_facts, submit, warn_if, on_outcome, mapped_slug,
}

-- The diagnostics that say why a call is not recorded.
abbrev pub is_reason : Diagnostic → Bool
is_reason usage_unreported = true
is_reason model_unreported = true
is_reason hook_failed = true
is_reason (stream_incomplete reason) = true
is_reason _ = false

instance abbrev pub openrouter_reasons : Reasons Diagnostic
openrouter_reasons = record { is_reason = is_reason }

module _ {W : Type 0} ⦃d : Double W⦄ (host : Host W) (call : Call) (duration : W) where
  outcome_count-submit :
      (input : RecordInput W) → outcome_count (submit host call duration input) ≡ 1
  unfolding outcome_count record_count reason_count submit
  outcome_count-submit input =
      omega (arith, outcome_count-warn_if W (not (host.is_queued input)) record_not_queued refl)

  outcome_count-record_priced :
      (observed : Observation W) (slug : Option String) (name : String) (cost : CostResult W)
      → outcome_count (record_priced host call duration observed slug name cost) ≡ 1
  unfolding record_priced
  outcome_count-record_priced observed slug name cost =
      outcome_count-skip (warn_if (is_missing slug) provider_unresolved) _
        (outcome_count-warn_if W (is_missing slug) provider_unresolved refl)
        (outcome_count-skip (warn_if cost.incomplete byok_cost_incomplete) _
          (outcome_count-warn_if W cost.incomplete byok_cost_incomplete refl)
          (outcome_count-submit (record_input host call duration observed slug name cost.cost)))

  outcome_count-record_named :
      (observed : Observation W) (facts : Option (Facts W)) (slug : Option String) (name : String)
      → outcome_count (record_named host call duration observed facts slug name) ≡ 1
  unfolding record_named
  outcome_count-record_named observed facts slug name =
      outcome_count-record_priced observed slug name _

  outcome_count-record_name :
      (name : Option String) (observed : Observation W) (facts : Option (Facts W))
      (slug : Option String)
      → outcome_count (record_name host call duration name observed facts slug) ≡ 1
  unfolding record_name outcome_count record_count reason_count
  outcome_count-record_name none observed facts slug = refl
  outcome_count-record_name (some name) observed facts slug = elim (Bool-cases (str_eq name "")) [
    | inl e ↦ rw e refl
    | inr e ↦ rw e (outcome_count-record_named observed facts slug name)
  ]

  outcome_count-record_mapped :
      (mapped : Mapped) (observed : Observation W) (facts : Option (Facts W))
      (served : Option String)
      → outcome_count (record_mapped host call duration mapped observed facts served) ≡ 1
  unfolding record_mapped outcome_count record_count reason_count
  outcome_count-record_mapped throws observed facts served = refl
  outcome_count-record_mapped keeps observed facts served =
      outcome_count-record_name observed.model observed facts
        (mapped_slug host.to_lower none served)
  outcome_count-record_mapped (maps mapping) observed facts served =
      outcome_count-record_name (some mapping.name) observed facts
        (mapped_slug host.to_lower (some mapping) served)

  outcome_count-on_outcome :
      (o : LookupOutcome W) → outcome_count (on_outcome host call duration o).1 ≡ 0
  unfolding outcome_count record_count reason_count
  outcome_count-on_outcome (found facts) = refl
  outcome_count-on_outcome (failed reason) = refl

  outcome_count-find_facts :
      (id : Option String) → outcome_count (find_facts host call duration id).1 ≡ 0
  unfolding find_facts outcome_count record_count reason_count
  outcome_count-find_facts none = refl
  outcome_count-find_facts (some id) = elim (Bool-cases (is_generation_id id)) [
    | inl e ↦ rw e (outcome_count-on_outcome (host.lookup id))
    | inr e ↦ rw e refl
  ]

  outcome_count-record_found :
      (observed : Observation W) (looked : Option (Facts W) × List (Effect Diagnostic W))
      → outcome_count looked.1 ≡ 0
      → outcome_count (record_found host call duration observed looked) ≡ 1
  unfolding record_found
  outcome_count-record_found observed (facts, tried) h =
      let served = served_provider observed facts in
      outcome_count-skip tried _ h (
        outcome_count-record_mapped (host.map_resource observed.model served) observed facts served)

  outcome_count-lookup :
      (b : Bool) (id : Option String)
      → outcome_count (if b then find_facts host call duration id else (none, [])).1 ≡ 0
  unfolding outcome_count record_count reason_count
  outcome_count-lookup true id = outcome_count-find_facts id
  outcome_count-lookup false id = refl

  -- An observed result is either recorded, once, or reported, once, with why there is no record: never both, and
  -- never neither.
  pub record_observed-once :
      (observed : Option (Observation W))
      → let effects = record_observed host call duration observed in
        record_count effects + reason_count effects ≡ 1
  unfolding record_observed outcome_count record_count reason_count
  record_observed-once none = refl
  record_observed-once (some observed) =
      outcome_count-record_found observed
        (if needs_lookup observed then find_facts host call duration observed.id else (none, []))
        (outcome_count-lookup (needs_lookup observed) observed.id)
