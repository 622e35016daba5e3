-- ===== src/OpenRouter/Valid.antt =====
-- The identity fields of a record of the OpenRouter adapter: `provider`, `name` and `run_id` of `#record` in
-- adapters/openrouter/typescript/src/openrouter.ts.
use audr.Base.{
  ℕ, ◌≡◌, refl, All, All-append, Bool, true, false, List, [], Option, none, some, String, str_eq,
  if◌then◌else◌, Bool-cases, inl, inr,
}
use audr.Base.Result.{every}
use audr.Adapters.Numbers.{Double, given}
use audr.Adapters.Scope.{RunContext}
use audr.Adapters.Recording.{RecordInput}
use audr.Adapters.Slug.{IsSlug, provider_slug-IsSlug, is_provider_slug}
use audr.OpenRouter.Mapping.{Observation, Facts, needs_lookup, served_provider, CostResult}
use audr.OpenRouter.Lookup.{LookupOutcome, found, failed, is_generation_id}
use audr.OpenRouter.Meter.{
  Diagnostic, provider_unresolved, byok_cost_incomplete, record_not_queued, Effect, warns, records,
  Host, Call, Mapped, throws, keeps, maps, ResourceMapping, record_observed, record_found,
  record_priced, record_mapped, record_name, record_named, record_input, find_facts, submit,
  warn_if, on_outcome, mapped_slug, run_id_of, fits_run_id, is_missing,
}

-- The records that a step hands to the client have `P`.
abbrev pub Recorded : {W : Type 0} → (RecordInput W → Type 0) → Effect Diagnostic W → Type 0
Recorded P (warns d) = Unit
Recorded P (records r) = P r

abbrev pub AllRecorded :
    {W : Type 0} → (RecordInput W → Type 0) → List (Effect Diagnostic W) → Type 0
AllRecorded P = All (Recorded P)

pub record IsIdentified {W : Type 0} (r : RecordInput W) : Type 0 where
  pub provider : is_provider_slug r.resource.provider ≡ true
  pub name : str_eq r.resource.name "" ≡ false
  pub run_id : fits_run_id r.run.run_id ≡ true

abbrev pub MapsToSlug : Mapped → Type 0
MapsToSlug (maps mapping) = is_provider_slug mapping.provider ≡ true
MapsToSlug _ = Unit

pub record IsHost {W : Type 0} (host : Host W) : Type 0 where
  pub uuid : (n : ℕ) → fits_run_id (host.uuid n) ≡ true
  pub mapping : (model vendor : Option String) → MapsToSlug (host.map_resource model vendor)

abbrev pub RunFits : Option RunContext → Type 0
RunFits none = Unit
RunFits (some run) = fits_run_id run.run_id ≡ true

warn_if-AllRecorded :
    (W : Type 0) (P : RecordInput W → Type 0) (b : Bool) (d : Diagnostic)
    → AllRecorded P (warn_if b d)
unfolding warn_if
warn_if-AllRecorded W P true d = (tt, tt)
warn_if-AllRecorded W P false d = tt

run_id_of-fits :
    (run : Option RunContext) (id fresh : String)
    → RunFits run
    → fits_run_id fresh ≡ true
    → fits_run_id (run_id_of run id fresh) ≡ true
run_id_of-fits (some run) id fresh h g = h
run_id_of-fits none id fresh h g = elim (Bool-cases (fits_run_id id)) [
  | inl e ↦ rw e e
  | inr e ↦ rw e g
]

given-IsSlug :
    (slug : Option String) → IsSlug slug → is_provider_slug (given "openrouter" slug) ≡ true
unfolding is_provider_slug every
given-IsSlug none h = refl
given-IsSlug (some s) h = h

mapped_slug-IsSlug :
    (to_lower : String → String) (mapping : Option ResourceMapping) (served : Option String)
    → MapsToSlug (elim mapping [ none ↦ keeps | some m ↦ maps m ])
    → IsSlug (mapped_slug to_lower mapping served)
mapped_slug-IsSlug to_lower (some mapping) served h = h
mapped_slug-IsSlug to_lower none none h = tt
mapped_slug-IsSlug to_lower none (some vendor) h = (provider_slug-IsSlug to_lower vendor).0

module _ {W : Type 0} ⦃d : Double W⦄ (host : Host W) (h : IsHost host) (call : Call)
    (fits : RunFits call.run) (duration : W) where
  record_priced-IsIdentified :
      (observed : Observation W) (slug : Option String) (name : String) (cost : CostResult W)
      → IsSlug slug
      → str_eq name "" ≡ false
      → AllRecorded IsIdentified (record_priced host call duration observed slug name cost)
  unfolding record_priced submit record_input
  record_priced-IsIdentified observed slug name cost slug_fits named =
      All-append (Recorded IsIdentified) (warn_if (is_missing slug) provider_unresolved) _
        (warn_if-AllRecorded W IsIdentified (is_missing slug) provider_unresolved)
        (All-append (Recorded IsIdentified) (warn_if cost.incomplete byok_cost_incomplete) _
          (warn_if-AllRecorded W IsIdentified cost.incomplete byok_cost_incomplete)
          (
            record {
              provider = given-IsSlug slug slug_fits;
              name = named;
              run_id = run_id_of-fits call.run _ (host.uuid 1) fits (h.uuid 1);
            },
            warn_if-AllRecorded W IsIdentified _ record_not_queued,
          ))

  record_name-IsIdentified :
      (name : Option String) (observed : Observation W) (facts : Option (Facts W))
      (slug : Option String)
      → IsSlug slug
      → AllRecorded IsIdentified (record_name host call duration name observed facts slug)
  unfolding record_name record_named
  record_name-IsIdentified none observed facts slug slug_fits = (tt, tt)
  record_name-IsIdentified (some name) observed facts slug slug_fits =
      elim (Bool-cases (str_eq name "")) [
        | inl e ↦ rw e (tt, tt)
        | inr e ↦ rw e (record_priced-IsIdentified observed slug name _ slug_fits e)
      ]

  record_mapped-IsIdentified :
      (mapped : Mapped) (observed : Observation W) (facts : Option (Facts W))
      (served : Option String)
      → MapsToSlug mapped
      → AllRecorded IsIdentified (record_mapped host call duration mapped observed facts served)
  unfolding record_mapped
  record_mapped-IsIdentified throws observed facts served g = (tt, tt)
  record_mapped-IsIdentified keeps observed facts served g =
      record_name-IsIdentified observed.model observed facts (mapped_slug host.to_lower none served)
        (mapped_slug-IsSlug host.to_lower none served tt)
  record_mapped-IsIdentified (maps mapping) observed facts served g =
      record_name-IsIdentified (some mapping.name) observed facts
        (mapped_slug host.to_lower (some mapping) served)
        (mapped_slug-IsSlug host.to_lower (some mapping) served g)

  on_outcome-IsIdentified :
      (outcome : LookupOutcome W)
      → AllRecorded IsIdentified (on_outcome host call duration outcome).1
  on_outcome-IsIdentified (found facts) = tt
  on_outcome-IsIdentified (failed reason) = (tt, tt)

  find_facts-IsIdentified :
      (id : Option String) → AllRecorded IsIdentified (find_facts host call duration id).1
  unfolding find_facts
  find_facts-IsIdentified none = (tt, tt)
  find_facts-IsIdentified (some id) = elim (Bool-cases (is_generation_id id)) [
    | inl e ↦ rw e (on_outcome-IsIdentified (host.lookup id))
    | inr e ↦ rw e (tt, tt)
  ]

  lookup-IsIdentified :
      (b : Bool) (id : Option String)
      → AllRecorded IsIdentified (if b then find_facts host call duration id else (none, [])).1
  lookup-IsIdentified true id = find_facts-IsIdentified id
  lookup-IsIdentified false id = tt

  record_found-IsIdentified :
      (observed : Observation W) (looked : Option (Facts W) × List (Effect Diagnostic W))
      → AllRecorded IsIdentified looked.1
      → AllRecorded IsIdentified (record_found host call duration observed looked)
  unfolding record_found
  record_found-IsIdentified observed (facts, tried) g =
      let served = served_provider observed facts in
      All-append (Recorded IsIdentified) tried _ g (
        record_mapped-IsIdentified (host.map_resource observed.model served) observed facts served
          (h.mapping observed.model served))

  -- Every record that is handed to the client has a provider slug of lower-case letters, digits and dashes, a name, and
  -- a run id of 8 to 64 units, whatever the result, the lookup and the vendor's name are, when `mapResource`, where it
  -- replaces the provider, gives a slug, and the ids of `uuidv7` and of the host's run have those lengths.
  pub record_observed-IsIdentified :
      (observed : Option (Observation W))
      → AllRecorded IsIdentified (record_observed host call duration observed)
  unfolding record_observed
  record_observed-IsIdentified none = (tt, tt)
  record_observed-IsIdentified (some observed) =
      record_found-IsIdentified observed
        (if needs_lookup observed then find_facts host call duration observed.id else (none, []))
        (lookup-IsIdentified (needs_lookup observed) observed.id)
