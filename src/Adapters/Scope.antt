-- ===== src/Adapters/Scope.antt =====
-- adapters/openrouter/typescript/src/attribution.ts: attribution and run of a scope, and how scopes nest. The
-- `AsyncLocalStorage` that holds the scope is left out.
use audr.Base.{[], ◌∷◌, Option, none, some, String, str_eq, if◌then◌else◌}
use audr.Canonical.{Properties, put}

-- An attribution without labels has none of them, not an empty object.
pub record Attribution : Type 0 where
  pub environment : Option String
  pub account_id : Option String
  pub subscription_id : Option String
  pub user_id : Option String
  pub feature_id : Option String
  pub labels : Properties

pub record RunContext : Type 0 where
  pub run_id : String
  pub parent_span_id : Option String
  pub name : Option String

pub record Scope : Type 0 where
  pub attribution : Attribution
  pub run : Option RunContext

pub record AudrContext : Type 0 where
  pub attribution : Option Attribution
  pub run : Option RunContext

abbrev pub no_attribution : Attribution
no_attribution = record {
  environment = none;
  account_id = none;
  subscription_id = none;
  user_id = none;
  feature_id = none;
  labels = [];
}

-- `a ?? b`
abbrev pub first_of {ℓ} : {A : Type ℓ} → Option A → Option A → Option A
first_of (some a) b = some a
first_of none b = b

-- `{ ...base, ...override }`
unfoldable pub spread : Properties → Properties → Properties
unfolding put
spread base [] = base
spread base ((key, value) ∷ rest) = spread (put key value base) rest

unfoldable pub merge_with : Attribution → Attribution → Attribution
unfolding spread
merge_with base override = record {
  environment = first_of override.environment base.environment;
  account_id = first_of override.account_id base.account_id;
  subscription_id = first_of override.subscription_id base.subscription_id;
  user_id = first_of override.user_id base.user_id;
  feature_id = first_of override.feature_id base.feature_id;
  labels = spread base.labels override.labels;
}

-- `mergeAttribution`
unfoldable pub merge_attribution : Attribution → Option Attribution → Attribution
unfolding merge_with
merge_attribution base none = merge_with base no_attribution
merge_attribution base (some override) = merge_with base override

-- The fields that an inner run takes over from an outer one of the same id.
abbrev pub same_run : Option RunContext → String → Option RunContext
same_run none id = none
same_run (some outer) id = if str_eq outer.run_id id then some outer else none

abbrev pub join_run : Option RunContext → RunContext → RunContext
join_run none run = run
join_run (some same) run = record {
  run_id = run.run_id;
  parent_span_id = first_of run.parent_span_id same.parent_span_id;
  name = first_of run.name same.name;
}

-- `nestRun`
unfoldable pub nest_run : Option RunContext → Option RunContext → Option RunContext
nest_run outer none = outer
nest_run outer (some run) = some (join_run (same_run outer run.run_id) run)

-- `nest`, of a context that can be read.
unfoldable pub nest : Scope → AudrContext → Scope
unfolding merge_attribution nest_run
nest outer context = record {
  attribution = merge_attribution outer.attribution context.attribution;
  run = nest_run outer.run context.run;
}
