-- ===== src/Adapters/Hosting.antt =====
-- What the adapters for gateways share: the host's `mapResource`, and the run of a call.
use audr.Base.{Bool, ◌&&◌, Option, none, some, String, leb, if◌then◌else◌}
use audr.Base.Result.{units}
use audr.Adapters.Scope.{RunContext}

pub record ResourceMapping : Type 0 where
  pub provider : String
  pub name : String

-- What `mapResource` comes to.
pub data Mapped : Type 0 where
  throws keeps : Mapped
  maps : ResourceMapping → Mapped

-- `fitsRunId`
unfoldable pub fits_run_id : String → Bool
unfolding units
fits_run_id id = leb 8 (units id) && leb (units id) 64

-- `run?.run_id ?? (fitsRunId(id) ? id : uuidv7())`
abbrev pub run_id_of : Option RunContext → String → String → String
run_id_of (some run) id fresh = run.run_id
run_id_of none id fresh = if fits_run_id id then id else fresh

abbrev pub run_parent : Option RunContext → Option String
run_parent none = none
run_parent (some run) = run.parent_span_id

abbrev pub run_name : Option RunContext → Option String
run_name none = none
run_name (some run) = run.name
