-- ===== src/Client/Calls.antt =====
-- adapters/core/typescript/src/client.ts: `record`, `flush` and `shutdown`. `structuredClone` and `inspect`
-- of validate.ts are parameters.
use audr.Base.{Bool, true, false, List, [], ◌∷◌, Option, none, some, str_eq, if◌then◌else◌}
use audr.Record.{
  AudrRecord, Json, Fields, undefined, obj, end, field, ErrorCode, ValidationIssue, SubmitResult,
  SubmitOutcome,
}
use audr.Pipeline.State.{Pipeline, is_stopping}
use audr.Pipeline.Submit.{submit, report_invalid}
use audr.Pipeline.Stop.{begin_drain, begin_stop}
use audr.Client.Options.{Number, check_timeout}

-- What `inspect` gives: the issues, and the copy as a record.
pub record Inspection : Type 0 where
  pub issues : List ValidationIssue
  pub data_ : AudrRecord

-- The emitter of the options, and the parameters. `structuredClone` throws (`none`) on what is not plain data.
pub record Client : Type 0 where
  pub emitter : Option Json
  pub structured_clone : Json → Option Json
  pub inspect : Json → Inspection

abbrev pub is_object : Json → Bool
is_object (obj _) = true
is_object _ = false

-- `record.emitter !== undefined`
unfoldable pub has_emitter : Fields → Bool
has_emitter end = false
has_emitter (field key undefined rest) = has_emitter rest
has_emitter (field key v rest) =
    let later = has_emitter rest in if str_eq key "emitter" then true else later

-- `{ ...record, emitter }`
unfoldable pub with_emitter : Json → Fields → Fields
with_emitter emitter end = field "emitter" emitter end
with_emitter emitter (field key v rest) =
    let later = with_emitter emitter rest in
    if str_eq key "emitter" then field key emitter rest else field key v later

-- `#stamp`
unfoldable pub stamp : Option Json → Json → Json
unfolding has_emitter with_emitter
stamp (some emitter) (obj fs) = if has_emitter fs then obj fs else obj (with_emitter emitter fs)
stamp _ value = value

abbrev result : SubmitOutcome → List ValidationIssue → SubmitResult
result outcome issues = record { outcome = outcome; queued = false; issues = issues }

-- The end of `record`, at what `inspect` gives.
unfoldable pub record_inspected :
    Pipeline → Json → List ValidationIssue → AudrRecord → Pipeline × SubmitResult
unfolding submit report_invalid
record_inspected p copy [] data_ = submit p data_
record_inspected p copy (issue ∷ issues) data_ = (
  if is_object copy then report_invalid p data_ else p,
  result SubmitOutcome.rejected_invalid (issue ∷ issues),
)

-- At what `structuredClone` gives.
unfoldable pub record_copy : Client → Pipeline → Option Json → Pipeline × SubmitResult
unfolding record_inspected
record_copy c p none = (
  p,
  result SubmitOutcome.rejected_invalid (record { code = ErrorCode.invalid_type; path = "/" } ∷ []),
)
record_copy c p (some copy) = record_inspected p copy (c.inspect copy).issues (c.inspect copy).data_

-- `record`
unfoldable pub record_value : Client → Pipeline → Json → Pipeline × SubmitResult
unfolding record_copy stamp
record_value c p value =
    if is_stopping p.stopping
    then (p, result SubmitOutcome.dropped_not_running [])
    else record_copy c p (c.structured_clone (stamp c.emitter value))

-- `flush`, up to its `await`: after `shutdown` it waits for that.
unfoldable pub flush : Pipeline → Number → Pipeline
unfolding check_timeout begin_drain
flush p timeout = elim (check_timeout timeout) [
  | some message ↦ p
  | none ↦ if is_stopping p.stopping then p else begin_drain p
]

-- `shutdown`, up to its `await`.
unfoldable pub shutdown : Pipeline → Number → Pipeline
unfolding check_timeout begin_stop
shutdown p timeout = elim (check_timeout timeout) [
  | some message ↦ p
  | none ↦ if is_stopping p.stopping then p else begin_stop p
]
