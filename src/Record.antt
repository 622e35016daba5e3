-- ===== src/Record.antt =====
-- The values that the program handles: adapters/core/typescript/src/record.ts, errors.ts,
-- results.ts and sink.ts.
use audr.Base.{str_eq, if◌then◌else◌, ℕ, Bool, true, false, List, Option, String}

-- A finite number is its JSON text: no modelled code computes with it. `non_finite` is NaN or
-- an infinity. `exotic` is an object that is not plain data, such as a `Date`.
mutual
  pub data Json : Type 0 where
    undefined null non_finite exotic : Json
    bool : Bool → Json
    num : String → Json
    str : String → Json
    arr : Items → Json
    obj : Fields → Json

  pub data Items : Type 0 where
    nil : Items
    cons : Json → Items → Items

  pub data Fields : Type 0 where
    end : Fields
    field : String → Json → Fields → Fields

-- The value of a key, `undefined` where there is none.
unfoldable pub value_of : Fields → String → Json
value_of end key = undefined
value_of (field k v fs) key = let later = value_of fs key in if str_eq k key then v else later

-- A property of a value that is an object; `undefined` of any other.
unfoldable pub get : Json → String → Json
unfolding value_of
get (obj fs) key = value_of fs key
get _ key = undefined

-- The fields that the modelled code reads: `record_id`, `attribution.subscription_id`,
-- `attribution.feature_id`, `timing.event_time`, whether `corrects` is there, and all of it as a value.
pub record AudrRecord : Type 0 where
  pub record_id : String
  pub subscription_id : Option String
  pub feature_id : Option String
  pub event_time : String
  pub corrects : Bool
  pub body : Json

-- What `Date.parse` gives, in milliseconds: a whole number, of either sign, or NaN.
pub data Instant : Type 0 where
  pos negsuc : ℕ → Instant
  nan : Instant

pub data ErrorCode : Type 0 where
  required forbidden unknown_property invalid_type invalid_enum invalid_string : ErrorCode
  string_too_long invalid_identifier invalid_datetime millisecond_precision : ErrorCode
  future_event_time invalid_counter invalid_cost invalid_currency : ErrorCode
  invalid_property_name too_many_properties non_pseudonymous_id empty_usage : ErrorCode
  invalid_structure unsupported_version not_json : ErrorCode

-- The message is a function of the code, and is left out.
pub record ValidationIssue : Type 0 where
  pub code : ErrorCode
  pub path : String

-- `issue` of errors.ts.
abbrev pub issue : ErrorCode → String → ValidationIssue
issue code path = record { code = code; path = path }

pub data SubmitOutcome : Type 0 where
  queued rejected_invalid dropped_queue_full dropped_not_running : SubmitOutcome

pub record SubmitResult : Type 0 where
  pub outcome : SubmitOutcome
  pub queued : Bool
  pub issues : List ValidationIssue

pub data Disposition : Type 0 where
  dropped unknown : Disposition

pub data FailureReason : Type 0 where
  invalid queue_full shutdown rejected sink_failure sink_closed inconclusive : FailureReason

pub record FailedRecord : Type 0 where
  pub item : AudrRecord
  pub disposition : Disposition
  pub reason : FailureReason
  pub retryable : Bool
  pub detail : Option String

pub record RejectedRecord : Type 0 where
  pub record_id : String
  pub detail : Option String

-- An absent `rejected` or `unknown` is the empty list, which the pipeline reads it as.
pub data BatchResult : Type 0 where
  accepted : List RejectedRecord → List String → BatchResult
  retryable_failure permanent_failure : Option String → BatchResult
  closed : BatchResult

-- `BatchResult.failed` of sink.ts.
unfoldable pub failed : Bool → Option String → BatchResult
failed true detail = retryable_failure detail
failed false detail = permanent_failure detail
