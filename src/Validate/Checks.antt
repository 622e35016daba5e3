-- ===== src/Validate/Checks.antt =====
-- adapters/core/typescript/src/validate.ts: `inspect` and what it calls, apart from Validate/Issues.antt. The generated validator and the
-- time are parameters. An exotic object has no properties of its own.
use Prim.Native.String
use audr.Base.{
  ℕ, zero, suc, ◌+◌, ◌*◌, is_empty, Bool, true, false, not, ◌&&◌, ◌||◌, List, [], ◌∷◌, ◌++◌, Option,
  none, some, String, str_eq, leb, ltb, ◌==◌, if◌then◌else◌, names,
}
use audr.Base.Text.{is_digit, matches}
use audr.Base.Result.{every}
use audr.Record.{
  Json, undefined, exotic, str, obj, Fields, end, field, get, Instant, pos, negsuc, nan, ErrorCode,
  required, forbidden, unknown_property, invalid_type, invalid_enum, invalid_string,
  string_too_long, invalid_identifier, invalid_datetime, millisecond_precision, future_event_time,
  invalid_counter, invalid_cost, invalid_currency, invalid_property_name, too_many_properties,
  non_pseudonymous_id, empty_usage, invalid_structure, unsupported_version, not_json,
  ValidationIssue, issue,
}
use audr.Validate.Issues.{SchemaError, schema_issues, caller_keyed, includes_text}
use audr.Validate.Timestamps.{Moment, parse_timestamp, slice_from}

abbrev pub repeat : ℕ → (ℕ → Bool) → List (ℕ → Bool)
repeat zero p = []
repeat (suc n) p = p ∷ repeat n p

-- `[0-9A-HJKMNP-TV-Z]`
abbrev is_crockford : ℕ → Bool
is_crockford c =
    is_digit c
    || (leb b'A' c && leb c b'Z' && not (c == b'I' || c == b'L' || c == b'O' || c == b'U'))

abbrev is_hex : ℕ → Bool
is_hex c = is_digit c || (leb b'a' c && leb c b'f')

abbrev is_octal : ℕ → Bool
is_octal c = leb b'0' c && leb c b'7'

abbrev only : ℕ → ℕ → Bool
only d c = c == d

abbrev is_variant : ℕ → Bool
is_variant c = c == b'8' || c == b'9' || c == b'a' || c == b'b'

-- `ULID`
abbrev pub ulid : List (ℕ → Bool)
ulid = is_octal ∷ repeat 25 is_crockford

-- `UUID7`
abbrev pub uuid7 : List (ℕ → Bool)
uuid7 =
    repeat 8 is_hex
    ++ only b'-' ∷ repeat 4 is_hex
    ++ only b'-' ∷ only b'7' ∷ repeat 3 is_hex
    ++ only b'-' ∷ is_variant ∷ repeat 3 is_hex
    ++ only b'-' ∷ repeat 12 is_hex

-- `TRACE_ID`
abbrev pub trace_id : List (ℕ → Bool)
trace_id = repeat 32 is_hex

abbrev pub is_identifier : String → Bool
is_identifier s = matches ulid s || matches uuid7 s

abbrev pub future_skew_ms : ℕ
future_skew_ms = 5 * 60 * 1000

abbrev pub issue_if : Bool → ErrorCode → String → List ValidationIssue
issue_if true c path = issue c path ∷ []
issue_if false c path = []

-- A test of a value that is a text.
abbrev pub text_fails : (String → Bool) → Json → Bool
text_fails fails (str s) = fails s
text_fails fails _ = false

abbrev pub is_missing {ℓ} : {A : Type ℓ} → Option A → Bool
is_missing none = true
is_missing (some a) = false

abbrev pub is_undefined : Json → Bool
is_undefined undefined = true
is_undefined _ = false

-- `formatIssues`. A value that is no object has no property.
unfoldable pub format_issues : Json → List ValidationIssue
unfolding get matches parse_timestamp
format_issues data_ =
    issue_if (text_fails (λ s. not (is_identifier s)) (get data_ "record_id")) invalid_identifier
      "/record_id"
    ++ (issue_if (text_fails (λ s. not (is_identifier s)) (get data_ "corrects")) invalid_identifier
          "/corrects"
        ++ (issue_if
              (text_fails (λ s. is_missing (parse_timestamp s))
                (get (get data_ "timing") "event_time"))
              invalid_datetime "/timing/event_time"
            ++ (issue_if (not (is_undefined (get (get data_ "timing") "received_time"))) forbidden
                  "/timing/received_time"
                ++ (issue_if
                    (text_fails (λ s. not (matches trace_id s)) (get (get data_ "run") "trace_id"))
                    invalid_identifier "/run/trace_id"))))

-- `/[1-9]/`
abbrev pub is_nought : ℕ → Bool
is_nought c = not (leb b'1' c && leb c b'9')

abbrev pub is_finer : Option Moment → Bool
is_finer none = false
is_finer (some m) = not (every is_nought (slice_from 3 m.fraction))

abbrev pub is_after : Instant → ℕ → Bool
is_after (pos ms) now = ltb now ms
is_after (negsuc ms) now = false
is_after nan now = false

abbrev pub is_future : Option Moment → ℕ → Bool
is_future none now = false
is_future (some m) now = is_after m.epoch_ms (now + future_skew_ms)

abbrev pub moment_at : Json → Option Moment
moment_at (str s) = parse_timestamp s
moment_at _ = none

-- `proseIssues`, of a record that is structurally sound: `timing.event_time` is a text and `attribution` an object.
unfoldable pub prose_issues : Json → ℕ → List ValidationIssue
unfolding get parse_timestamp every slice_from includes_text
prose_issues data_ now =
    let event_time = moment_at (get (get data_ "timing") "event_time") in
    issue_if (is_finer event_time) millisecond_precision "/timing/event_time"
    ++ (issue_if (is_future event_time now) future_event_time "/timing/event_time"
        ++ (issue_if (is_undefined (get (get data_ "attribution") "environment")) required
              "/attribution/environment"
            ++ (issue_if
                (text_fails (λ s. includes_text s "@") (get (get data_ "attribution") "user_id"))
                non_pseudonymous_id "/attribution/user_id")))

-- The keys of `MESSAGES`.
abbrev pub code_name : ErrorCode → String
code_name required = "REQUIRED"
code_name forbidden = "FORBIDDEN"
code_name unknown_property = "UNKNOWN_PROPERTY"
code_name invalid_type = "INVALID_TYPE"
code_name invalid_enum = "INVALID_ENUM"
code_name invalid_string = "INVALID_STRING"
code_name string_too_long = "STRING_TOO_LONG"
code_name invalid_identifier = "INVALID_IDENTIFIER"
code_name invalid_datetime = "INVALID_DATETIME"
code_name millisecond_precision = "MILLISECOND_PRECISION"
code_name future_event_time = "FUTURE_EVENT_TIME"
code_name invalid_counter = "INVALID_COUNTER"
code_name invalid_cost = "INVALID_COST"
code_name invalid_currency = "INVALID_CURRENCY"
code_name invalid_property_name = "INVALID_PROPERTY_NAME"
code_name too_many_properties = "TOO_MANY_PROPERTIES"
code_name non_pseudonymous_id = "NON_PSEUDONYMOUS_ID"
code_name empty_usage = "EMPTY_USAGE"
code_name invalid_structure = "INVALID_STRUCTURE"
code_name unsupported_version = "UNSUPPORTED_VERSION"
code_name not_json = "NOT_JSON"

abbrev pub issue_key : ValidationIssue → String
issue_key i = String.◌++◌ (code_name i.code) (String.◌++◌ " " i.path)

-- The issues whose keys are not among those seen. Issues of one key are the same.
unfoldable pub dedupe_from : List String → List ValidationIssue → List ValidationIssue
unfolding names
dedupe_from seen [] = []
dedupe_from seen (i ∷ issues) =
    let later = dedupe_from seen issues in
    let rest = dedupe_from (issue_key i ∷ seen) issues in
    if names seen (issue_key i) then later else i ∷ rest

-- `dedupe`
unfoldable pub dedupe : List ValidationIssue → List ValidationIssue
unfolding dedupe_from
dedupe issues = dedupe_from [] issues

abbrev keep_present : Bool → String → Json → Fields → Fields
keep_present true key v rest = rest
keep_present false key v rest = field key v rest

-- `asJson`, of an object that is the value of `labels` or not.
unfoldable mutual
  pub as_json : Bool → Json → Json
  as_json keyed (obj fs) = obj (as_fields keyed fs)
  as_json keyed exotic = obj end
  as_json keyed v = v

  as_fields : Bool → Fields → Fields
  as_fields keyed end = end
  as_fields keyed (field key v rest) =
      keep_present (not keyed && is_undefined v) key (as_json (str_eq key caller_keyed) v)
        (as_fields keyed rest)

-- What `inspect` returns.
pub record Inspected : Type 0 where
  pub issues : List ValidationIssue
  pub data_ : Json

module _ (schema_errors : Json → List SchemaError) (now : ℕ) where
  -- `inspect`, of the copy.
  unfoldable pub inspect_copy : Json → Inspected
  unfolding schema_issues format_issues prose_issues dedupe
  inspect_copy data_ =
      let schema = schema_issues (schema_errors data_) data_ in
      let structural = format_issues data_ ++ schema.structural in
      if not (is_empty structural)
      then record { issues = dedupe structural; data_ = data_ }
      else record { issues = dedupe (schema.conditional ++ prose_issues data_ now); data_ = data_ }

  -- `inspect`
  unfoldable pub inspect : Json → Inspected
  unfolding inspect_copy as_json
  inspect value = inspect_copy (as_json false value)
