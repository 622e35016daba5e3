-- ===== src/Validate/Accepting.antt =====
-- Which values `inspect` of adapters/core/typescript/src/validate.ts accepts.
use audr.Base.{
  ℕ, ◌≡◌, sym, ap, ap₂, ◌∙◌, is_empty, Bool, true, false, not, ◌&&◌, List, [], ◌++◌, map, if-case,
  arith,
}
use audr.Base.Text.{matches}
use audr.Record.{Json, get, ValidationIssue}
use audr.Validate.Issues.{SchemaError, schema_issues, includes_text}
use audr.Validate.Timestamps.{parse_timestamp}
use audr.Validate.Checks.{
  is_identifier, trace_id, text_fails, is_missing, is_undefined, format_issues, is_finer, is_future,
  moment_at, prose_issues, issue_key, dedupe, Inspected, as_json, inspect_copy, inspect,
}
use audr.Validate.Sound.{
  text_holds, is_timely, is_sound, fits_schema, empty-append, empty-format_issues,
  empty-prose_issues, shuffled, event_time-timely,
}
use audr.Validate.Dedupe.{are_distinct, empty-dedupe, dedupe_from-distinct}

refused : (f s c p a : Bool) → ((f && s) && (c && p)) ≡ a → not (f && s) ≡ true → (f && s) ≡ a
refused f s c p a h g = ground (arith, h, g)

accepted : (f s c p a : Bool) → ((f && s) && (c && p)) ≡ a → not (f && s) ≡ false → (c && p) ≡ a
accepted f s c p a h g = ground (arith, h, g)

-- What `inspect` reports of a copy.
abbrev pub Reports : Bool → Inspected → Type 0
Reports b r = (is_empty r.issues ≡ b) × (are_distinct (map issue_key r.issues) ≡ true)

Reports-dedupe :
    (b : Bool) (issues : List ValidationIssue) (data_ : Json)
    → is_empty issues ≡ b
    → Reports b (record { issues = dedupe issues; data_ = data_ })
unfolding dedupe
Reports-dedupe b issues data_ h = (empty-dedupe issues ∙ h, dedupe_from-distinct [] issues)

empty-all :
    (errors : List SchemaError) (data_ : Json) (now : ℕ)
    → ((is_empty (format_issues data_) && is_empty (schema_issues errors data_).structural)
        && (is_empty (schema_issues errors data_).conditional && is_empty (prose_issues data_ now)))
      ≡ (fits_schema errors data_ && is_sound data_ now)
unfolding fits_schema is_sound
empty-all errors data_ now =
    ap₂
      (λ f p.
        (f && is_empty (schema_issues errors data_).structural)
        && (is_empty (schema_issues errors data_).conditional && p))
      (empty-format_issues data_) (empty-prose_issues data_ now)
    ∙ shuffled (text_holds is_identifier (get data_ "record_id"))
        (text_holds is_identifier (get data_ "corrects"))
        (not (
          text_fails (λ s. is_missing (parse_timestamp s)) (get (get data_ "timing") "event_time")))
        (is_undefined (get (get data_ "timing") "received_time"))
        (text_holds (matches trace_id) (get (get data_ "run") "trace_id"))
        (is_empty (schema_issues errors data_).structural)
        (is_empty (schema_issues errors data_).conditional)
        (not (is_finer (moment_at (get (get data_ "timing") "event_time"))))
        (not (is_future (moment_at (get (get data_ "timing") "event_time")) now))
        (not (is_undefined (get (get data_ "attribution") "environment")))
        (text_holds (λ s. not (includes_text s "@")) (get (get data_ "attribution") "user_id"))
        (text_holds (λ s. is_timely now (parse_timestamp s))
          (get (get data_ "timing") "event_time"))
        (event_time-timely now (get (get data_ "timing") "event_time"))

inspect_copy-Reports :
    (schema_errors : Json → List SchemaError) (now : ℕ) (data_ : Json)
    → Reports
        (fits_schema (schema_errors data_) data_ && is_sound data_ now)
        (inspect_copy schema_errors now data_)
unfolding inspect_copy
inspect_copy-Reports schema_errors now data_ =
    let schema = schema_issues (schema_errors data_) data_ in
    let sound = fits_schema (schema_errors data_) data_ && is_sound data_ now in
    let all = empty-all (schema_errors data_) data_ now in
    let f = is_empty (format_issues data_) in
    let s = is_empty schema.structural in
    let c = is_empty schema.conditional in
    let p = is_empty (prose_issues data_ now) in
    let split = empty-append (format_issues data_) schema.structural in
    if-case (Reports sound) (not (is_empty (format_issues data_ ++ schema.structural)))
      (record { issues = dedupe (format_issues data_ ++ schema.structural); data_ = data_ })
      (record { issues = dedupe (schema.conditional ++ prose_issues data_ now); data_ = data_ })
      (λ e.
        Reports-dedupe sound (format_issues data_ ++ schema.structural) data_
          (split ∙ refused f s c p sound all (ap not (sym split) ∙ e)))
      (λ e. Reports-dedupe sound (schema.conditional ++ prose_issues data_ now) data_ (
        empty-append schema.conditional (prose_issues data_ now)
        ∙ accepted f s c p sound all (ap not (sym split) ∙ e)))

-- `inspect` reports no issue of a value exactly if, of its copy as JSON, the generated validator reports nothing that becomes an
-- issue; `record_id`, `corrects` and `run.trace_id` are identifiers where they are texts; the time of the event, where it
-- is a text, is a date and time in whole milliseconds not more than five minutes from now; `received_time` is not set; the
-- environment is; and the user's identifier has no `@`. No two of the issues that it reports have code and path in common.
pub inspect-Reports :
    (schema_errors : Json → List SchemaError) (now : ℕ) (value : Json)
    → let data_ = as_json false value in
      Reports
        (fits_schema (schema_errors data_) data_ && is_sound data_ now)
        (inspect schema_errors now value)
unfolding inspect
inspect-Reports schema_errors now value =
    inspect_copy-Reports schema_errors now (as_json false value)
