-- ===== src/Validate/Sound.antt =====
-- When the checks of formats and prose find nothing: `formatIssues` and `proseIssues` of adapters/core/typescript/src/validate.ts accepts.
use audr.Base.{
  ℕ, ◌+◌, ◌≡◌, refl, ap, ◌∙◌, is_empty, Bool, true, false, not, ◌&&◌, List, [], ◌∷◌, ◌++◌, Option,
  none, some, String, arith,
}
use audr.Base.Text.{matches}
use audr.Base.Result.{every}
use audr.Record.{
  Json, undefined, str, null, non_finite, exotic, bool, num, arr, obj, get, ErrorCode,
  ValidationIssue, required, forbidden, invalid_identifier, invalid_datetime, millisecond_precision,
  future_event_time, non_pseudonymous_id,
}
use audr.Validate.Issues.{SchemaError, schema_issues, includes_text}
use audr.Validate.Timestamps.{Moment, parse_timestamp, slice_from}
use audr.Validate.Checks.{
  is_identifier, trace_id, future_skew_ms, issue_if, text_fails, is_missing, is_undefined,
  format_issues, is_nought, is_finer, is_after, is_future, moment_at, prose_issues,
}

-- A text is as a test wants it; any other value may be.
abbrev pub text_holds : (String → Bool) → Json → Bool
text_holds holds (str s) = holds s
text_holds holds _ = true

-- A time in whole milliseconds, not more than five minutes from now.
abbrev pub is_timely : ℕ → Option Moment → Bool
is_timely now none = false
is_timely now (some m) =
    every is_nought (slice_from 3 m.fraction) && not (is_after m.epoch_ms (now + future_skew_ms))

-- What the formats and the prose ask of a record.
unfoldable pub is_sound : Json → ℕ → Bool
unfolding get matches parse_timestamp includes_text every slice_from
is_sound data_ now =
    text_holds is_identifier (get data_ "record_id")
    && text_holds is_identifier (get data_ "corrects")
    && text_holds (λ s. is_timely now (parse_timestamp s)) (get (get data_ "timing") "event_time")
    && is_undefined (get (get data_ "timing") "received_time")
    && text_holds (matches trace_id) (get (get data_ "run") "trace_id")
    && not (is_undefined (get (get data_ "attribution") "environment"))
    && text_holds (λ s. not (includes_text s "@")) (get (get data_ "attribution") "user_id")

-- The validator reports nothing that becomes an issue.
unfoldable pub fits_schema : List SchemaError → Json → Bool
unfolding schema_issues
fits_schema errors data_ =
    is_empty (schema_issues errors data_).structural
    && is_empty (schema_issues errors data_).conditional

pub empty-append :
    (xs ys : List ValidationIssue) → is_empty (xs ++ ys) ≡ (is_empty xs && is_empty ys)
empty-append [] ys = refl
empty-append (x ∷ xs) ys = refl

empty-issue_if : (b : Bool) (c : ErrorCode) (path : String) → is_empty (issue_if b c path) ≡ not b
empty-issue_if true c path = refl
empty-issue_if false c path = refl

not-not : (b : Bool) → not (not b) ≡ b
not-not true = refl
not-not false = refl

text_fails-not :
    (p : String → Bool) (v : Json) → not (text_fails (λ s. not (p s)) v) ≡ text_holds p v
text_fails-not p (str s) = not-not (p s)
text_fails-not p undefined = refl
text_fails-not p null = refl
text_fails-not p non_finite = refl
text_fails-not p exotic = refl
text_fails-not p (bool b) = refl
text_fails-not p (num n) = refl
text_fails-not p (arr items) = refl
text_fails-not p (obj fs) = refl

text_fails-holds :
    (p : String → Bool) (v : Json) → not (text_fails p v) ≡ text_holds (λ s. not (p s)) v
text_fails-holds p (str s) = refl
text_fails-holds p undefined = refl
text_fails-holds p null = refl
text_fails-holds p non_finite = refl
text_fails-holds p exotic = refl
text_fails-holds p (bool b) = refl
text_fails-holds p (num n) = refl
text_fails-holds p (arr items) = refl
text_fails-holds p (obj fs) = refl

timely :
    (now : ℕ) (o : Option Moment)
    → (not (is_missing o) && not (is_finer o) && not (is_future o now)) ≡ is_timely now o
timely now none = refl
timely now (some m) = ap (◌&& not (is_after m.epoch_ms (now + future_skew_ms))) (not-not _)

-- The three tests of the time of the event are one.
pub event_time-timely :
    (now : ℕ) (v : Json)
    → (not (text_fails (λ s. is_missing (parse_timestamp s)) v)
        && not (is_finer (moment_at v))
        && not (is_future (moment_at v) now))
      ≡ text_holds (λ s. is_timely now (parse_timestamp s)) v
event_time-timely now (str s) = timely now (parse_timestamp s)
event_time-timely now undefined = refl
event_time-timely now null = refl
event_time-timely now non_finite = refl
event_time-timely now exotic = refl
event_time-timely now (bool b) = refl
event_time-timely now (num n) = refl
event_time-timely now (arr items) = refl
event_time-timely now (obj fs) = refl

checked :
    (b : Bool) (c : ErrorCode) (path : String) (rest : List ValidationIssue) (a d : Bool)
    → not b ≡ a
    → is_empty rest ≡ d
    → is_empty (issue_if b c path ++ rest) ≡ (a && d)
checked true c path rest a d h g = ap (◌&& d) h
checked false c path rest a d h g = g ∙ ap (◌&& d) h

last_checked :
    (b : Bool) (c : ErrorCode) (path : String) (a : Bool)
    → not b ≡ a
    → is_empty (issue_if b c path) ≡ a
last_checked b c path a h = empty-issue_if b c path ∙ h

pub empty-format_issues :
    (data_ : Json)
    → is_empty (format_issues data_) ≡ (
        text_holds is_identifier (get data_ "record_id")
        && (text_holds is_identifier (get data_ "corrects")
            && (not (
                  text_fails
                    (λ s. is_missing (parse_timestamp s))
                    (get (get data_ "timing") "event_time"))
                && (is_undefined (get (get data_ "timing") "received_time")
                    && (text_holds (matches trace_id) (get (get data_ "run") "trace_id"))))))
unfolding format_issues
empty-format_issues data_ =
    let time = get (get data_ "timing") "event_time" in
    checked (text_fails (λ s. not (is_identifier s)) (get data_ "record_id")) invalid_identifier
      "/record_id" _ _ _ (text_fails-not is_identifier (get data_ "record_id"))
      (checked (text_fails (λ s. not (is_identifier s)) (get data_ "corrects")) invalid_identifier
        "/corrects" _ _ _ (text_fails-not is_identifier (get data_ "corrects"))
        (checked (text_fails (λ s. is_missing (parse_timestamp s)) time) invalid_datetime
          "/timing/event_time" _ _ _ refl
          (checked (not (is_undefined (get (get data_ "timing") "received_time"))) forbidden
            "/timing/received_time" _ _ _ (not-not _)
            (last_checked
              (text_fails (λ s. not (matches trace_id s)) (get (get data_ "run") "trace_id"))
              invalid_identifier "/run/trace_id" _
              (text_fails-not (matches trace_id) (get (get data_ "run") "trace_id"))))))

pub empty-prose_issues :
    (data_ : Json) (now : ℕ)
    → let event_time = moment_at (get (get data_ "timing") "event_time") in
      is_empty (prose_issues data_ now) ≡ (
        not (is_finer event_time)
        && (not (is_future event_time now)
            && (not (is_undefined (get (get data_ "attribution") "environment"))
                && (text_holds
                    (λ s. not (includes_text s "@"))
                    (get (get data_ "attribution") "user_id")))))
unfolding prose_issues
empty-prose_issues data_ now =
    let moment = moment_at (get (get data_ "timing") "event_time") in
    let user = get (get data_ "attribution") "user_id" in
    checked (is_finer moment) millisecond_precision "/timing/event_time" _ _ _ refl (
      checked (is_future moment now) future_event_time "/timing/event_time" _ _ _ refl (
        checked (is_undefined (get (get data_ "attribution") "environment")) required
          "/attribution/environment" _ _ _ refl
          (last_checked (text_fails (λ s. includes_text s "@") user) non_pseudonymous_id
            "/attribution/user_id" _ (text_fails-holds (λ s. includes_text s "@") user))))

pub shuffled :
    (a b m r t s c i u e p time : Bool)
    → (m && i && u) ≡ time
    → (((a && (b && (m && (r && t)))) && s) && (c && (i && (u && (e && p)))))
      ≡ ((s && c) && (a && b && time && r && t && e && p))
shuffled a b m r t s c i u e p time h = ground (arith, h)
