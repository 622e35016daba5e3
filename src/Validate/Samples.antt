-- ===== src/Validate/Samples.antt =====
-- Small values for `inspect` of adapters/core/typescript/src/validate.ts, and times.
use audr.Base.{◌≡◌, refl, true, List, [], ◌∷◌, none, some, String}
use audr.Record.{
  Json, undefined, str, obj, field, end, pos, negsuc, issue, millisecond_precision,
  future_event_time,
}
use audr.Validate.Issues.{SchemaError}
use audr.Validate.Timestamps.{parse_timestamp}
use audr.Validate.Checks.{as_json, inspect}
use audr.Validate.Sound.{is_sound, fits_schema}
use audr.Validate.Accepting.{Reports, inspect-Reports}

epoch : parse_timestamp "1970-01-01T00:00:00Z" ≡ some (record { epoch_ms = pos 0; fraction = "" })
unfolding parse_timestamp
epoch = refl

leap_day :
    parse_timestamp "2024-02-29T23:59:59.5+02:00"
    ≡ some (record { epoch_ms = pos 1709243999500; fraction = "5" })
unfolding parse_timestamp
leap_day = refl

before_epoch :
    parse_timestamp "1969-12-31T23:59:59.999Z"
    ≡ some (record { epoch_ms = negsuc 0; fraction = "999" })
unfolding parse_timestamp
before_epoch = refl

no_leap_day : parse_timestamp "2023-02-29T00:00:00Z" ≡ none
unfolding parse_timestamp
no_leap_day = refl

-- `Date.UTC` takes the year 0 for 1900, which has no leap day.
year_nought : parse_timestamp "0000-02-29T00:00:00Z" ≡ none
unfolding parse_timestamp
year_nought = refl

abbrev pub sample : String → Json
sample event_time = obj (
    field "spec_version" (str "1.0.0") (
      field "record_id" (str "01890a5d-ac96-774b-bcce-b302099a8057") (
        field "corrects" undefined (
          field "timing" (obj (field "event_time" (str event_time) end))
            (field "attribution" (obj (field "environment" (str "production") end)) end)))))

abbrev pub nothing : Json → List SchemaError
nothing data_ = []

-- A time that is too fine and too late.
late :
    (inspect nothing 0 (sample "2024-02-29T23:59:59.0001Z")).issues
    ≡ issue millisecond_precision "/timing/event_time"
      ∷ issue future_event_time "/timing/event_time"
      ∷ []
unfolding inspect
late = refl

inspect-Reports_example :
    Reports true (inspect nothing 1800000000000 (sample "2024-02-29T23:59:59Z"))
unfolding fits_schema is_sound as_json
inspect-Reports_example = inspect-Reports nothing 1800000000000 (sample "2024-02-29T23:59:59Z")
