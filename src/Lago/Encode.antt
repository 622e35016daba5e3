-- ===== src/Lago/Encode.antt =====
-- sinks/lago/typescript/src/event.ts and flatten.ts: how a record becomes an event. `Date.parse` and
-- `JSON.stringify` are parameters.
use Prim.Native.Char.{code}
use Prim.Native.String
use audr.Base.{
  ℕ, ◌/◌, ◌%◌, Bool, true, false, not, ◌&&◌, List, [], ◌∷◌, ◌++◌, Option, none, some, String,
  str_eq, ltb, if◌then◌else◌,
}
use audr.Base.Text.{decimal}
use audr.Base.Result.{Result, ok, error, and_then, is_space, is_blank, replace_all, join}
use audr.Record.{AudrRecord, Instant, pos, Json, Fields, undefined, num, str, arr, obj, end, field}
use audr.Canonical.{Properties, put, canonical}
use audr.Lago.Event.{LagoEvent}

-- A JSON pointer.
unfoldable pub pointer : List String → String
unfolding replace_all
pointer [] = ""
pointer (s ∷ segments) =
    String.◌++◌ "/"
      (String.◌++◌ (replace_all b'/' "~1" (replace_all b'~' "~0" s)) (pointer segments))

unfoldable pub not_encodable : List String → String
unfolding pointer
not_encodable path = String.◌++◌ "unencodable_field:" (pointer path)

-- Whether a text that is not empty ends in white space.
unfoldable pub ends_in_space : String → Bool
ends_in_space String.[] = false
ends_in_space (String.◌∷◌ c s) =
    let later = ends_in_space s in if str_eq s "" then is_space (code c) else later

-- `isMetricCode`: the code is not empty and `trim` takes nothing off.
unfoldable pub is_metric_code : String → Bool
unfolding ends_in_space
is_metric_code String.[] = false
is_metric_code (String.◌∷◌ c s) = not (is_space (code c)) && not (ends_in_space (String.◌∷◌ c s))

-- `padStart(3, '0')` of a number below 1000.
abbrev padded : ℕ → String
padded n =
    if ltb n 10
    then String.◌++◌ "00" (decimal n)
    else if ltb n 100
    then String.◌++◌ "0" (decimal n)
    else decimal n

unfoldable pub format_timestamp : Instant → Result String
unfolding decimal
format_timestamp (pos n) =
    ok (String.◌++◌ (decimal (n / 1000)) (String.◌++◌ "." (padded (n % 1000))))
format_timestamp _ = error "invalid_timestamp"

abbrev pub is_property_value : Json → Bool
is_property_value (str _) = true
is_property_value (num _) = true
is_property_value _ = false

-- `validateProperties`
unfoldable pub validate_properties : Properties → Option String
unfolding not_encodable
validate_properties [] = none
validate_properties ((name, value) ∷ rest) =
    let later = validate_properties rest in
    if not (str_eq name "") && is_property_value value
    then later
    else some (not_encodable ("properties" ∷ name ∷ []))

pub record EventFields : Type 0 where
  pub transaction_id : String
  pub subscription_id : Option String
  pub code : Option String
  pub event_time : String
  pub properties : Properties

-- The end of `createEvent`, past the checks of the identifiers and the code.
abbrev pub build : EventFields → String → String → Option String → String → Result LagoEvent
build fields subscription_id code (some message) timestamp = error message
build fields subscription_id code none timestamp = ok (record {
  transaction_id = fields.transaction_id;
  external_subscription_id = subscription_id;
  code = code;
  timestamp = timestamp;
  properties = fields.properties;
})

module _ (parse_date : String → Instant) (stringify : Json → String) where
  unfoldable pub create_with : EventFields → Option String → Option String → Result LagoEvent
  unfolding is_blank is_metric_code format_timestamp validate_properties
  create_with fields none code = error "missing_subscription_id"
  create_with fields (some subscription_id) code =
      if is_blank subscription_id
      then error "missing_subscription_id"
      else if is_blank fields.transaction_id
      then error "invalid_field:/record_id"
      else elim code [
        | none ↦ error "missing_metric_code"
        | some c ↦
            if is_metric_code c
            then and_then (format_timestamp (parse_date fields.event_time))
                (build fields subscription_id c (validate_properties fields.properties))
            else error "invalid_metric_code"
      ]

  -- `createEvent`
  unfoldable pub create_event : EventFields → Result LagoEvent
  unfolding create_with
  create_event fields = create_with fields fields.subscription_id fields.code

  abbrev stringified : List String → Option Json → Result Json
  stringified path none = error (not_encodable path)
  stringified path (some v) = ok (str (stringify v))

  -- `flattenInto`, over the entries of an object.
  unfoldable pub flatten_into : Fields → List String → Properties → Result Properties
  unfolding canonical put join not_encodable
  flatten_into end path output = ok output
  flatten_into (field key undefined rest) path output = flatten_into rest path output
  flatten_into (field key (arr items) rest) path output =
      and_then (stringified (path ++ key ∷ []) (canonical (arr items)))
        (λ text. flatten_into rest path (put (join "__" (path ++ key ∷ "json" ∷ [])) text output))
  flatten_into (field key (obj fs) rest) path output =
      and_then (flatten_into fs (path ++ key ∷ []) output)
        (λ output'. flatten_into rest path output')
  flatten_into (field key (str s) rest) path output =
      flatten_into rest path (put (join "__" (path ++ key ∷ [])) (str s) output)
  flatten_into (field key (num n) rest) path output =
      flatten_into rest path (put (join "__" (path ++ key ∷ [])) (num n) output)
  flatten_into (field key v rest) path output = error (not_encodable (path ++ key ∷ []))

  -- `flatten`
  unfoldable pub flatten : Json → Result Properties
  unfolding flatten_into
  flatten (obj fs) = flatten_into fs [] []
  flatten _ = error "unencodable_record"

  -- `encode` of preflight.ts
  unfoldable pub encode : AudrRecord → Result LagoEvent
  unfolding flatten create_event
  encode r =
      if r.corrects
      then error "unsupported_correction"
      else and_then (flatten r.body) (λ properties. create_event (record {
        transaction_id = r.record_id;
        subscription_id = r.subscription_id;
        code = r.feature_id;
        event_time = r.event_time;
        properties = properties;
      }))
