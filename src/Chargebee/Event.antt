-- ===== src/Chargebee/Event.antt =====
-- sinks/chargebee/typescript/src/event.ts: the usage event and the rules that Chargebee has for it. A rule
-- that is broken is the message of the `InvalidUsageEventError`.
use Prim.Native.Char.{code}
use Prim.Native.String
use audr.Base.{
  ℕ, suc, Bool, true, false, not, ◌&&◌, ◌||◌, List, [], ◌∷◌, Option, none, some, String, ltb, leb,
  ◌==◌, if◌then◌else◌, names,
}
use audr.Base.Text.{decimal, is_digit}
use audr.Base.Result.{Result, ok, error, or_else, is_blank, code_points, every}
use audr.Record.{Instant, pos, negsuc, nan, Json, undefined, null, non_finite, bool, num, str, arr}

-- The properties are the entries of an object, in order.
pub record UsageEvent : Type 0 where
  pub subscription_id : String
  pub usage_timestamp : Instant
  pub deduplication_id : String
  pub properties : List (String × Json)

abbrev pub max_subscription_id_length : ℕ
max_subscription_id_length = 50

abbrev pub max_deduplication_id_length : ℕ
max_deduplication_id_length = 36

abbrev pub millisecond_timestamp_digits : ℕ
millisecond_timestamp_digits = 13

abbrev is_letter : ℕ → Bool
is_letter c = (leb b'a' c && leb c b'z') || (leb b'A' c && leb c b'Z')

abbrev is_name_part : ℕ → Bool
is_name_part c = is_letter c || is_digit c || c == b'_'

-- `PROPERTY_NAME.test(key)`
unfoldable pub is_property_name : String → Bool
unfolding every
is_property_name String.[] = false
is_property_name (String.◌∷◌ c s) = is_letter (code c) && every is_name_part s

abbrev pub reserved_property_names : List String
reserved_property_names =
    "deduplication_id" ∷ "error_codes" ∷ "event_meta" ∷ "ingestion_timestamp" ∷ "properties"
    ∷ "subscription_id" ∷ "usage_timestamp" ∷ []

unfoldable pub identifier : String → String → ℕ → Option String
unfolding is_blank code_points decimal
identifier value name max_length =
    if is_blank value
    then some (String.◌++◌ name " must not be empty")
    else if ltb max_length (code_points value)
    then some (
        String.◌++◌ name
          (String.◌++◌ " must be at most " (String.◌++◌ (decimal max_length) " characters")))
    else none

-- `String(timestamp)`
unfoldable pub shown : Instant → String
unfolding decimal
shown (pos n) = decimal n
shown (negsuc n) = String.◌++◌ "-" (decimal (suc n))
shown nan = "NaN"

abbrev is_integer : Instant → Bool
is_integer nan = false
is_integer _ = true

unfoldable pub timestamp : Instant → Option String
unfolding shown code_points
timestamp t =
    if not (is_integer t)
    then some "usage_timestamp must be an integer"
    else if code_points (shown t) == millisecond_timestamp_digits
    then none
    else some (
        String.◌++◌
          "usage_timestamp must be a 13-digit epoch-millisecond value; a 10-digit value is "
          "epoch seconds and the destination rejects it")

-- `typeof`, or `array`.
abbrev type_name : Json → String
type_name undefined = "undefined"
type_name (arr _) = "array"
type_name _ = "object"

abbrev pub is_scalar : Json → Bool
is_scalar null = true
is_scalar non_finite = true
is_scalar (bool _) = true
is_scalar (num _) = true
is_scalar (str _) = true
is_scalar _ = false

abbrev pub is_finite : Json → Bool
is_finite non_finite = false
is_finite _ = true

abbrev quoted : String → String → String
quoted key rest = String.◌++◌ "properties name '" (String.◌++◌ key rest)

-- The loop body of `properties`.
unfoldable pub property : String → Json → Option String
unfolding is_property_name names
property key item =
    if not (is_property_name key)
    then some
        (quoted key "' must start with a letter and contain only letters, digits, and underscores")
    else if names reserved_property_names key
    then some (quoted key "' is reserved")
    else if not (is_scalar item)
    then some (
        String.◌++◌ "properties value for '" (
          String.◌++◌ key (
            String.◌++◌
              "' must be a scalar; the destination fails on nested objects and arrays, got "
              (type_name item))))
    else if is_finite item
    then none
    else some
        (String.◌++◌ "properties value for '" (String.◌++◌ key "' must be a finite JSON number"))

unfoldable pub each_property : List (String × Json) → Option String
unfolding property
each_property [] = none
each_property ((key, item) ∷ rest) = or_else (property key item) (each_property rest)

unfoldable pub properties : List (String × Json) → Option String
unfolding each_property
properties [] = some "properties must not be empty"
properties (entry ∷ rest) = each_property (entry ∷ rest)

abbrev pub thrown : UsageEvent → Option String → Result UsageEvent
thrown event none = ok event
thrown event (some message) = error message

-- The first rule that the event breaks.
unfoldable pub failure : UsageEvent → Option String
unfolding identifier timestamp properties
failure event =
    or_else (identifier event.subscription_id "subscription_id" max_subscription_id_length) (
      or_else (identifier event.deduplication_id "deduplication_id" max_deduplication_id_length)
        (or_else (timestamp event.usage_timestamp) (properties event.properties)))

unfoldable pub validate_event : UsageEvent → Result UsageEvent
unfolding failure
validate_event event = thrown event (failure event)
