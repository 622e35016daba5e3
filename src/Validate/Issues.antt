-- ===== src/Validate/Issues.antt =====
-- adapters/core/typescript/src/validate.ts: how the failures that the generated validator reports become
-- issues. The formats and the rules of the prose are not modelled.
use Prim.Native.Char.{code}
use Prim.Native.String
use audr.Base.{
  Bool, true, false, not, ◌&&◌, ◌||◌, List, [], ◌∷◌, ◌++◌, map, Option, none, some, String, str_eq,
  ◌==◌, if◌then◌else◌, names,
}
use audr.Base.Result.{replace_all, join, or_else}
use audr.Record.{
  get, Json, non_finite, arr, str, cons, ErrorCode, required, forbidden, unknown_property,
  invalid_type, invalid_enum, invalid_string, string_too_long, invalid_identifier, invalid_datetime,
  invalid_counter, invalid_cost, invalid_currency, invalid_property_name, too_many_properties,
  empty_usage, invalid_structure, unsupported_version, ValidationIssue, issue,
}

-- `params.type` is flat: the list of the types that it names.
pub record SchemaError : Type 0 where
  pub keyword : String
  pub instance_path : String
  pub schema_path : String
  pub types : List String
  pub missing_property : Option String
  pub additional_property : Option String
  pub params_property_name : Option String
  pub property_name : Option String
  pub schema : Json
  pub parent_schema : Json

abbrev pub sink_owned : String
sink_owned = "/timing/received_time"

abbrev pub caller_keyed : String
caller_keyed = "labels"

abbrev pub redacted : String
redacted = "*"

-- The value of a key, in a list of pairs.
unfoldable pub lookup : List (String × ErrorCode) → String → Option ErrorCode
lookup [] key = none
lookup ((k, c) ∷ rest) key = let later = lookup rest key in if str_eq k key then some c else later

abbrev pub keyword_codes : List (String × ErrorCode)
keyword_codes =
    ("enum", invalid_enum)
    ∷ ("const", invalid_structure)
    ∷ ("minLength", invalid_string)
    ∷ ("maxLength", string_too_long)
    ∷ ("required", required)
    ∷ ("additionalProperties", unknown_property)
    ∷ ("maxProperties", too_many_properties)
    ∷ ("propertyNames", invalid_property_name)
    ∷ ("not", forbidden)
    ∷ []

abbrev pub field_codes : List (String × ErrorCode)
field_codes =
    ("/spec_version pattern", unsupported_version)
    ∷ ("/record_id minLength", invalid_identifier)
    ∷ ("/record_id maxLength", invalid_identifier)
    ∷ ("/corrects minLength", invalid_identifier)
    ∷ ("/corrects maxLength", invalid_identifier)
    ∷ ("/cost/currency pattern", invalid_currency)
    ∷ ("/usage required", invalid_structure)
    ∷ ("/usage not", invalid_structure)
    ∷ []

unfoldable pub starts_with : String → String → Bool
starts_with s String.[] = true
starts_with String.[] (String.◌∷◌ c t) = false
starts_with (String.◌∷◌ d s) (String.◌∷◌ c t) = code d == code c && starts_with s t

-- `includes`
unfoldable pub includes_text : String → String → Bool
unfolding starts_with
includes_text String.[] t = starts_with "" t
includes_text (String.◌∷◌ c s) t = starts_with (String.◌∷◌ c s) t || includes_text s t

-- `split('/')`
unfoldable pub split_from : String → String → List String
split_from done String.[] = done ∷ []
split_from done (String.◌∷◌ c s) =
    let cut = split_from "" s in
    let on = split_from (String.◌++◌ done (String.◌∷◌ c "")) s in
    if code c == b'/' then done ∷ cut else on

abbrev pub tail : List String → List String
tail [] = []
tail (x ∷ xs) = xs

-- `replaceAll` of `~` and a character by another text.
unfoldable pub replace_escape : Bool → Prim.Native.Nat.ℕ → String → String → String
replace_escape tilde c new String.[] = if tilde then "~" else ""
replace_escape true c new (String.◌∷◌ d s) =
    let found = replace_escape false c new s in
    let again = replace_escape true c new s in
    let missed = replace_escape false c new s in
    if code d == c
    then String.◌++◌ new found
    else if code d == b'~'
    then String.◌∷◌ d again
    else String.◌++◌ "~" (String.◌∷◌ d missed)
replace_escape false c new (String.◌∷◌ d s) =
    let after = replace_escape true c new s in
    let rest = replace_escape false c new s in if code d == b'~' then after else String.◌∷◌ d rest

-- `unescape`
unfoldable pub unescape : String → String
unfolding replace_escape
unescape s = replace_escape false b'0' "~" (replace_escape false b'1' "/" s)

-- `valueAt`
unfoldable pub value_at : Json → List String → Json
unfolding get
value_at data_ [] = data_
value_at data_ (key ∷ path) = value_at (get data_ key) path

abbrev first_item : Json → Option String
first_item (arr (cons (str s) rest)) = some s
first_item _ = none

-- `propertyOf`. The first of `required` is a text in every schema.
unfoldable pub property_of : SchemaError → Option String
unfolding get
property_of e =
    if str_eq e.keyword "not"
    then first_item (get e.schema "required")
    else or_else e.missing_property
        (or_else e.additional_property (or_else e.property_name e.params_property_name))

abbrev is_non_finite : Json → Bool
is_non_finite non_finite = true
is_non_finite _ = false

abbrev is_date_time : Json → Bool
is_date_time (str s) = str_eq s "date-time"
is_date_time _ = false

abbrev given : Option ErrorCode → ErrorCode
given none = invalid_structure
given (some c) = c

abbrev bound : SchemaError → ErrorCode
bound e = if starts_with e.instance_path "/cost/" then invalid_cost else invalid_counter

-- The `switch` of `codeFor`.
unfoldable pub code_by_keyword : SchemaError → Json → ErrorCode
unfolding starts_with names lookup get
code_by_keyword e value =
    if str_eq e.keyword "type"
    then (if is_non_finite value && (names e.types "number" || names e.types "integer")
        then bound e
        else invalid_type)
    else if str_eq e.keyword "pattern"
    then (if is_date_time (get e.parent_schema "format") then invalid_datetime else invalid_string)
    else if str_eq e.keyword "minimum" || str_eq e.keyword "maximum"
    then bound e
    else if str_eq e.keyword "minProperties"
    then (if starts_with e.instance_path "/usage/" then empty_usage else invalid_structure)
    else given (lookup keyword_codes e.keyword)

-- `codeFor`
unfoldable pub code_for : SchemaError → Json → ErrorCode
unfolding code_by_keyword
code_for e value = elim e.property_name [
  | some name ↦ invalid_property_name
  | none ↦ code_by_keyword e value
]

-- The segments of `pointer`, after one that is the key of `labels` or not.
unfoldable pub pointer_segments : Bool → List String → List String
unfolding replace_all
pointer_segments keyed [] = []
pointer_segments keyed (s ∷ rest) =
    (if keyed then redacted else replace_all b'/' "~1" (replace_all b'~' "~0" s))
    ∷ pointer_segments (str_eq s caller_keyed) rest

-- `pointer`
unfoldable pub pointer : List String → String
unfolding pointer_segments join
pointer [] = "/"
pointer (s ∷ path) = String.◌++◌ "/" (join "/" (pointer_segments false (s ∷ path)))

abbrev with_property : List String → Option String → List String
with_property segments none = segments
with_property segments (some p) = segments ++ p ∷ []

-- The segments of `instancePath`.
unfoldable pub path_segments : String → List String
unfolding unescape split_from
path_segments path = map unescape (tail (split_from "" path))

-- `toIssue`
unfoldable pub to_issue : Json → SchemaError → ValidationIssue
unfolding lookup pointer code_for value_at property_of path_segments
to_issue data_ e =
    let segments = path_segments e.instance_path in
    elim (lookup field_codes (String.◌++◌ e.instance_path (String.◌++◌ " " e.keyword))) [
      | some c ↦ issue c (pointer segments)
      | none ↦
          issue (code_for e (value_at data_ segments))
            (pointer (with_property segments (property_of e)))
    ]

-- The fields that `schemaIssues` returns.
pub record SchemaIssues : Type 0 where
  pub structural : List ValidationIssue
  pub conditional : List ValidationIssue

unfoldable pub mistyped_paths : List SchemaError → List String
mistyped_paths [] = []
mistyped_paths (e ∷ es) =
    let rest = mistyped_paths es in if str_eq e.keyword "type" then e.instance_path ∷ rest else rest

-- The first two `continue`s of the loop of `schemaIssues`.
unfoldable pub is_skipped : List String → SchemaError → Bool
unfolding names
is_skipped mistyped e =
    str_eq e.keyword "if" || (not (str_eq e.keyword "type") && names mistyped e.instance_path)

unfoldable pub push_issue : Bool → ValidationIssue → SchemaIssues → SchemaIssues
push_issue true i later = record later { conditional = i ∷ later.conditional }
push_issue false i later = record later { structural = i ∷ later.structural }

-- That loop.
unfoldable pub sort_errors : Json → List String → List SchemaError → SchemaIssues
unfolding is_skipped to_issue includes_text push_issue
sort_errors data_ mistyped [] = record { structural = []; conditional = [] }
sort_errors data_ mistyped (e ∷ es) =
    let later = sort_errors data_ mistyped es in
    let found = to_issue data_ e in
    if is_skipped mistyped e || str_eq found.path sink_owned
    then later
    else push_issue (includes_text e.schema_path "/allOf/") found later

-- `schemaIssues`, of what the validator reports.
unfoldable pub schema_issues : List SchemaError → Json → SchemaIssues
unfolding mistyped_paths sort_errors
schema_issues errors data_ = sort_errors data_ (mistyped_paths errors) errors
