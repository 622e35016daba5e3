-- ===== src/Lago/Response.antt =====
-- sinks/lago/typescript/src/response.ts, with `isTransient` of retry.ts: what an HTTP status and the
-- body of a `422` say. The fields of an object stand in the order of `Object.entries`.
use Prim.Native.Char.{code}
use Prim.Native.String
use audr.Base.{
  ℕ, ◌-◌, Bool, false, not, ◌&&◌, ◌||◌, List, [], ◌∷◌, ◌++◌, Option, none, some, String, str_eq,
  ltb, leb, ◌==◌, if◌then◌else◌, names,
}
use audr.Base.Text.{is_digit, digits_from, text_leb, sort_by}
use audr.Record.{get, Json, Items, Fields, str, arr, obj, nil, cons, end, field}

pub data StatusClass : Type 0 where
  accepted unconfirmed invalid credential forbidden too_large transient permanent : StatusClass

abbrev pub is_transient : ℕ → Bool
is_transient status = status == 408 || status == 429 || (leb 500 status && leb status 599)

unfoldable pub classify_status : ℕ → StatusClass
classify_status status =
    if status == 200
    then accepted
    else if ltb 200 status && ltb status 300
    then unconfirmed
    else if status == 422
    then invalid
    else if status == 401
    then credential
    else if status == 403
    then forbidden
    else if status == 413
    then too_large
    else if is_transient status
    then transient
    else permanent

pub record InvalidEvent : Type 0 where
  pub index : ℕ
  pub detail : String

pub record ValidationVerdict : Type 0 where
  pub duplicates : List ℕ
  pub invalid : List InvalidEvent

-- `INDEX.test(key)` and `Number(key)`.
unfoldable pub parse_index : String → Option ℕ
unfolding digits_from
parse_index String.[] = none
parse_index (String.◌∷◌ c s) =
    if code c == b'0'
    then (if str_eq s "" then some 0 else none)
    else if is_digit (code c)
    then digits_from (code c - b'0') s
    else none

abbrev duplicate_field : String
duplicate_field = "transaction_id"

abbrev duplicate_code : String
duplicate_code = "value_already_exist"

abbrev pub fields : List String
fields = duplicate_field ∷ "external_subscription_id" ∷ "code" ∷ "timestamp" ∷ "properties" ∷ []

abbrev pub codes : List String
codes = duplicate_code ∷ "value_is_mandatory" ∷ "invalid_format" ∷ []

abbrev pub expression_failure : String
expression_failure = "event:expression_evaluation_failed"

-- The codes of one field, in order; `none` is the early return of `undefined`.
unfoldable pub code_pairs : String → Items → Option (List (String × String))
code_pairs name nil = some []
code_pairs name (cons (str c) cs) = elim (code_pairs name cs) [
  | some rest ↦ some ((name, c) ∷ rest)
  | none ↦ none
]
code_pairs name (cons _ cs) = none

unfoldable pub field_pairs : String → Json → Option (List (String × String))
unfolding code_pairs
field_pairs name (arr (cons c cs)) = code_pairs name (cons c cs)
field_pairs name _ = none

unfoldable pub pairs_of : List (String × Json) → Option (List (String × String))
unfolding field_pairs
pairs_of [] = some []
pairs_of ((name, errors) ∷ rest) =
    let later = pairs_of rest in
    elim (field_pairs name errors) [
      | none ↦ none
      | some here ↦ elim later [ none ↦ none | some there ↦ some (here ++ there) ]
    ]

unfoldable pub entries : Fields → List (String × Json)
entries end = []
entries (field k v fs) = (k, v) ∷ entries fs

-- `errorPairs`
unfoldable pub error_pairs : Json → Option (List (String × String))
unfolding pairs_of entries sort_by
error_pairs (obj fs) = elim (pairs_of (sort_by (λ a b. text_leb a.0 b.0) (entries fs))) [
  | some (p ∷ ps) ↦ some (p ∷ ps)
  | _ ↦ none
]
error_pairs _ = none

-- `pairs.find(…)`
unfoldable pub find_refusal : List (String × String) → Option (String × String)
find_refusal [] = none
find_refusal ((name, c) ∷ ps) =
    let later = find_refusal ps in
    if not (str_eq name duplicate_field) || not (str_eq c duplicate_code)
    then some (name, c)
    else later

abbrev pub allowed : List String → String → String → String
allowed list name fallback = if names list name then name else fallback

-- What one entry says of its event: nothing, that Lago holds it, or that Lago refused it.
pub data EventVerdict : Type 0 where
  unreadable duplicate : EventVerdict
  refused : String → EventVerdict

abbrev pub refusal_detail : String × String → String
refusal_detail p =
    String.◌++◌ (allowed fields p.0 "event")
      (String.◌++◌ ":" (allowed codes p.1 "validation_error"))

abbrev pub judge_found : Option (String × String) → EventVerdict
judge_found none = duplicate
judge_found (some p) = refused (refusal_detail p)

unfoldable pub judge_pairs : Option (List (String × String)) → EventVerdict
unfolding find_refusal
judge_pairs none = unreadable
judge_pairs (some pairs) = judge_found (find_refusal pairs)

unfoldable pub judge_event : Json → EventVerdict
unfolding judge_pairs error_pairs
judge_event (str _) = refused expression_failure
judge_event errors = judge_pairs (error_pairs errors)

abbrev pub add_verdict : ℕ → EventVerdict → ValidationVerdict → Option ValidationVerdict
add_verdict i unreadable v = none
add_verdict i duplicate v = some (record v { duplicates = i ∷ v.duplicates })
add_verdict i (refused detail) v =
    some (record v { invalid = record { index = i; detail = detail } ∷ v.invalid })

abbrev pub parsed_below : ℕ → Option ℕ → Option ℕ
parsed_below count none = none
parsed_below count (some i) = if leb count i then none else some i

-- One round of the loop over `entries`: the key's position, what the entry says, and the other rounds.
abbrev pub join_entry :
    Option ℕ → EventVerdict → Option ValidationVerdict → Option ValidationVerdict
join_entry none e later = none
join_entry (some i) e none = none
join_entry (some i) e (some v) = add_verdict i e v

-- The loop over `entries`.
unfoldable pub judge_entries : Fields → ℕ → Option ValidationVerdict
unfolding judge_event parse_index
judge_entries end count = some (record { duplicates = []; invalid = [] })
judge_entries (field key errors rest) count =
    join_entry (parsed_below count (parse_index key)) (judge_event errors)
      (judge_entries rest count)

abbrev pub sorted : ValidationVerdict → ValidationVerdict
sorted v = record {
  duplicates = sort_by leb v.duplicates;
  invalid = sort_by (λ a b. leb a.index b.index) v.invalid;
}

abbrev pub sort_verdict : Option ValidationVerdict → Option ValidationVerdict
sort_verdict none = none
sort_verdict (some v) = some (sorted v)

unfoldable pub parse_details : Json → ℕ → Option ValidationVerdict
unfolding judge_entries sort_by
parse_details (obj (field key errors rest)) count =
    sort_verdict (judge_entries (field key errors rest) count)
parse_details _ count = none

-- `parseValidationErrors`
unfoldable pub parse_validation_errors : Json → ℕ → Option ValidationVerdict
unfolding parse_details get
parse_validation_errors body count = parse_details (get body "error_details") count

unfoldable pub includes : Items → String → Bool
includes nil name = false
includes (cons (str s) rest) name = str_eq s name || includes rest name
includes (cons _ rest) name = includes rest name

abbrev array_includes : Json → String → Bool
array_includes (arr items) name = includes items name
array_includes _ name = false

-- `exceedsBatchLimit`
unfoldable pub exceeds_batch_limit : Json → Bool
unfolding get includes
exceeds_batch_limit body =
    array_includes (get (get body "error_details") "events") "too_many_events"
