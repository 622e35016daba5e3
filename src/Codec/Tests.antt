-- ===== src/Codec/Tests.antt =====
-- Values with nested objects, with a key that is `undefined`, with array indices for keys, and with a number that JSON has not.
use audr.Base.{◌≡◌, refl, true, [], ◌∷◌, Option, none, some, String, str_eq, if◌then◌else◌}
use audr.Base.Text.{decimal}
use audr.Record.{Json, undefined, null, non_finite, num, str, obj, field, end, issue, invalid_type}
use audr.Validate.Issues.{pointer, value_at}
use audr.Codec.Parsing.{Parsed, accepts, decode_record}
use audr.Codec.Decoding.{Decodes, decode_record-Decodes}
use audr.Codec.Sorting.{returns, throws, sort_keys, Gives}
use audr.Codec.Failing.{Encodes, sort_keys-Encodes}
use audr.Codec.Lookup.{is_json}
use audr.Codec.Canonical.{is_canonical, outline, sort_keys-canonical}

abbrev nested : Json
nested = obj (
    field "run" (obj (field "name" (str "b") (field "id" (num "1") end)))
      (field "corrects" undefined (field "cost" null end)))

nested_sorted :
    sort_keys nested []
    ≡ returns (
        obj (
          field "cost" null
            (field "run" (obj (field "id" (num "1") (field "name" (str "b") end))) end)))
unfolding sort_keys
nested_sorted = refl

-- `{ 9: …, 10: … }`, whose keys `sort` puts the other way round.
index_keys :
    sort_keys (obj (field "9" null (field "a" null (field "10" null end)))) []
    ≡ returns (obj (field "9" null (field "10" null (field "a" null end))))
unfolding sort_keys decimal
index_keys = refl

unencodable :
    sort_keys (obj (field "cost" (obj (field "total_cost" non_finite end)) end)) []
    ≡ throws (issue invalid_type "/cost/total_cost")
unfolding sort_keys pointer
unencodable = refl

sort_keys-Encodes_example : Encodes nested (sort_keys nested [])
sort_keys-Encodes_example = sort_keys-Encodes nested

sort_keys-canonical_example :
    Gives
      (λ w.
        (is_canonical w ≡ true)
        × (outline (value_at w ("run" ∷ "id" ∷ []))
            ≡ outline (value_at nested ("run" ∷ "id" ∷ []))))
      (sort_keys nested [])
unfolding is_json
sort_keys-canonical_example = sort_keys-canonical nested ("run" ∷ "id" ∷ []) refl

-- A record, with no text but one that is JSON.
abbrev sample : Json
sample = obj (
    field "spec_version" (str "1.0.0") (
      field "record_id" (str "01890a5d-ac96-774b-bcce-b302099a8057") (
        field "timing" (obj (field "event_time" (str "2024-02-29T23:59:59Z") end))
          (field "attribution" (obj (field "environment" (str "production") end)) end))))

abbrev read_json : String → Option Json
read_json s = if str_eq s "{}" then some sample else none

abbrev decode : String → Parsed
decode = decode_record some read_json (λ data_. []) 1800000000000

is_decoded : decode "{}" ≡ accepts sample
unfolding decode_record
is_decoded = refl

decode_record-Decodes_example :
    Decodes some read_json (λ data_. []) 1800000000000 (some sample) (decode "{}")
decode_record-Decodes_example =
    decode_record-Decodes some read_json (λ data_. []) 1800000000000 "{}"
