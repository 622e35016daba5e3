-- ===== src/Validate/Tests.antt =====
-- Small inputs to the reading of the validator's failures.
use audr.Base.{◌≡◌, refl, names, List, [], ◌∷◌, Option, none, some, String}
use audr.Record.{Json, non_finite, null, obj, end, field, required, invalid_type, invalid_counter}
use audr.Validate.Issues.{SchemaError, path_segments, schema_issues, pointer, caller_keyed}
use audr.Validate.Pointer.{pointer-roundtrip}
use audr.Validate.Redaction.{AreShown, pointer-redacted, schema_issues-AreShown}

abbrev failure : String → String → List String → Option String → SchemaError
failure keyword path types missing = record {
  keyword = keyword;
  instance_path = path;
  schema_path = "#/properties";
  types = types;
  missing_property = missing;
  additional_property = none;
  params_property_name = none;
  property_name = none;
  schema = null;
  parent_schema = null;
}

-- A wrong type, reported once; a required property; a label of a wrong type; what only a sink sets.
abbrev failures : List SchemaError
failures =
    failure "type" "/usage/llm/a~1b" ("integer" ∷ []) none
    ∷ failure "minimum" "/usage/llm/a~1b" [] none
    ∷ failure "required" "/timing" [] (some "event_time")
    ∷ failure "type" "/attribution/labels/secret" ("string" ∷ []) none
    ∷ failure "not" "/timing/received_time" [] none
    ∷ []

abbrev value : Json
value = obj (field "usage" (obj (field "llm" (obj (field "a/b" non_finite end)) end)) end)

program : Unit {0}
unfolding schema_issues pointer
program = tt

schema_issues-failures : schema_issues failures value ≡ record {
  structural =
      record { code = invalid_counter; path = "/usage/llm/a~1b" }
      ∷ record { code = required; path = "/timing/event_time" }
      ∷ record { code = invalid_type; path = "/attribution/labels/*" }
      ∷ [];
  conditional = [];
}
unfolding program
schema_issues-failures = refl

pointer-redacted_example :
    pointer ("attribution" ∷ caller_keyed ∷ "secret" ∷ [])
    ≡ pointer ("attribution" ∷ caller_keyed ∷ "other" ∷ [])
pointer-redacted_example = pointer-redacted ("attribution" ∷ []) [] "secret" "other" refl refl

schema_issues-AreShown_example : AreShown (schema_issues failures value)
schema_issues-AreShown_example = schema_issues-AreShown failures value

pointer-roundtrip_example : path_segments (pointer ("a/b" ∷ "~1" ∷ [])) ≡ "a/b" ∷ "~1" ∷ []
unfolding names
pointer-roundtrip_example = pointer-roundtrip "a/b" ("~1" ∷ []) refl
