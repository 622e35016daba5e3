-- ===== src/Codec/Parsing.antt =====
-- adapters/core/typescript/src/codec.ts: `parseRecord` and `decodeRecord`. `structuredClone`, `JSON.parse`, the generated validator and the
-- time are parameters.
use Prim.Native.Char.{code}
use audr.Base.{
  ℕ, Bool, true, false, ◌&&◌, List, [], ◌∷◌, Option, none, some, String, if◌then◌else◌, ◌==◌,
}
use audr.Record.{
  Json, undefined, str, obj, exotic, get, ValidationIssue, issue, required, unsupported_version,
  invalid_type, not_json,
}
use audr.Validate.Issues.{SchemaError}
use audr.Validate.Checks.{inspect}
use audr.Validate.Timestamps.{leading_digits}

-- The record, or the issues of the `ValidationError` that was thrown.
pub data Parsed : Type 0 where
  accepts : Json → Parsed
  refuses : List ValidationIssue → Parsed

abbrev pub is_object : Json → Bool
is_object (obj fs) = true
is_object exotic = true
is_object _ = false

abbrev ends_in_digits : String × String → Bool
ends_in_digits (String.[], rest) = false
ends_in_digits (String.◌∷◌ c front, String.[]) = true
ends_in_digits (String.◌∷◌ c front, String.◌∷◌ d rest) = false

abbrev goes_on_minor : String × String → Bool
goes_on_minor (String.[], rest) = false
goes_on_minor (String.◌∷◌ c front, String.[]) = false
goes_on_minor (String.◌∷◌ c front, String.◌∷◌ d rest) =
    code d == b'.' && ends_in_digits (leading_digits rest)

-- `SUPPORTED_SPEC_VERSION`
unfoldable pub is_supported : String → Bool
unfolding leading_digits
is_supported String.[] = false
is_supported (String.◌∷◌ c String.[]) = false
is_supported (String.◌∷◌ c (String.◌∷◌ d s)) =
    (code c == b'1' && code d == b'.') && goes_on_minor (leading_digits s)

-- The issue of `spec_version` alone, of an object.
abbrev pub version_issue : Json → Option ValidationIssue
version_issue undefined = some (issue required "/spec_version")
version_issue (str s) =
    if is_supported s then none else some (issue unsupported_version "/spec_version")
version_issue _ = none

abbrev pub or_untyped : List ValidationIssue → List ValidationIssue
or_untyped [] = issue invalid_type "/" ∷ []
or_untyped (i ∷ issues) = i ∷ issues

abbrev pub accepts_unless : Json → List ValidationIssue → Parsed
accepts_unless data_ [] = accepts data_
accepts_unless data_ (i ∷ issues) = refuses (i ∷ issues)

module _ (clone : Json → Option Json) (parse_json : String → Option Json)
    (schema_errors : Json → List SchemaError) (now : ℕ) where
  -- `validate`
  unfoldable pub validate : Json → List ValidationIssue
  unfolding inspect
  validate value = (inspect schema_errors now value).issues

  abbrev pub parse_versioned : Option ValidationIssue → Json → Parsed
  parse_versioned (some i) data_ = refuses (i ∷ [])
  parse_versioned none data_ = accepts_unless data_ (validate data_)

  -- `parseRecord`, of the clone.
  abbrev pub parse_clone : Json → Option Json → Parsed
  parse_clone input none = refuses (or_untyped (validate input))
  parse_clone input (some data_) =
      parse_versioned (if is_object data_ then version_issue (get data_ "spec_version") else none)
        data_

  -- `parseRecord`
  unfoldable pub parse_record : Json → Parsed
  unfolding validate is_supported get
  parse_record input = parse_clone input (clone input)

  abbrev pub parse_decoded : Option Json → Parsed
  parse_decoded none = refuses (issue not_json "/" ∷ [])
  parse_decoded (some data_) = parse_record data_

  -- `decodeRecord`
  unfoldable pub decode_record : String → Parsed
  unfolding parse_record
  decode_record json = parse_decoded (parse_json json)
