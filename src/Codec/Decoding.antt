-- ===== src/Codec/Decoding.antt =====
-- What `parseRecord` and `decodeRecord` of adapters/core/typescript/src/codec.ts accept.
use audr.Base.{
  ℕ, ◌≡◌, refl, sym, is_empty, Bool, true, false, not, ◌&&◌, ◌||◌, List, [], ◌∷◌, Option, none,
  some, String, if◌then◌else◌, arith,
}
use audr.Record.{
  Json, undefined, null, non_finite, exotic, bool, num, str, arr, obj, get, ValidationIssue, issue,
  not_json, unsupported_version,
}
use audr.Validate.Issues.{SchemaError}
use audr.Validate.Checks.{as_json}
use audr.Validate.Sound.{is_sound, fits_schema}
use audr.Validate.Accepting.{inspect-Reports}
use audr.Codec.Parsing.{
  Parsed, accepts, refuses, is_object, is_supported, version_issue, or_untyped, accepts_unless,
  validate, parse_versioned, parse_clone, parse_record, parse_decoded, decode_record,
}

-- What the schema, the formats and the prose ask of a value, as JSON sees it.
abbrev pub is_valid : (Json → List SchemaError) → ℕ → Json → Bool
is_valid schema_errors now data_ =
    let copy = as_json false data_ in fits_schema (schema_errors copy) copy && is_sound copy now

-- A version that is a text is one of 1.
abbrev pub is_version : Json → Bool
is_version undefined = false
is_version (str s) = is_supported s
is_version _ = true

-- An object declares a supported version.
abbrev pub declares_version : Json → Bool
declares_version data_ = not (is_object data_) || is_version (get data_ "spec_version")

-- An issue of the version is there exactly if the version is not supported.
abbrev Tells : Bool → Option ValidationIssue → Type 0
Tells b none = b ≡ true
Tells b (some i) = b ≡ false

text-Tells : (s : String) (b : Bool) (i : ValidationIssue) → Tells b (if b then none else some i)
text-Tells s true i = refl
text-Tells s false i = refl

version_issue-Tells : (v : Json) → Tells (is_version v) (version_issue v)
version_issue-Tells undefined = refl
version_issue-Tells (str s) =
    text-Tells s (is_supported s) (issue unsupported_version "/spec_version")
version_issue-Tells null = refl
version_issue-Tells non_finite = refl
version_issue-Tells exotic = refl
version_issue-Tells (bool b) = refl
version_issue-Tells (num n) = refl
version_issue-Tells (arr items) = refl
version_issue-Tells (obj fs) = refl

object-Tells :
    (is_object b : Bool) (o : Option ValidationIssue)
    → Tells b o
    → Tells (not is_object || b) (if is_object then o else none)
object-Tells true b o h = h
object-Tells false b o h = refl

module _ (clone : Json → Option Json) (parse_json : String → Option Json)
    (schema_errors : Json → List SchemaError) (now : ℕ) where
  -- What comes of a value whose clone, if there is one, is given.
  abbrev pub Parses : Option Json → Parsed → Type 0
  Parses c (accepts d) =
      (c ≡ some d) × (declares_version d ≡ true) × (is_valid schema_errors now d ≡ true)
  Parses none (refuses issues) = is_empty issues ≡ false
  Parses (some d) (refuses issues) =
      ((declares_version d && is_valid schema_errors now d) ≡ false) × (is_empty issues ≡ false)

  validate-valid :
      (d : Json)
      → is_empty (validate clone parse_json schema_errors now d) ≡ is_valid schema_errors now d
  unfolding validate
  validate-valid d = (inspect-Reports schema_errors now d).0

  untyped-issues : (issues : List ValidationIssue) → is_empty (or_untyped issues) ≡ false
  untyped-issues [] = refl
  untyped-issues (i ∷ issues) = refl

  accepts_unless-Parses :
      (d : Json) (issues : List ValidationIssue)
      → declares_version d ≡ true
      → is_empty issues ≡ is_valid schema_errors now d
      → Parses (some d) (accepts_unless d issues)
  accepts_unless-Parses d [] v h = (refl, v, sym h)
  accepts_unless-Parses d (i ∷ issues) v h = (ground (arith, h), refl)

  parse_versioned-Parses :
      (d : Json) (o : Option ValidationIssue)
      → Tells (declares_version d) o
      → Parses (some d) (parse_versioned clone parse_json schema_errors now o d)
  parse_versioned-Parses d none h =
      accepts_unless-Parses d (validate clone parse_json schema_errors now d) h (validate-valid d)
  parse_versioned-Parses d (some i) h = (ground (arith, h), refl)

  parse_clone-Parses :
      (input : Json) (c : Option Json)
      → Parses c (parse_clone clone parse_json schema_errors now input c)
  parse_clone-Parses input none = untyped-issues (validate clone parse_json schema_errors now input)
  parse_clone-Parses input (some d) =
      parse_versioned-Parses d (if is_object d then version_issue (get d "spec_version") else none)
        (object-Tells (is_object d) (is_version (get d "spec_version"))
          (version_issue (get d "spec_version")) (version_issue-Tells (get d "spec_version")))

  parse_record-Parses :
      (input : Json) → Parses (clone input) (parse_record clone parse_json schema_errors now input)
  unfolding parse_record
  parse_record-Parses input = parse_clone-Parses input (clone input)

  -- What comes of a text, when what `JSON.parse` makes of it, if it does, is given.
  abbrev pub Decodes : Option Json → Parsed → Type 0
  Decodes none r = r ≡ refuses (issue not_json "/" ∷ [])
  Decodes (some input) r = Parses (clone input) r

  decoded : (o : Option Json) → Decodes o (parse_decoded clone parse_json schema_errors now o)
  decoded none = refl
  decoded (some input) = parse_record-Parses input

  -- `decodeRecord` returns the clone of what `JSON.parse` reads, exactly if there is one, which declares a supported version where
  -- it is an object, and is valid. All else it refuses with one issue at least, and a text that is not JSON with `NOT_JSON` alone.
  pub decode_record-Decodes :
      (json : String)
      → Decodes (parse_json json) (decode_record clone parse_json schema_errors now json)
  unfolding decode_record
  decode_record-Decodes json = decoded (parse_json json)
