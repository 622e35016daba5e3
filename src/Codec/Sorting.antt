-- ===== src/Codec/Sorting.antt =====
-- adapters/core/typescript/src/codec.ts: `sortKeys`. What `JSON.stringify` makes of its result is not modelled.
use audr.Base.{Bool, true, false, List, [], ◌∷◌, ◌++◌, String, str_eq, if◌then◌else◌}
use audr.Base.Text.{sort_by}
use audr.Record.{
  Json, undefined, non_finite, exotic, arr, obj, Fields, end, field, ValidationIssue, issue,
  invalid_type,
}
use audr.Validate.Issues.{pointer}
use audr.Codec.Keys.{key_leb, add_entry}

-- A value, or the issue of the `ValidationError` that was thrown.
pub data Outcome {ℓ} (A : Type ℓ) : Type ℓ where
  returns : A → Outcome A
  throws : ValidationIssue → Outcome A

abbrev pub Entry : Type 0
Entry = String × Outcome Json

-- `a < b ? -1 : 1`, of entries whose keys differ.
abbrev pub entry_leb : Entry → Entry → Bool
entry_leb (k, v) (l, w) = key_leb k l

-- The entries, mapped in order; the first that throws ends it.
abbrev pub and_entry : String → Outcome Json → Outcome Fields → Outcome Fields
and_entry key (throws i) rest = throws i
and_entry key (returns v) (throws i) = throws i
and_entry key (returns v) (returns fs) = returns (add_entry key v fs)

unfoldable pub from_sorted : List Entry → Outcome Fields
unfolding add_entry
from_sorted [] = returns end
from_sorted ((key, o) ∷ rest) = and_entry key o (from_sorted rest)

abbrev pub as_object : Outcome Fields → Outcome Json
as_object (throws i) = throws i
as_object (returns fs) = returns (obj fs)

abbrev pub is_undefined : Json → Bool
is_undefined undefined = true
is_undefined _ = false

-- A property that is `undefined` is left out.
abbrev pub add_present : Bool → Entry → List Entry → List Entry
add_present true e rest = rest
add_present false e rest = e ∷ rest

-- `sortKeys`. A field's value is sorted before the entries are, and its failure kept with it.
unfoldable mutual
  unfolding from_sorted sort_by key_leb pointer

  pub sort_keys : Json → List String → Outcome Json
  sort_keys non_finite path = throws (issue invalid_type (pointer path))
  sort_keys exotic path = throws (issue invalid_type (pointer path))
  sort_keys (arr items) path = throws (issue invalid_type (pointer path))
  sort_keys (obj fs) path = as_object (from_sorted (sort_by entry_leb (sort_entries fs path)))
  sort_keys v path = returns v

  pub sort_entries : Fields → List String → List Entry
  sort_entries end path = []
  sort_entries (field key v rest) path =
      add_present (is_undefined v) (key, sort_keys v (path ++ key ∷ [])) (sort_entries rest path)

-- The value of the first entry of a key.
unfoldable pub find_entry : List Entry → String → Outcome Json
find_entry [] q = returns undefined
find_entry ((key, o) ∷ rest) q = let later = find_entry rest q in if str_eq key q then o else later

abbrev pub is_thrown {ℓ} : {A : Type ℓ} → Outcome A → Bool
is_thrown (throws i) = true
is_thrown (returns a) = false

-- What holds of a value that was returned.
abbrev pub Gives {ℓ} : {A : Type ℓ} → (A → Type 0) → Outcome A → Type 0
Gives P (returns a) = P a
Gives P (throws i) = Unit
