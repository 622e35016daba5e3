-- ===== src/Adapters/Reading.antt =====
-- What the adapters read of values that they do not know: attribution.ts of adapters/mastra and adapters/vercel-ai, which
-- differ in the name of a parameter, and helpers of their mapping.ts.
use audr.Base.{Bool, true, false, ◌&&◌, [], ◌∷◌, Option, none, some, String, str_eq, if◌then◌else◌}
use audr.Record.{Json, Fields, num, str, obj, end, field, get}
use audr.Canonical.{Properties}
use audr.Adapters.Numbers.{Double, given}
use audr.Adapters.Scope.{Attribution, no_attribution, merge_attribution}

-- `typeof value === 'string'`
abbrev pub string_of : Json → Option String
string_of (str s) = some s
string_of _ = none

-- `nonEmpty`
unfoldable pub non_empty : Json → Option String
non_empty (str s) = if str_eq s "" then none else some s
non_empty _ = none

abbrev is_string : Json → Bool
is_string (str s) = true
is_string _ = false

unfoldable pub entries_of : Fields → Properties
entries_of end = []
entries_of (field k v fs) = (k, v) ∷ entries_of fs

unfoldable pub are_strings : Fields → Bool
are_strings end = true
are_strings (field k v fs) = is_string v && are_strings fs

-- The labels, if they are a plain object of texts.
unfoldable pub labels_of : Json → Properties
unfolding entries_of are_strings
labels_of (obj fs) = if are_strings fs then entries_of fs else []
labels_of _ = []

-- `readMetadataAttribution` and `readRuntimeAttribution`, of `metadata` or `runtimeContext`.
unfoldable pub read_attribution : Json → Option Attribution
unfolding labels_of get
read_attribution source = elim (get source "audr") [
  | obj fs ↦
      let audr_ = obj fs in
      some (record {
        environment = string_of (get audr_ "environment");
        account_id = string_of (get audr_ "account_id");
        subscription_id = string_of (get audr_ "subscription_id");
        user_id = string_of (get audr_ "user_id");
        feature_id = string_of (get audr_ "feature_id");
        labels = labels_of (get audr_ "labels");
      })
  | _ ↦ none
]

abbrev resolved : Attribution → Option Attribution
resolved attribution = elim attribution.environment [ none ↦ none | some _ ↦ some attribution ]

-- `resolveAttribution`; the default is none.
unfoldable pub resolve_attribution : Json → Option Attribution → Option Attribution
unfolding read_attribution merge_attribution
resolve_attribution source defaults =
    resolved (merge_attribution (given no_attribution defaults) (read_attribution source))

-- `counter`
unfoldable pub counter : {W : Type 0} ⦃d : Double W⦄ → Json → Option W
counter ⦃d⦄ (num n) = let w = d.of_text n in if d.is_counter w then some w else none
counter _ = none
