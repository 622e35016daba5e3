-- ===== src/Codec/Failing.antt =====
-- When `sortKeys` of adapters/core/typescript/src/codec.ts throws, and where.
use audr.Base.{
  All, ◌≡◌, sym, ap, ◌∙◌, Bool, true, false, not, List, [], ◌∷◌, ◌++◌, append_assoc, append-nil,
  String, arith,
}
use audr.Base.Text.{sort_by, All-sort_by}
use audr.Record.{
  Json, undefined, null, non_finite, exotic, bool, num, str, arr, obj, Items, Fields, end, field,
  ValidationIssue, issue, invalid_type,
}
use audr.Validate.Issues.{pointer}
use audr.Codec.Sorting.{
  Outcome, returns, throws, Entry, entry_leb, and_entry, from_sorted, as_object, is_undefined,
  add_present, sort_keys, sort_entries, is_thrown,
}
use audr.Codec.Encodable.{is_encodable, sort_keys-thrown}

-- Where the value is that cannot be encoded: it is the value itself, or it is in the value of a field.
mutual
  pub data Located : Json → List String → Type 0 where
    at_number : Located non_finite []
    at_exotic : Located exotic []
    at_array : (items : Items) → Located (arr items) []
    within : (fs : Fields) (path : List String) → InFields fs path → Located (obj fs) path

  pub data InFields : Fields → List String → Type 0 where
    first :
        (key : String) (v : Json) (rest : Fields) (path : List String)
        → Located v path
        → InFields (field key v rest) (key ∷ path)
    later :
        (key : String) (v : Json) (rest : Fields) (path : List String)
        → InFields rest path
        → InFields (field key v rest) path

-- The issue that `sortKeys` throws at a path.
abbrev pub Points : Json → List String → ValidationIssue → Type 0
Points v path i =
    (ks : List String) × Located v ks × (i ≡ issue invalid_type (pointer (path ++ ks)))

abbrev PointsInto : Fields → List String → ValidationIssue → Type 0
PointsInto fs path i =
    (ks : List String) × InFields fs ks × (i ≡ issue invalid_type (pointer (path ++ ks)))

abbrev Fails {ℓ} : {A : Type ℓ} → (ValidationIssue → Type 0) → Outcome A → Type 0
Fails Q (throws i) = Q i
Fails Q (returns a) = Unit

Fails-map :
    {A : Type 0} (P Q : ValidationIssue → Type 0)
    → ((i : ValidationIssue) → P i → Q i)
    → (o : Outcome A) → Fails P o
    → Fails Q o
Fails-map P Q f (throws i) h = f i h
Fails-map P Q f (returns a) h = tt

and_returned :
    (Q : ValidationIssue → Type 0) (key : String) (v : Json) (rest : Outcome Fields)
    → Fails Q rest
    → Fails Q (and_entry key (returns v) rest)
and_returned Q key v (throws i) h = h
and_returned Q key v (returns fs) h = tt

Fails-from_sorted :
    (Q : ValidationIssue → Type 0) (xs : List Entry)
    → All (λ e. Fails Q e.1) xs
    → Fails Q (from_sorted xs)
unfolding from_sorted
Fails-from_sorted Q [] h = tt
Fails-from_sorted Q ((key, throws i) ∷ rest) h = h.0
Fails-from_sorted Q ((key, returns v) ∷ rest) h =
    and_returned Q key v (from_sorted rest) (Fails-from_sorted Q rest h.1)

Fails-as_object :
    (Q : ValidationIssue → Type 0) (o : Outcome Fields) → Fails Q o → Fails Q (as_object o)
Fails-as_object Q (throws i) h = h
Fails-as_object Q (returns fs) h = tt

All-add_present :
    (P : Entry → Type 0) (b : Bool) (e : Entry) (rest : List Entry)
    → P e
    → All P rest
    → All P (add_present b e rest)
All-add_present P true e rest h g = g
All-add_present P false e rest h g = (h, g)

All-map :
    (P Q : Entry → Type 0) → ((e : Entry) → P e → Q e) → (xs : List Entry) → All P xs → All Q xs
All-map P Q f [] h = tt
All-map P Q f (e ∷ xs) h = (f e h.0, All-map P Q f xs h.1)

pointed_first :
    (key : String) (v : Json) (rest : Fields) (path : List String) (i : ValidationIssue)
    → Points v (path ++ key ∷ []) i
    → PointsInto (field key v rest) path i
pointed_first key v rest path i (ks, l, e) = (
  key ∷ ks,
  first key v rest ks l,
  e ∙ ap (λ p. issue invalid_type (pointer p)) (append_assoc path (key ∷ []) ks),
)

pointed_later :
    (key : String) (v : Json) (rest : Fields) (path : List String) (i : ValidationIssue)
    → PointsInto rest path i
    → PointsInto (field key v rest) path i
pointed_later key v rest path i (ks, l, e) = (ks, later key v rest ks l, e)

pointed_here :
    (v : Json) (path : List String)
    → Located v []
    → Points v path (issue invalid_type (pointer path))
pointed_here v path l = ([], l, ap (λ p. issue invalid_type (pointer p)) (sym (append-nil path)))

mutual
  unfolding sort_keys sort_entries

  sort_keys-Points : (v : Json) (path : List String) → Fails (Points v path) (sort_keys v path)
  sort_keys-Points undefined path = tt
  sort_keys-Points null path = tt
  sort_keys-Points (bool b) path = tt
  sort_keys-Points (num n) path = tt
  sort_keys-Points (str s) path = tt
  sort_keys-Points non_finite path = pointed_here non_finite path at_number
  sort_keys-Points exotic path = pointed_here exotic path at_exotic
  sort_keys-Points (arr items) path = pointed_here (arr items) path (at_array items)
  sort_keys-Points (obj fs) path =
      Fails-as_object (Points (obj fs) path)
        (from_sorted (sort_by entry_leb (sort_entries fs path)))
        (Fails-map (PointsInto fs path) (Points (obj fs) path)
          (λ i h. (h.0, within fs h.0 h.1, h.2))
          (from_sorted (sort_by entry_leb (sort_entries fs path)))
          (Fails-from_sorted (PointsInto fs path) (sort_by entry_leb (sort_entries fs path)) (
            All-sort_by (λ e. Fails (PointsInto fs path) e.1) entry_leb (sort_entries fs path)
              (sort_entries-Points fs path))))

  sort_entries-Points :
      (fs : Fields) (path : List String)
      → All (λ e. Fails (PointsInto fs path) e.1) (sort_entries fs path)
  sort_entries-Points end path = tt
  sort_entries-Points (field key v rest) path =
      All-add_present (λ e. Fails (PointsInto (field key v rest) path) e.1) (is_undefined v)
        (key, sort_keys v (path ++ key ∷ [])) (sort_entries rest path)
        (Fails-map (Points v (path ++ key ∷ [])) (PointsInto (field key v rest) path)
          (pointed_first key v rest path) (sort_keys v (path ++ key ∷ []))
          (sort_keys-Points v (path ++ key ∷ [])))
        (All-map (λ e. Fails (PointsInto rest path) e.1)
          (λ e. Fails (PointsInto (field key v rest) path) e.1)
          (λ e.
            Fails-map (PointsInto rest path) (PointsInto (field key v rest) path)
              (pointed_later key v rest path) e.1)
          (sort_entries rest path) (sort_entries-Points rest path))

-- The value throws exactly if it holds something that cannot be encoded; the issue names a place where such a thing stands.
abbrev pub Encodes : Json → Outcome Json → Type 0
Encodes v (returns w) = is_encodable v ≡ true
Encodes v (throws i) = (is_encodable v ≡ false) × Points v [] i

encodes :
    (v : Json) (o : Outcome Json)
    → is_thrown o ≡ not (is_encodable v)
    → Fails (Points v []) o
    → Encodes v o
encodes v (returns w) h g = ground (arith, h)
encodes v (throws i) h g = (ground (arith, h), g)

-- `sortKeys` returns a value that holds, at any depth, nothing that cannot be encoded: no number that JSON cannot represent, no
-- array and no object that is not plain. Of any other value it throws one issue, `INVALID_TYPE`, at the path of such a thing.
pub sort_keys-Encodes : (v : Json) → Encodes v (sort_keys v [])
sort_keys-Encodes v = encodes v (sort_keys v []) (sort_keys-thrown v []) (sort_keys-Points v [])
