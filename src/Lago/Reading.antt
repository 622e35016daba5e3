-- ===== src/Lago/Reading.antt =====
-- What a `422` that can be read says is about the events of the request, and holds no text of Lago's.
use Prim.Native.String
use audr.Base.{
  ℕ, ◌<◌, ◌≡◌, refl, subst, ◌⊎◌, inl, inr, true, List, ◌∷◌, Option, none, some, String, arith, leb,
  names, All, Bool-cases, str_eq_refl,
}
use audr.Base.Text.{All-sort_by}
use audr.Record.{get, Json, Fields, str, obj, end, field}
use audr.Lago.Response.{
  ValidationVerdict, InvalidEvent, parse_index, parsed_below, fields, codes, expression_failure,
  error_pairs, find_refusal, refusal_detail, EventVerdict, unreadable, duplicate, refused,
  judge_pairs, judge_event, judge_entries, parse_details, parse_validation_errors, add_verdict,
  allowed, judge_found, join_entry, sort_verdict,
}

-- A field and a code out of the lists that the sink knows, or their stand-ins.
pub record IsPair (detail : String) : Type 0 where
  pub name : String
  pub code : String
  pub known_name : names ("event" ∷ fields) name ≡ true
  pub known_code : names ("validation_error" ∷ codes) code ≡ true
  pub text : detail ≡ String.◌++◌ name (String.◌++◌ ":" code)

abbrev pub IsAllowed : String → Type 0
IsAllowed detail = (detail ≡ expression_failure) ⊎ IsPair detail

pub record IsReadable (count : ℕ) (v : ValidationVerdict) : Type 0 where
  pub duplicates : All (λ i. i < count) v.duplicates
  pub invalid : All (λ (e : InvalidEvent). (e.index < count) × IsAllowed e.detail) v.invalid

allowed-names :
    (list : List String) (name fallback : String)
    → names (fallback ∷ list) (allowed list name fallback) ≡ true
unfolding names
allowed-names list name fallback = ground (arith, str_eq_refl fallback)

refusal_detail-IsPair : (p : String × String) → IsPair (refusal_detail p)
refusal_detail-IsPair p = record {
  name = allowed fields p.0 "event";
  code = allowed codes p.1 "validation_error";
  known_name = allowed-names fields p.0 "event";
  known_code = allowed-names codes p.1 "validation_error";
  text = refl;
}

abbrev Reports : EventVerdict → Type 0
Reports (refused detail) = IsAllowed detail
Reports _ = Unit

judge_found-Reports : (p : Option (String × String)) → Reports (judge_found p)
judge_found-Reports none = tt
judge_found-Reports (some p) = inr (refusal_detail-IsPair p)

judge_pairs-Reports : (ps : Option (List (String × String))) → Reports (judge_pairs ps)
unfolding judge_pairs
judge_pairs-Reports none = tt
judge_pairs-Reports (some ps) = judge_found-Reports (find_refusal ps)

judge_event-Reports : (j : Json) → Reports (judge_event j)
unfolding judge_event
judge_event-Reports (str _) = inl refl
judge_event-Reports j = judge_pairs-Reports (error_pairs j)

abbrev OnSome : (ValidationVerdict → Type 0) → Option ValidationVerdict → Type 0
OnSome P none = Unit
OnSome P (some v) = P v

module _ (count : ℕ) where
  add_verdict-IsReadable :
      (i : ℕ) (e : EventVerdict) (v : ValidationVerdict)
      → i < count
      → Reports e
      → IsReadable count v
      → OnSome (IsReadable count) (add_verdict i e v)
  add_verdict-IsReadable i unreadable v h r s = tt
  add_verdict-IsReadable i duplicate v h r s = record {
    duplicates = (h, s.duplicates);
    invalid = s.invalid;
  }
  add_verdict-IsReadable i (refused d) v h r s = record {
    duplicates = s.duplicates;
    invalid = ((h, r), s.invalid);
  }

  join_entry-IsReadable :
      (i : Option ℕ) (e : EventVerdict) (later : Option ValidationVerdict)
      → Reports e
      → OnSome (IsReadable count) later
      → OnSome (IsReadable count) (join_entry (parsed_below count i) e later)
  join_entry-IsReadable none e later r s = tt
  join_entry-IsReadable (some i) e later r s = elim (Bool-cases (leb count i)) [
    | inl out ↦ rw out tt
    | inr within ↦ rw within (join-within e later (ground arith) r s)
  ]
    where
      join-within :
          (e : EventVerdict) (later : Option ValidationVerdict)
          → i < count
          → Reports e
          → OnSome (IsReadable count) later
          → OnSome (IsReadable count) (join_entry (some i) e later)
      join-within e none h r s = tt
      join-within e (some v) h r s = add_verdict-IsReadable i e v h r s

  judge_entries-IsReadable : (fs : Fields) → OnSome (IsReadable count) (judge_entries fs count)
  unfolding judge_entries
  judge_entries-IsReadable end = record { duplicates = tt; invalid = tt }
  judge_entries-IsReadable (field key errors rest) =
      join_entry-IsReadable (parse_index key) (judge_event errors) (judge_entries rest count)
        (judge_event-Reports errors) (judge_entries-IsReadable rest)

  sort_verdict-IsReadable :
      (v : Option ValidationVerdict)
      → OnSome (IsReadable count) v
      → OnSome (IsReadable count) (sort_verdict v)
  sort_verdict-IsReadable none s = tt
  sort_verdict-IsReadable (some v) s = record {
    duplicates = All-sort_by _ leb v.duplicates s.duplicates;
    invalid = All-sort_by _ (λ a b. leb a.index b.index) v.invalid s.invalid;
  }

  parse_details-IsReadable : (j : Json) → OnSome (IsReadable count) (parse_details j count)
  unfolding parse_details
  parse_details-IsReadable (obj (field key errors rest)) =
      sort_verdict-IsReadable (judge_entries (field key errors rest) count)
        (judge_entries-IsReadable (field key errors rest))
  parse_details-IsReadable _ = tt

-- When the body of a `422` can be read, whatever Lago wrote in it: every event that it names stands in
-- the request, and every detail that is passed on is the expression failure or a pair of a field and a
-- code from the sink's own lists.
pub parse_validation_errors-IsReadable :
    (body : Json) (count : ℕ) {v : ValidationVerdict}
    → parse_validation_errors body count ≡ some v
    → IsReadable count v
unfolding parse_validation_errors
parse_validation_errors-IsReadable body count e =
    subst (OnSome (IsReadable count)) e (parse_details-IsReadable count (get body "error_details"))
