-- ===== src/Chargebee/Contract.antt =====
-- What the Chargebee sink reports of a record, against what Chargebee answered.
use audr.Base.{
  ℕ, zero, suc, ◌≡◌, inl, inr, refl, ap, ◌∙◌, Bool, true, false, not, ◌&&◌, ◌||◌, List, [], ◌∷◌,
  ◌++◌, map, String, str_eq, str_eq_iff, arith, ◌==◌, if◌then◌else◌, filter_by, names, Bool-cases,
}
use audr.Record.{get, Json, Items, arr, str, nil, cons, RejectedRecord, dropped, unknown}
use audr.Pipeline.State.{ItemState, sent, ended}
use audr.Pipeline.Verdict.{verdict}
use audr.Chargebee.Sink.{
  Matched, error_code, occurrences, repeat, match_id, match_entries, reported, partial_failed,
}

abbrev pub prepend_id : Json → List String → List String
prepend_id (str id) later = id ∷ later
prepend_id _ later = later

-- The `deduplication_id`s of the entries that have one.
unfoldable pub named_ids : Items → List String
unfolding get
named_ids nil = []
named_ids (cons entry rest) = prepend_id (get entry "deduplication_id") (named_ids rest)

abbrev pub is_attributed : List String → List String → Json → (List String → Bool) → Bool
is_attributed batch seen (str id) later = names batch id && not (names seen id) && later (id ∷ seen)
is_attributed batch seen _ later = false

-- Every entry names a record of the batch, and no two entries name the same: `seen` were named before.
unfoldable pub all_attributed : List String → List String → Items → Bool
unfolding get names
all_attributed batch seen nil = true
all_attributed batch seen (cons entry rest) =
    is_attributed batch seen (get entry "deduplication_id")
      (λ seen'. all_attributed batch seen' rest)

abbrev pub rejected_id : List RejectedRecord → String → Bool
rejected_id rs id = names (map (λ r. r.record_id) rs) id

occurrences-names : (xs : List String) (id : String) → (occurrences xs id == 0) ≡ not (names xs id)
unfolding occurrences names
occurrences-names [] id = refl
occurrences-names (x ∷ xs) id = ground (arith, occurrences-names xs id)

pub rejected-append :
    (xs ys : List RejectedRecord) (id : String)
    → rejected_id (xs ++ ys) id ≡ (rejected_id xs id || rejected_id ys id)
unfolding names
rejected-append [] ys id = refl
rejected-append (x ∷ xs) ys id = ground (arith, rejected-append xs ys id)

rejected-repeat :
    (n : ℕ) (r : RejectedRecord) (id : String)
    → rejected_id (repeat n r) id ≡ (not (n == 0) && str_eq r.record_id id)
unfolding names repeat
rejected-repeat zero r id = refl
rejected-repeat (suc n) r id = ground (arith, rejected-repeat n r id)

module _ (batch : List String) where
  -- A record is rejected if its identifier was.
  IsMatched : Matched → Type 0
  IsMatched m = (id : String) → rejected_id m.rejected id ≡ names m.rejected_ids id

  match_id-IsMatched :
      (key entry : Json) (m : Matched) → IsMatched m → IsMatched (match_id batch key entry m)
  unfolding match_id names IsMatched
  match_id-IsMatched (str k) entry m h id = elim (Bool-cases (occurrences batch k == 0)) [
    | inl e ↦ ground (arith, h id)
    | inr e ↦ ground (
      arith,
      h id,
      rejected-append m.rejected
          (repeat (occurrences batch k) (record { record_id = k; detail = error_code entry })) id,
      rejected-repeat (occurrences batch k) (record { record_id = k; detail = error_code entry })
          id,
    )
  ]
  match_id-IsMatched key entry m h id = h id

  match_entries-IsMatched :
      (es : Items) (m : Matched) → IsMatched m → IsMatched (match_entries batch es m)
  unfolding match_entries
  match_entries-IsMatched nil m h = h
  match_entries-IsMatched (cons e es) m h =
      match_entries-IsMatched es _ (match_id-IsMatched (get e "deduplication_id") e m h)

  match_id-names :
      (key entry : Json) (m : Matched) (later : List String) (id : String)
      → names batch id ≡ true
      → (names (match_id batch key entry m).rejected_ids id || names later id)
        ≡ (names m.rejected_ids id || names (prepend_id key later) id)
  unfolding match_id names
  match_id-names (str k) entry m later id h = elim (Bool-cases (str_eq k id)) [
    | inl e ↦
        let same = (str_eq_iff k id).0 e in
        ground
          (arith, occurrences-names batch k, ap (names batch) same, ap (names m.rejected_ids) same)
    | inr e ↦ ground (arith, occurrences-names batch k)
  ]
  match_id-names key entry m later id h = refl

  match_id-attributed :
      (key entry : Json) (m : Matched) (later : List String → Bool)
      → (((match_id batch key entry m).unattributed == 0)
          && later (match_id batch key entry m).rejected_ids)
        ≡ ((m.unattributed == 0) && is_attributed batch m.rejected_ids key later)
  unfolding match_id names
  match_id-attributed (str k) entry m later = ground (arith, occurrences-names batch k)
  match_id-attributed key entry m later = ground arith

  match_entries-names :
      (es : Items) (m : Matched) (id : String)
      → names batch id ≡ true
      → names (match_entries batch es m).rejected_ids id
        ≡ (names m.rejected_ids id || names (named_ids es) id)
  unfolding match_entries match_id named_ids names
  match_entries-names nil m id h = ground arith
  match_entries-names (cons e es) m id h =
      match_entries-names es (match_id batch (get e "deduplication_id") e m) id h
      ∙ match_id-names (get e "deduplication_id") e m (named_ids es) id h

  match_entries-attributed :
      (es : Items) (m : Matched)
      → ((match_entries batch es m).unattributed == 0)
        ≡ ((m.unattributed == 0) && all_attributed batch m.rejected_ids es)
  unfolding match_entries match_id all_attributed names
  match_entries-attributed nil m = ground arith
  match_entries-attributed (cons e es) m =
      match_entries-attributed es (match_id batch (get e "deduplication_id") e m)
      ∙ match_id-attributed (get e "deduplication_id") e m (λ seen. all_attributed batch seen es)

  filter-names :
      (p : String → Bool) (xs : List String) (id : String)
      → names (filter_by p xs) id ≡ (names xs id && p id)
  unfolding names
  filter-names p [] id = refl
  filter-names p (x ∷ xs) id = elim (Bool-cases (str_eq x id)) [
    | inl e ↦ let same = (str_eq_iff x id).0 e in ground (arith, filter-names p xs id, ap p same)
    | inr e ↦ ground (arith, filter-names p xs id)
  ]

  reported-verdict :
      (m : Matched) (id : String)
      → IsMatched m
      → names batch id ≡ true
      → verdict (reported batch m) id ≡ (
          if names m.rejected_ids id
          then ended dropped
          else if m.unattributed == 0
          then sent
          else ended unknown)
  unfolding reported names IsMatched
  reported-verdict m id h b =
      ground (arith, h id, filter-names (λ x. not (names m.rejected_ids x)) batch id)

-- The entries of a `207` settle a record of the batch: it is dropped if an entry names it; otherwise it
-- is sent if every entry names a record of the batch and no two the same, and unknown if not.
abbrev pub outcome : List String → Items → String → ItemState
outcome batch entries id =
    if names (named_ids entries) id
    then ended dropped
    else if all_attributed batch [] entries
    then sent
    else ended unknown

pub partial_failed-outcome :
    (batch : List String) (entries : Items) (id : String)
    → names batch id ≡ true
    → verdict (partial_failed batch (arr entries)) id ≡ outcome batch entries id
unfolding partial_failed names IsMatched
partial_failed-outcome batch entries id b =
    let m : Matched = record { rejected = []; rejected_ids = []; unattributed = 0 } in
    ground (
      arith,
      reported-verdict batch (match_entries batch entries m) id
          (match_entries-IsMatched batch entries m (λ id. refl)) b,
      match_entries-names batch entries m id b,
      match_entries-attributed batch entries m,
    )
