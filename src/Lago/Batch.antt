-- ===== src/Lago/Batch.antt =====
-- What `preflight` makes of a batch, and the whole of `deliver` on it.
use audr.Base.{
  ℕ, ◌+◌, ◌≡◌, refl, sym, ap, subst, ◌∙◌, Bool, true, false, not, ◌||◌, List, [], ◌∷◌, ◌++◌, map,
  Option, none, some, String, str_eq, str_eq_iff, arith, if◌then◌else◌, ◌==◌, filter_by, names,
  length, Bool-cases, All, All-append, inl, inr,
}
use audr.Base.Result.{Result, ok, error, and_then, is_blank}
use audr.Record.{AudrRecord, Instant, Json}
use audr.Pipeline.Verdict.{verdict}
use audr.Lago.Event.{LagoEvent}
use audr.Lago.Encode.{
  EventFields, create_with, create_event, build, flatten, encode, validate_properties,
  is_metric_code, format_timestamp,
}
use audr.Lago.Tally.{start, refusal}
use audr.Lago.Preflight.{
  Entry, Sorted, has_rejected, reject, entry_at, keep, sort_record, sort_batch, preflight,
}
use audr.Lago.Sink.{World, deliver, deliver_from}
use audr.Lago.Posts.{is_held}
use audr.Lago.Standing.{count, rejected_id, rejected-append}
use audr.Lago.Contract.{is_sent, deliver-verdict}

-- An encoded record keeps its identifier.
abbrev HasId : String → Result LagoEvent → Type 0
HasId id (ok e) = e.transaction_id ≡ id
HasId id (error detail) = Unit

if-HasId :
    (id : String) (b : Bool) (x y : Result LagoEvent)
    → HasId id x
    → HasId id y
    → HasId id (if b then x else y)
if-HasId id true x y hx hy = hx
if-HasId id false x y hx hy = hy

and_then-HasId :
    {A : Type 0} (id : String) (r : Result A) (f : A → Result LagoEvent)
    → ((a : A) → HasId id (f a))
    → HasId id (and_then r f)
and_then-HasId id (ok a) f h = h a
and_then-HasId id (error detail) f h = tt

build-HasId :
    (fields : EventFields) (subscription_id code timestamp : String) (failure : Option String)
    → HasId fields.transaction_id (build fields subscription_id code failure timestamp)
build-HasId fields subscription_id code timestamp none = refl
build-HasId fields subscription_id code timestamp (some message) = tt

module _ (parse_date : String → Instant) (stringify : Json → String) where
  create_with-HasId :
      (fields : EventFields) (subscription_id code : Option String)
      → HasId fields.transaction_id (create_with parse_date stringify fields subscription_id code)
  unfolding create_with
  create_with-HasId fields none code = tt
  create_with-HasId fields (some s) none =
      if-HasId _ (is_blank s) _ _ tt (if-HasId _ (is_blank fields.transaction_id) _ _ tt tt)
  create_with-HasId fields (some s) (some c) = if-HasId _ (is_blank s) _ _ tt (
      if-HasId _ (is_blank fields.transaction_id) _ _ tt (
        if-HasId _ (is_metric_code c) _ _
          (and_then-HasId _ (format_timestamp (parse_date fields.event_time)) _
            (λ t. build-HasId fields s c t (validate_properties fields.properties)))
          tt))

  encode-HasId : (r : AudrRecord) → HasId r.record_id (encode parse_date stringify r)
  unfolding encode create_event
  encode-HasId r = if-HasId r.record_id r.corrects _ _ tt (
      and_then-HasId r.record_id (flatten parse_date stringify r.body) _ (λ properties.
        let fields : EventFields = record {
          transaction_id = r.record_id;
          subscription_id = r.subscription_id;
          code = r.feature_id;
          event_time = r.event_time;
          properties = properties;
        } in
        create_with-HasId fields r.subscription_id r.feature_id))

module _ (id : String) where
  abbrev count_key : List Entry → ℕ
  count_key [] = 0
  count_key (e ∷ es) = (if str_eq e.key id then 1 else 0) + count_key es

  count_key-filter :
      (k : String) (es : List Entry)
      → count_key (filter_by (λ e. not (str_eq e.key k)) es)
        ≡ (if str_eq k id then 0 else count_key es)
  count_key-filter k [] = ground arith
  count_key-filter k (e ∷ es) = elim (Bool-cases (str_eq e.key k)) [
    | inl same ↦
        ground (arith, count_key-filter k es, ap (λ s. str_eq s id) ((str_eq_iff e.key k).0 same))
    | inr other ↦ elim (Bool-cases (str_eq k id)) [
      | inl is ↦ ground (arith, count_key-filter k es, ap (str_eq e.key) ((str_eq_iff k id).0 is))
      | inr not_ ↦ ground (arith, count_key-filter k es)
    ]
  ]

  count_key-append : (es fs : List Entry) → count_key (es ++ fs) ≡ count_key es + count_key fs
  count_key-append [] fs = omega arith
  count_key-append (e ∷ es) fs = omega (arith, count_key-append es fs)

  -- An identifier that came up is rejected, or has one event; one that did not is neither.
  record IsSorted (seen : Bool) (s : Sorted) : Type 0 where
    counted : count_key s.entries ≡ (if has_rejected s id then 0 else if seen then 1 else 0)
    rejected_seen : has_rejected s id ≡ true → seen ≡ true

  reject-IsSorted :
      (k detail : String) (seen : Bool) (s : Sorted)
      → IsSorted seen s
      → IsSorted (seen || str_eq k id) (reject k detail s)
  unfolding reject names
  reject-IsSorted k detail seen s h = elim (Bool-cases (str_eq k id)) [
    | inl e ↦
        let same = (str_eq_iff k id).0 e in
        ground (
          arith,
          h,
          count_key-filter k s.entries,
          rejected-append id s.rejected (refusal detail k ∷ []),
          ap (has_rejected s) same,
        )
    | inr e ↦ ground (
      arith,
      h,
      count_key-filter k s.entries,
      rejected-append id s.rejected (refusal detail k ∷ []),
    )
  ]

  entry_at-count :
      (es : List Entry)
      → elim (entry_at id es) [ none ↦ true | some _ ↦ false ] ≡ (count_key es == 0)
  unfolding entry_at
  entry_at-count [] = refl
  entry_at-count (e ∷ es) = ground (arith, entry_at-count es)

  -- The record of another identifier changes nothing; that of this one is kept if it is the first.
  keep-IsSorted :
      (o : Option Entry) (k : String) (event : LagoEvent) (body : String) (seen : Bool) (s : Sorted)
      → (str_eq k id ≡ true
          → (has_rejected s id ≡ false)
            × (elim o [ none ↦ true | some _ ↦ false ] ≡ (count_key s.entries == 0)))
      → IsSorted seen s
      → IsSorted (seen || str_eq k id) (keep o k event body s)
  unfolding keep
  keep-IsSorted none k event body seen s first h =
      ground
        (arith, h, count_key-append s.entries (record { key = k; event = event; body = body } ∷ []))
  keep-IsSorted (some earlier) k event body seen s first h =
      elim (Bool-cases (str_eq earlier.body body)) [
        | inl e ↦ rw e (record { counted = ground (arith, h); rejected_seen = ground (arith, h) })
        | inr e ↦ rw e (reject-IsSorted k "duplicate_record_id" seen s h)
      ]

  sort_record-IsSorted :
      (encode_ : AudrRecord → Result LagoEvent) (stringify : LagoEvent → String) (k : String)
      (x : Result LagoEvent) (seen : Bool) (s : Sorted)
      → IsSorted seen s
      → IsSorted (seen || str_eq k id) (sort_record encode_ stringify k x s)
  unfolding sort_record
  sort_record-IsSorted encode_ stringify k (error detail) seen s h =
      reject-IsSorted k detail seen s h
  sort_record-IsSorted encode_ stringify k (ok event) seen s h =
      elim (Bool-cases (has_rejected s k)) [
        | inl e ↦ rw e (record {
          counted = elim (Bool-cases (str_eq k id)) [
            | inl same ↦ ground (arith, h, ap (has_rejected s) ((str_eq_iff k id).0 same))
            | inr other ↦ ground (arith, h)
          ];
          rejected_seen = ground (arith, h);
        })
        | inr e ↦ rw e (
            keep-IsSorted (entry_at k s.entries) k event (stringify event) seen s
              (λ same.
                let is = (str_eq_iff k id).0 same in
                (
                  sym (ap (has_rejected s) is) ∙ e,
                  ap (λ j. elim (entry_at j s.entries) [ none ↦ true | some _ ↦ false ]) is
                      ∙ entry_at-count s.entries,
                ))
              h)
      ]

IsKeyed : Entry → Type 0
IsKeyed e = e.event.transaction_id ≡ e.key

All-filter {κ} :
    {A : Type 0} (P : A → Type κ) (p : A → Bool) (xs : List A) → All P xs → All P (filter_by p xs)
All-filter P p [] h = tt
All-filter P p (x ∷ xs) h = elim (Bool-cases (p x)) [
  | inl e ↦ rw e (h.0, All-filter P p xs h.1)
  | inr e ↦ rw e (All-filter P p xs h.1)
]

keep-IsKeyed :
    (o : Option Entry) (id : String) (event : LagoEvent) (body : String) (s : Sorted)
    → event.transaction_id ≡ id
    → All IsKeyed s.entries
    → All IsKeyed (keep o id event body s).entries
unfolding keep reject IsKeyed
keep-IsKeyed none id event body s e h = All-append IsKeyed s.entries _ h (e, tt)
keep-IsKeyed (some earlier) id event body s e h = elim (Bool-cases (str_eq earlier.body body)) [
  | inl same ↦ rw same h
  | inr other ↦ rw other (All-filter IsKeyed _ s.entries h)
]

or_assoc : (a b c : Bool) → ((a || b) || c) ≡ (a || (b || c))
or_assoc a b c = ground arith

module _ (encode_ : AudrRecord → Result LagoEvent) (stringify : LagoEvent → String)
    (keeps_id : (r : AudrRecord) → HasId r.record_id (encode_ r)) where
  sort_record-IsKeyed :
      (id : String) (x : Result LagoEvent) (s : Sorted)
      → HasId id x
      → All IsKeyed s.entries
      → All IsKeyed (sort_record encode_ stringify id x s).entries
  unfolding sort_record reject
  sort_record-IsKeyed id (error detail) s e h = All-filter IsKeyed _ s.entries h
  sort_record-IsKeyed id (ok event) s e h = elim (Bool-cases (has_rejected s id)) [
    | inl r ↦ rw r h
    | inr r ↦ rw r (keep-IsKeyed (entry_at id s.entries) id event (stringify event) s e h)
  ]

  sort_batch-IsKeyed :
      (rs : List AudrRecord) (s : Sorted)
      → All IsKeyed s.entries
      → All IsKeyed (sort_batch encode_ stringify rs s).entries
  unfolding sort_batch
  sort_batch-IsKeyed [] s h = h
  sort_batch-IsKeyed (r ∷ rs) s h =
      sort_batch-IsKeyed rs _ (sort_record-IsKeyed r.record_id (encode_ r) s (keeps_id r) h)

  sort_batch-IsSorted :
      (id : String) (rs : List AudrRecord) (seen : Bool) (s : Sorted)
      → IsSorted id seen s
      → IsSorted id
          (seen || names (map (λ r. r.record_id) rs) id)
          (sort_batch encode_ stringify rs s)
  unfolding sort_batch names
  sort_batch-IsSorted id [] seen s h = subst (λ b. IsSorted id b s) (ground arith) h
  sort_batch-IsSorted id (r ∷ rs) seen s h =
      subst
        (λ b. IsSorted id b (
          sort_batch encode_ stringify rs
            (sort_record encode_ stringify r.record_id (encode_ r) s)))
        (or_assoc seen (str_eq r.record_id id) (names (map (λ r. r.record_id) rs) id))
        (sort_batch-IsSorted id rs _ _
          (sort_record-IsSorted id encode_ stringify r.record_id (encode_ r) seen s h))

  count-keys :
      (id : String) (es : List Entry)
      → All IsKeyed es
      → count id (map (λ e. e.event) es) ≡ count_key id es
  unfolding count IsKeyed
  count-keys id [] h = refl
  count-keys id (e ∷ es) h = ground (arith, count-keys id es h.1, ap (λ s. str_eq s id) h.0)

-- An identifier of the batch has exactly one event, or is rejected and has none; one that is not in the
-- batch has no event.
pub preflight-count :
    (parse_date : String → Instant) (stringify : Json → String)
    (stringify_event : LagoEvent → String) (batch : List AudrRecord) (id : String)
    → let sorted = preflight (encode parse_date stringify) stringify_event batch in
      count id sorted.0 ≡ (
        if rejected_id id sorted.1
        then 0
        else if names (map (λ r. r.record_id) batch) id
        then 1
        else 0)
unfolding preflight names
preflight-count parse_date stringify stringify_event batch id =
    let encode_ = encode parse_date stringify in
    let s : Sorted = record { entries = []; rejected = [] } in
    count-keys encode_ stringify_event (encode-HasId parse_date stringify) id _
      (sort_batch-IsKeyed encode_ stringify_event (encode-HasId parse_date stringify) batch s tt)
    ∙ (sort_batch-IsSorted encode_ stringify_event (encode-HasId parse_date stringify) id batch
        false s (record { counted = refl; rejected_seen = λ h. h })).counted

-- The whole of `deliver`, of a batch as the pipeline hands it over, duplicates and records that cannot be
-- encoded included. A record of the batch that `preflight` does not reject is counted as sent if a request with its
-- event was answered `200`, or if a `422` that could still be acted on, and that did not speak of too many events,
-- named the event as a duplicate and did not refuse it; and only then.
pub deliver-batch :
    (world : World) (parse_date : String → Instant) (stringify : Json → String)
    (stringify_event : LagoEvent → String) (batch : List AudrRecord) (id : String)
    → names (map (λ r. r.record_id) batch) id ≡ true
    → rejected_id id (preflight (encode parse_date stringify) stringify_event batch).1 ≡ false
    → let sorted = preflight (encode parse_date stringify) stringify_event batch in
      is_sent (verdict (deliver world false sorted.0 sorted.1) id)
      ≡ is_held id (deliver_from world (length sorted.0) sorted.0 (start sorted.0 sorted.1) []).1
deliver-batch world parse_date stringify stringify_event batch id member free =
    let sorted = preflight (encode parse_date stringify) stringify_event batch in
    deliver-verdict world sorted.0 sorted.1 id
      (ground (arith, preflight-count parse_date stringify stringify_event batch id)) free
