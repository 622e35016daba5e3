-- ===== src/Chargebee/Sending.antt =====
-- The requests of the Chargebee sink, and what `deliver` makes of their last answer.
use audr.Base.{
  ℕ, zero, suc, ◌+◌, ◌-◌, ◌≤◌, ◌<◌, ◌≡◌, refl, sym, ap, ◌∙◌, Bool, true, false, ◌||◌, List, [], ◌∷◌,
  map, Option, none, some, String, str_eq, arith, if◌then◌else◌, ◌==◌, subst, ◌⊎◌, inl, inr, names,
  Bool-cases,
}
use audr.Base.Result.{Result, ok, error, and_then}
use audr.Record.{AudrRecord, RejectedRecord, BatchResult, accepted, dropped, failed}
use audr.Pipeline.State.{ended}
use audr.Pipeline.Verdict.{verdict}
use audr.Chargebee.Event.{UsageEvent, validate_event, failure, thrown}
use audr.Chargebee.Flatten.{flatten}
use audr.Chargebee.Sink.{
  World, ids, Attempt, done, retry, attempt, send, send_from, encode, encode_for, encode_by,
  encode_batch, collect, finish, deliver, with_rejected,
}
use audr.Chargebee.Contract.{rejected_id, rejected-append}

abbrev pub is_retry : Attempt → Bool
is_retry (retry _) = true
is_retry (done _) = false

-- What an attempt comes to when no other follows.
abbrev pub at_last : Attempt → BatchResult
at_last (done r) = r
at_last (retry detail) = failed true (some detail)

module _ (world : World) (events : List UsageEvent) where
  abbrev pub attempt_at : ℕ → Attempt
  attempt_at n = attempt events (world.reply n)

  -- From request `n` on, with at most `left` requests after it.
  pub record IsLast (left n : ℕ) (s : BatchResult × ℕ) : Type 0 where
    pub some_request : n < s.1
    pub bound : s.1 ≤ n + left + 1
    pub result : s.0 ≡ at_last (attempt_at (s.1 - 1))
    pub earlier : (i : ℕ) → n ≤ i → i + 1 < s.1 → is_retry (attempt_at i) ≡ true
    pub exhausted : is_retry (attempt_at (s.1 - 1)) ≡ true → s.1 ≡ n + left + 1

  Attempt-cases :
      (a : Attempt) → ((r : BatchResult) × (a ≡ done r)) ⊎ ((d : String) × (a ≡ retry d))
  Attempt-cases (done r) = inl (r, refl)
  Attempt-cases (retry d) = inr (d, refl)

  later-IsLast :
      (left n : ℕ) (s : BatchResult × ℕ)
      → is_retry (attempt_at n) ≡ true
      → IsLast left (n + 1) s
      → IsLast (suc left) n s
  later-IsLast left n s h l = record {
    some_request = omega (arith, l.some_request);
    bound = omega (arith, l.bound);
    result = l.result;
    earlier = λ i from before. elim (Bool-cases (i == n)) [
      | inl e ↦ subst (λ j. is_retry (attempt_at j) ≡ true) (ground arith) h
      | inr e ↦ l.earlier i (ground arith) before
    ];
    exhausted = λ r. omega (arith, l.exhausted r);
  }

  send_from-IsLast : (left n : ℕ) → IsLast left n (send_from world events left n)
  unfolding send_from
  send_from-IsLast zero n = elim (Attempt-cases (attempt_at n)) [
    | inl (r, e) ↦ ground arith
    | inr (d, e) ↦ ground arith
  ]
  send_from-IsLast (suc left) n = elim (Attempt-cases (attempt_at n)) [
    | inl (r, e) ↦ ground arith
    | inr (d, e) ↦
        rw (e, send_from) (later-IsLast left n _ (ground arith) (send_from-IsLast left (n + 1)))
  ]

-- How many requests `#send` makes, and which of them its result is about: it makes one at least and
-- `max_attempts` at most, each but the last came to a failure that a retry may mend, the result is what
-- the last came to, and if that too is such a failure then there were as many requests as allowed.
pub send-IsLast :
    (world : World) (events : List UsageEvent)
    → IsLast world events (world.max_attempts - 1) 0 (send world events)
unfolding send
send-IsLast world events = send_from-IsLast world events (world.max_attempts - 1) 0

abbrev pub OnOk {ℓ} : {A : Type 0} → (A → Type ℓ) → Result A → Type ℓ
OnOk P (ok a) = P a
OnOk P (error message) = Unit

pub and_then-OnOk :
    {A B : Type 0} (P : B → Type 0) (r : Result A) (f : A → Result B)
    → ((a : A) → OnOk P (f a))
    → OnOk P (and_then r f)
and_then-OnOk P (ok a) f h = h a
and_then-OnOk P (error message) f h = tt

thrown-OnOk :
    (P : UsageEvent → Type 0) (event : UsageEvent) (failure : Option String)
    → (failure ≡ none → P event)
    → OnOk P (thrown event failure)
thrown-OnOk P event none h = h refl
thrown-OnOk P event (some message) h = tt

pub validate_event-OnOk :
    (P : UsageEvent → Type 0) (event : UsageEvent)
    → (failure event ≡ none → P event)
    → OnOk P (validate_event event)
unfolding validate_event
validate_event-OnOk P event h = thrown-OnOk P event (failure event) h

pub encode-OnOk :
    (P : UsageEvent → Type 0) (world : World) (r : AudrRecord)
    → ((e : UsageEvent) → e.deduplication_id ≡ r.record_id → failure e ≡ none → P e)
    → OnOk P (encode world r)
unfolding encode encode_by encode_for
encode-OnOk P world r h = go r.subscription_id
  where
    go : (s : Option String) → OnOk P (encode_by world r s)
    go none = tt
    go (some s) = elim (Bool-cases (str_eq s "")) [
      | inl e ↦ rw e tt
      | inr e ↦ rw e (
          and_then-OnOk P (flatten world.stringify world.separator r.body) _ (λ properties.
            let event : UsageEvent = record {
              subscription_id = s;
              usage_timestamp = world.parse_date r.event_time;
              deduplication_id = r.record_id;
              properties = properties;
            } in
            validate_event-OnOk P event (h event refl)))
    ]

-- Every record is an event that is sent or is rejected before anything is.
encode_batch-names :
    (world : World) (batch : List AudrRecord) (id : String)
    → names (map (λ r. r.record_id) batch) id ≡ (
        rejected_id (encode_batch world batch).rejected id
        || names (ids (encode_batch world batch).events) id)
unfolding encode_batch names collect
encode_batch-names world [] id = refl
encode_batch-names world (r ∷ rs) id =
    ap (λ b. str_eq r.record_id id || b) (encode_batch-names world rs id)
    ∙ collect-names (encode world r)
        (encode-OnOk (λ e. e.deduplication_id ≡ r.record_id) world r (λ e same valid. same))
  where
    collect-names :
        (x : Result UsageEvent)
        → OnOk (λ e. e.deduplication_id ≡ r.record_id) x
        → (str_eq r.record_id id
            || (rejected_id (encode_batch world rs).rejected id
                || names (ids (encode_batch world rs).events) id))
          ≡ (rejected_id (collect r x (encode_batch world rs)).rejected id
              || names (ids (collect r x (encode_batch world rs)).events) id)
    collect-names (ok e) same = ground (arith, ap (λ s. str_eq s id) same)
    collect-names (error message) same = ground arith

with_rejected-verdict :
    (rs : List RejectedRecord) (r : BatchResult) (id : String)
    → verdict (with_rejected rs r) id ≡ (if rejected_id rs id then ended dropped else verdict r id)
with_rejected-verdict rs (accepted more us) id = ground (arith, rejected-append rs more id)
with_rejected-verdict rs r id = ground arith

finish-verdict :
    (world : World) (events : List UsageEvent) (rejected : List RejectedRecord) (id : String)
    → (rejected_id rejected id || names (ids events) id) ≡ true
    → verdict (finish world (record { events = events; rejected = rejected })) id
      ≡ (if rejected_id rejected id then ended dropped else verdict (send world events).0 id)
unfolding finish names
finish-verdict world [] rejected id member = ground arith
finish-verdict world (e ∷ es) rejected id member =
    with_rejected-verdict rejected (send world (e ∷ es)).0 id

-- Take an identifier of the batch. The pipeline counts its record as dropped if it was rejected before anything was
-- sent, and else by what the last request came to.
pub deliver-outcome :
    (world : World) (batch : List AudrRecord) (id : String)
    → names (map (λ r. r.record_id) batch) id ≡ true
    → let encoded = encode_batch world batch in
      let n = (send world encoded.events).1 in
      verdict (deliver world false batch) id ≡ (
        if rejected_id encoded.rejected id
        then ended dropped
        else verdict (at_last (attempt encoded.events (world.reply (n - 1)))) id)
unfolding deliver
deliver-outcome world batch id member =
    let encoded = encode_batch world batch in
    finish-verdict world encoded.events encoded.rejected id
      (sym (encode_batch-names world batch id) ∙ member)
    ∙ ap (λ r. if rejected_id encoded.rejected id then ended dropped else verdict r id)
        (send-IsLast world encoded.events).result
