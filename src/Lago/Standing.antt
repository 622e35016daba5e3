-- ===== src/Lago/Standing.antt =====
-- What a tally says of one identifier, and that each step of the sink keeps it consistent.
use audr.Base.{
  ℕ, zero, suc, ◌+◌, ◌≤◌, ◌<◌, ◌≡◌, refl, ◌∙◌, subst, ◌⊎◌, inl, inr, Bool, true, false, ◌||◌, List,
  [], ◌∷◌, ◌++◌, map, Option, none, some, String, str_eq, arith, ltb, if◌then◌else◌, length, names,
  names-append,
}
use audr.Record.{Json, RejectedRecord}
use audr.Lago.Event.{LagoEvent}
use audr.Lago.Tally.{Stop, Tally, ids, confirm, reject, refuse, refusal, is_set}
use audr.Lago.Response.{ValidationVerdict, parse_validation_errors}
use audr.Lago.Sink.{
  World, Post, Exchange, accepted, invalid, stop, Sent, settle_event, salvage, act_on, on_invalid,
  on_exchange, exchange, deliver_chunk, refusal_at, mentions,
}

module _ (id : String) where
  -- How many of the events carry the identifier.
  unfoldable pub count : List LagoEvent → ℕ
  count [] = 0
  count (e ∷ es) = (if str_eq e.transaction_id id then 1 else 0) + count es

  abbrev pub rejected_id : List RejectedRecord → Bool
  rejected_id rs = names (map (λ r. r.record_id) rs) id

  pub names-count : (es : List LagoEvent) → names (ids es) id ≡ ltb 0 (count es)
  unfolding names count
  names-count [] = refl
  names-count (e ∷ es) = ground (arith, names-count es)

  pub count-append : (xs ys : List LagoEvent) → count (xs ++ ys) ≡ count xs + count ys
  unfolding count
  count-append [] ys = omega arith
  count-append (x ∷ xs) ys = omega (arith, count-append xs ys)

  rejected-refusals :
      (detail : String) (es : List LagoEvent)
      → rejected_id (map (refusal detail) (ids es)) ≡ ltb 0 (count es)
  unfolding names count
  rejected-refusals detail [] = refl
  rejected-refusals detail (e ∷ es) = ground (arith, rejected-refusals detail es)

  pub rejected-append :
      (xs ys : List RejectedRecord) → rejected_id (xs ++ ys) ≡ (rejected_id xs || rejected_id ys)
  unfolding names
  rejected-append [] ys = refl
  rejected-append (x ∷ xs) ys = ground (arith, rejected-append xs ys)

  -- An event has the identifier, and it is settled if it is one of confirmed, rejected and refused,
  -- which exclude one another.
  pub record IsClean (t : Tally) : Type 0 where
    pub settled :
        names t.settled id ≡ (names t.taken id || rejected_id t.refused || rejected_id t.rejected)
    pub apart :
        names t.taken id ≡ true → (rejected_id t.rejected ≡ false) × (rejected_id t.refused ≡ false)
    pub refused_once : rejected_id t.refused ≡ true → rejected_id t.rejected ≡ false
    pub member : names (ids t.events) id ≡ true
    pub confirmed : names t.taken id ≡ true → 0 < t.confirmed

  -- Of `n` events that are still to be settled at most one has the identifier, and none if it is settled.
  pub record Waits (t : Tally) (n : ℕ) : Type 0 where
    pub once : n ≤ 1
    pub pending : 0 < n → names t.settled id ≡ false

  pub record Keeps (t : Tally) (n : ℕ) : Type 0 where
    pub clean : IsClean t
    pub waits : Waits t n

  count-le-length : (es : List LagoEvent) → count es ≤ length es
  unfolding count
  count-le-length [] = omega arith
  count-le-length (e ∷ es) = ground (arith, count-le-length es)

  names-one : (s : String) → names (s ∷ []) id ≡ str_eq s id
  unfolding names
  names-one s = ground arith

  pub confirm-Keeps :
      (t : Tally) (es : List LagoEvent) (m : ℕ)
      → IsClean t
      → Waits t (count es + m)
      → Keeps (confirm t es) m
  unfolding confirm
  confirm-Keeps t es m c w = ground (
    arith,
    names-append t.settled (ids es) id,
    names-append t.taken (ids es) id,
    names-count es,
    count-le-length es,
  )

  Waits-cast : {t : Tally} {n m : ℕ} → Waits t n → n ≡ m → Waits t m
  Waits-cast {t} w e = subst (Waits t) e w

  Keeps-cast : {t : Tally} {n m : ℕ} → Keeps t n → n ≡ m → Keeps t m
  Keeps-cast {t} w e = subst (Keeps t) e w

  count-cons :
      (e : LagoEvent) (es : List LagoEvent) (m : ℕ)
      → count (e ∷ es) + m ≡ count (e ∷ []) + (count es + m)
  unfolding count
  count-cons e es m = omega arith

  reject-Keeps :
      (t : Tally) (e : LagoEvent) (detail : String) (m : ℕ)
      → IsClean t
      → Waits t (count (e ∷ []) + m)
      → Keeps (reject t e.transaction_id detail) m
  unfolding reject count
  reject-Keeps t e detail m c w = ground (
    arith,
    names-append t.settled (e.transaction_id ∷ []) id,
    rejected-append t.rejected (refusal detail e.transaction_id ∷ []),
    names-one e.transaction_id,
  )

  pub refuse-Keeps :
      (t : Tally) (es : List LagoEvent) (detail : String) (m : ℕ)
      → IsClean t
      → Waits t (count es + m)
      → Keeps (refuse t es detail) m
  unfolding refuse
  refuse-Keeps t es detail m c w = ground (
    arith,
    names-append t.settled (ids es) id,
    rejected-append t.refused (map (refusal detail) (ids es)),
    rejected-refusals detail es,
    names-count es,
  )

  settle_event-Keeps :
      (refusal : Option String) (is_duplicate : Bool) (t : Tally) (e : LagoEvent) (m : ℕ)
      → IsClean t
      → Waits t (count (e ∷ []) + m)
      → Keeps
          (settle_event refusal is_duplicate e t).0
          (count (settle_event refusal is_duplicate e t).1 + m)
  unfolding settle_event
  settle_event-Keeps (some detail) d t e m c w =
      Keeps-cast (reject-Keeps t e detail m c w) (unfold count in omega arith)
  settle_event-Keeps none true t e m c w =
      Keeps-cast (confirm-Keeps t (e ∷ []) m c w) (unfold count in omega arith)
  settle_event-Keeps none false t e m c w = record { clean = c; waits = w }

  salvage-Keeps :
      (v : ValidationVerdict) (i : ℕ) (es : List LagoEvent) (t : Tally) (m : ℕ)
      → IsClean t
      → Waits t (count es + m)
      → Keeps (salvage v i es t).0 (count (salvage v i es t).1 + m)
  unfolding salvage
  salvage-Keeps v i [] t m c w = record { clean = c; waits = w }
  salvage-Keeps v i (e ∷ es) t m c w =
      let here =
        settle_event-Keeps (refusal_at v.invalid i) (mentions v.duplicates i) t e (count es + m) c
          (Waits-cast w (count-cons e es m)) in
      let (t', kept) = settle_event (refusal_at v.invalid i) (mentions v.duplicates i) e t in
      let (t'', survivors) = salvage v (suc i) es t' in
      let there =
        salvage-Keeps v (suc i) es t' (count kept + m) here.clean
          (Waits-cast here.waits (omega arith)) in
      Keeps-cast there (omega (arith, count-append kept survivors))

  -- What a chunk's function has to do: keep the tally clean, whatever events come later.
  pub record Delivers (s : Sent) (m : ℕ) : Type 0 where
    pub keeps : Keeps s.tally m
    pub refusing : (is_set s.halted ≡ true) ⊎ (rejected_id s.tally.refused ≡ false)

  abbrev IsDelivering : (List LagoEvent → Tally → List Post → Sent) → Type 0
  IsDelivering f =
      (es : List LagoEvent) (t : Tally) (n : List Post) (m : ℕ)
      → IsClean t
      → rejected_id t.refused ≡ false
      → Waits t (count es + m)
      → Delivers (f es t n) m

  abbrev MayDeliver : Option (List LagoEvent → Tally → List Post → Sent) → Type 0
  MayDeliver none = Unit
  MayDeliver (some f) = IsDelivering f

  Waits-less : {t : Tally} (n : ℕ) {m : ℕ} → Waits t (n + m) → Waits t m
  Waits-less n w = record { once = omega (arith, w.once); pending = λ h. w.pending (omega arith) }

  settle_event-refused :
      (refusal : Option String) (is_duplicate : Bool) (e : LagoEvent) (t : Tally)
      → (settle_event refusal is_duplicate e t).0.refused ≡ t.refused
  unfolding settle_event reject confirm
  settle_event-refused (some detail) d e t = refl
  settle_event-refused none true e t = refl
  settle_event-refused none false e t = refl

  salvage-refused :
      (v : ValidationVerdict) (i : ℕ) (es : List LagoEvent) (t : Tally)
      → (salvage v i es t).0.refused ≡ t.refused
  unfolding salvage
  salvage-refused v i [] t = refl
  salvage-refused v i (e ∷ es) t =
      salvage-refused v (suc i) es
        (settle_event (refusal_at v.invalid i) (mentions v.duplicates i) e t).0
      ∙ settle_event-refused (refusal_at v.invalid i) (mentions v.duplicates i) e t

  act_on-Delivers :
      (again : List LagoEvent → Tally → List Post → Sent) (h : IsDelivering again)
      (v : Option ValidationVerdict)
      → IsDelivering (act_on again v)
  unfolding act_on
  act_on-Delivers again h none es t n m c f w = record {
    keeps = refuse-Keeps t es "http_422" m c w;
    refusing = inl refl;
  }
  act_on-Delivers again h (some v) es t n m c f w =
      let k = salvage-Keeps v 0 es t m c w in
      h (salvage v 0 es t).1 (salvage v 0 es t).0 n m k.clean (rw (salvage-refused v 0 es t) f)
        k.waits

  on_invalid-Delivers :
      (resend : Option (List LagoEvent → Tally → List Post → Sent)) (h : MayDeliver resend)
      (body : Json)
      → IsDelivering (on_invalid resend body)
  unfolding on_invalid
  on_invalid-Delivers none h body es t n m c f w =
      ground (arith, refuse-Keeps t es "too_many_events" m c w, Waits-less (count es) w)
  on_invalid-Delivers (some again) h body es t n m c f w = ground (
    arith,
    refuse-Keeps t es "too_many_events" m c w,
    act_on-Delivers again h (parse_validation_errors body (length es)) es t n m c f w,
  )

  stopped-Delivers :
      (s : Stop) (es : List LagoEvent) (t : Tally) (n : List Post) (m : ℕ)
      → IsClean t
      → Waits t (count es + m)
      → Delivers (record { halted = some s; tally = t; posts = n }) m
  stopped-Delivers s es t n m c w = record {
    keeps = record { clean = c; waits = Waits-less (count es) w };
    refusing = inl refl;
  }

  on_exchange-Delivers :
      (resend : Option (List LagoEvent → Tally → List Post → Sent)) (h : MayDeliver resend)
      (x : Exchange)
      → IsDelivering (on_exchange resend x)
  unfolding on_exchange
  on_exchange-Delivers resend h accepted es t n m c f w = record {
    keeps = confirm-Keeps t es m c w;
    refusing = inr (unfold confirm in f);
  }
  on_exchange-Delivers resend h (invalid body) es t n m c f w =
      on_invalid-Delivers resend h body es t n m c f w
  on_exchange-Delivers resend h (stop (Stop.failed false detail)) es t n m c f w = record {
    keeps = refuse-Keeps t es detail m c w;
    refusing = inl refl;
  }
  on_exchange-Delivers resend h (stop (Stop.failed true detail)) es t n m c f w =
      stopped-Delivers _ es t n m c w
  on_exchange-Delivers resend h (stop Stop.closed) es t n m c f w = stopped-Delivers _ es t n m c w
  on_exchange-Delivers resend h (stop Stop.aborted) es t n m c f w = stopped-Delivers _ es t n m c w
  on_exchange-Delivers resend h (stop Stop.unconfirmed) es t n m c f w =
      stopped-Delivers _ es t n m c w

  -- The events of one request are settled, or waited for no longer.
  pub deliver_chunk-Delivers : (world : World) (left : ℕ) → IsDelivering (deliver_chunk world left)
  unfolding deliver_chunk count
  deliver_chunk-Delivers world left [] t n m c f w = record {
    keeps = record { clean = c; waits = Waits-less 0 w };
    refusing = inr f;
  }
  deliver_chunk-Delivers world zero (e ∷ es) t n m c f w =
      let (x, n') = exchange world false (e ∷ es) n in
      on_exchange-Delivers none tt x (e ∷ es) t n' m c f w
  deliver_chunk-Delivers world (suc left) (e ∷ es) t n m c f w =
      let (x, n') = exchange world true (e ∷ es) n in
      on_exchange-Delivers (some (deliver_chunk world left)) (deliver_chunk-Delivers world left) x
        (e ∷ es) t n' m c f w
