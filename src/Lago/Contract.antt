-- ===== src/Lago/Contract.antt =====
-- What the sink reports of a record, against what the answers of Lago say of it.
use audr.Base.{
  ℕ, zero, suc, ◌≡◌, refl, sym, ap, subst, ◌∙◌, ◌⊎◌, inl, inr, Bool, true, false, not, ◌&&◌, ◌||◌,
  List, [], ◌∷◌, Option, none, some, String, str_eq, str_eq_iff, arith, length, take, drop,
  is_empty, names, filter_by, take-append-drop, Bool-cases,
}
use audr.Record.{RejectedRecord}
use audr.Pipeline.State.{ItemState, sent}
use audr.Pipeline.Verdict.{verdict}
use audr.Lago.Event.{LagoEvent}
use audr.Lago.Tally.{Stop, Tally, ids, start, halt, stopped, is_set, unresolved, result_of, result}
use audr.Lago.Sink.{
  World, Post, Sent, deliver_from, deliver, halt_by, max_salvage_passes, max_events_per_request,
}
use audr.Lago.Posts.{is_held, deliver_from-Agrees}
use audr.Lago.Standing.{
  count, count-append, rejected_id, rejected-append, names-count, IsClean, Waits, Delivers,
  deliver_chunk-Delivers,
}

abbrev pub is_sent : ItemState → Bool
is_sent sent = true
is_sent _ = false

module _ (id : String) where
  -- Between two requests.
  record Between (t : Tally) (n : ℕ) : Type 0 where
    clean : IsClean id t
    waits : Waits id t n
    refusing : (stopped t ≡ true) ⊎ (rejected_id id t.refused ≡ false)

  Delivers→Between : (s : Sent) (m : ℕ) → Delivers id s m → Between (halt_by s.halted s.tally) m
  unfolding halt
  Delivers→Between s m d = go s.halted refl
    where
      go : (h : Option Stop) → s.halted ≡ h → Between (halt_by h s.tally) m
      go none e = ground arith
      go (some x) e = record {
        clean = ground arith;
        waits = ground arith;
        refusing = inl (ground arith);
      }

  Waits-none : {t : Tally} (n : ℕ) → Waits id t n → Waits id t 0
  Waits-none n w = record { once = omega arith; pending = λ h. absurd (omega arith) }

  deliver_from-Between :
      (world : World) (fuel : ℕ) (es : List LagoEvent) (t : Tally) (n : List Post)
      → Between t (count id es)
      → Between (deliver_from world fuel es t n).0 0
  unfolding deliver_from
  deliver_from-Between world zero es t n b = record {
    clean = b.clean;
    waits = Waits-none (count id es) b.waits;
    refusing = b.refusing;
  }
  deliver_from-Between world (suc fuel) es t n b = elim (Bool-cases (is_empty es || stopped t)) [
    | inl over ↦ rw over (record {
      clean = b.clean;
      waits = Waits-none (count id es) b.waits;
      refusing = b.refusing;
    })
    | inr more ↦
        let k = max_events_per_request in
        let split = ap (count id) (take-append-drop k es) in
        let w =
          subst (λ c. Waits id t c) (sym split ∙ count-append id (take k es) (drop k es)) b.waits in
        let d =
          deliver_chunk-Delivers id world max_salvage_passes (take k es) t n (count id (drop k es))
            b.clean (ground arith) w in
        rw more (deliver_from-Between world fuel (drop k es) _ _ (Delivers→Between _ _ d))
  ]

  names-filter :
      (p : String → Bool) (xs : List String) → names (filter_by p xs) id ≡ (names xs id && p id)
  unfolding names
  names-filter p [] = refl
  names-filter p (x ∷ xs) = elim (Bool-cases (str_eq x id)) [
    | inl e ↦ let same = (str_eq_iff x id).0 e in ground (arith, names-filter p xs, ap p same)
    | inr e ↦ ground (arith, names-filter p xs)
  ]

  result-verdict :
      (s : Option Stop) (t : Tally)
      → IsClean id t
      → (is_set s ≡ true) ⊎ (rejected_id id t.refused ≡ false)
      → is_sent (verdict (result_of s t) id) ≡ names t.taken id
  unfolding result_of unresolved
  result-verdict none t c f =
      ground (arith, names-filter (λ x. not (names t.settled x)) (ids t.events))
  result-verdict (some (Stop.failed retryable detail)) t c f = ground (
    arith,
    names-filter (λ x. not (names t.settled x)) (ids t.events),
    rejected-append id t.rejected t.refused,
  )
  result-verdict (some s) t c f = ground (
    arith,
    names-filter (λ x. not (names t.settled x)) (ids t.events),
    rejected-append id t.rejected t.refused,
  )

  start-Between :
      (events : List LagoEvent) (rejected : List RejectedRecord)
      → count id events ≡ 1
      → rejected_id id rejected ≡ false
      → Between (start events rejected) (count id events)
  unfolding start names
  start-Between events rejected one apart = ground (arith, names-count id events)

-- Take an identifier that exactly one event of the batch has, and no record that was rejected before
-- anything was sent. Whatever the network answers, however often requests are retried, salvaged or interrupted:
-- the pipeline counts the record as sent if a request with the event was answered `200`, or if a `422` that could
-- still be acted on, and that did not speak of too many events, named the event as a duplicate and did not
-- refuse it; and only then.
pub deliver-verdict :
    (world : World) (events : List LagoEvent) (rejected : List RejectedRecord) (id : String)
    → count id events ≡ 1
    → rejected_id id rejected ≡ false
    → is_sent (verdict (deliver world false events rejected) id)
      ≡ is_held id (deliver_from world (length events) events (start events rejected) []).1
unfolding deliver result start names is_held
deliver-verdict world events rejected id one apart =
    let b =
      deliver_from-Between id world (length events) events (start events rejected) []
        (start-Between id events rejected one apart) in
    result-verdict id _ _ b.clean b.refusing
    ∙ deliver_from-Agrees id world (length events) events (start events rejected) [] refl
