-- ===== src/Pipeline/Verdict.antt =====
-- What `#apply` makes of each record of a batch.
use audr.Base.{
  names, ◌≡◌, refl, ap₂, ◌∙◌, Bool, true, false, List, [], ◌∷◌, map, Option, none, some, String,
  arith, if◌then◌else◌,
}
use audr.Record.{
  dropped, unknown, FailureReason, RejectedRecord, BatchResult, accepted, retryable_failure,
  permanent_failure, closed, sink_failure, sink_closed,
}
use audr.Pipeline.State.{InFlight, ItemState, in_flight, sent, ended, Pipeline}
use audr.Pipeline.Deliver.{
  mark_sent, fail, each_item, settle_item, update_items, apply_accepted, apply, rejection,
}
use audr.Pipeline.Frame.{notify_delivered-Moved, apply_accepted-Settles}
use audr.Pipeline.Settling.{update_items-Busy, IsDelivering, IsDelivering→Busy}

-- The terminal state that an answer gives the record of an identifier. In an accepted batch, being
-- named `rejected` goes before being named `unknown`, and a record that is not named was delivered.
abbrev pub verdict : BatchResult → String → ItemState
verdict (accepted rejected_ unknown_) id =
    if names (map (λ r. r.record_id) rejected_) id
    then ended dropped
    else if names unknown_ id
    then ended unknown
    else sent
verdict _ id = ended dropped

-- A record that has an outcome already keeps it.
abbrev settled : ItemState → ItemState → ItemState
settled in_flight new = new
settled old new = old

abbrev pub judged : BatchResult → InFlight → InFlight
judged r i = record i { state = settled i.state (verdict r i.item.record_id) }

rejection-names :
    (rs : List RejectedRecord) (id : String)
    → names (map (λ r. r.record_id) rs) id ≡ elim (rejection id rs) [ none ↦ false | some _ ↦ true ]
unfolding rejection names
rejection-names [] id = refl
rejection-names (r ∷ rs) id = ground (arith, rejection-names rs id)

apply_accepted-judged :
    (rs : List RejectedRecord) (us : List String) (p : Pipeline) (i : InFlight)
    → (apply_accepted rs us p i).1 ≡ judged (accepted rs us) i
unfolding apply_accepted settle_item mark_sent fail
apply_accepted-judged rs us p i = ground (arith, rejection-names rs i.item.record_id)

fail-judged :
    (reason : FailureReason) (retryable : Bool) (detail : Option String) (p : Pipeline)
    (i : InFlight)
    → (fail dropped reason retryable detail p i).1 ≡ judged closed i
unfolding fail
fail-judged reason retryable detail p i = ground arith

module _ (body : Pipeline → InFlight → Pipeline × InFlight) (f : InFlight → InFlight)
    (h : (p : Pipeline) (i : InFlight) → (body p i).1 ≡ f i) where
  each_item-map : (p : Pipeline) (is : List InFlight) → (each_item body p is).1 ≡ map f is
  unfolding each_item
  each_item-map p [] = refl
  each_item-map p (i ∷ is) = ap₂ ◌∷◌ (h p i) (each_item-map (body p i).0 is)

  update_items-map : (p : Pipeline) → (update_items body p).items ≡ map f p.items
  unfolding update_items
  update_items-map p = each_item-map p p.items

-- While a batch is with the sink, whatever the sink answers, and whatever the callbacks submit meanwhile, each record of the batch that
-- is still in flight takes the outcome that the answer gives its `record_id`, and no other record
-- changes.
pub apply-judged :
    (p : Pipeline) (r : BatchResult) → IsDelivering p → (apply p r).items ≡ map (judged r) p.items
unfolding apply
apply-judged p (accepted rs us) b =
    (notify_delivered-Moved (update_items (apply_accepted rs us) p)
      (update_items-Busy _ (apply_accepted-Settles rs us) p (IsDelivering→Busy p b))).items
    ∙ update_items-map _ _ (apply_accepted-judged rs us) p
apply-judged p (retryable_failure d) b = update_items-map _ _ (fail-judged sink_failure true d) p
apply-judged p (permanent_failure d) b = update_items-map _ _ (fail-judged sink_failure false d) p
apply-judged p closed b = update_items-map _ _ (fail-judged sink_closed true none) p
