-- ===== src/Pipeline/Settling.antt =====
-- The sink's answer keeps the pipeline valid, and leaves nothing in flight.
use audr.Base.{◌+◌, ◌≡◌, refl, inl, true, false, List, [], ◌∷◌, none, arith}
use audr.Record.{
  BatchResult, accepted, retryable_failure, permanent_failure, closed, unknown, inconclusive,
  dropped, sink_failure, sink_closed,
}
use audr.Pipeline.State.{
  InFlight, in_flight, sent, ended, ItemState, is_awaiting_sink, is_stopping, returned, Pipeline,
}
use audr.Pipeline.Deliver.{
  fail_from, fail, each_item, update_items, notify_delivered, apply, Answer, result, no_outcome,
  no_object, threw, take_answer, finish_delivery,
}
use audr.Pipeline.Frame.{
  live_one, live, Busy, notify_delivered-Moved, Settles, fail-Settles, apply_accepted-Settles,
  each_item-Moved, each_item-length,
}
use audr.Pipeline.Validity.{IsValid, Moved-IsValid}

pub update_items-IsValid :
    (body : Pipeline → InFlight → Pipeline × InFlight) (h : Settles body) (p : Pipeline)
    → Busy p
    → IsValid p
    → IsValid (update_items body p)
unfolding update_items
update_items-IsValid body h p b v =
    ground (arith, each_item-Moved body h p p.items b, each_item-length body p p.items)

pub update_items-Busy :
    (body : Pipeline → InFlight → Pipeline × InFlight) (h : Settles body) (p : Pipeline)
    → Busy p
    → Busy (update_items body p)
unfolding update_items
update_items-Busy body h p b =
    ground (arith, each_item-Moved body h p p.items b, each_item-length body p p.items)

-- While a batch is with the sink.
abbrev pub IsDelivering : Pipeline → Type 0
IsDelivering p = is_awaiting_sink p.running ≡ true

pub IsDelivering→Busy : (p : Pipeline) → IsDelivering p → Busy p
IsDelivering→Busy p d = ground arith

pub stopping→Busy : (p : Pipeline) → is_stopping p.stopping ≡ true → Busy p
stopping→Busy p d = ground arith

-- Valid, with a batch at the sink.
pub record IsAnswering (p : Pipeline) : Type 0 where
  pub valid : IsValid p
  pub delivers : IsDelivering p

pub update_items-IsAnswering :
    (body : Pipeline → InFlight → Pipeline × InFlight) (h : Settles body) (p : Pipeline)
    → IsAnswering p
    → IsAnswering (update_items body p)
unfolding update_items
update_items-IsAnswering body h p v =
    let b = IsDelivering→Busy p v.delivers in
    record {
      valid = update_items-IsValid body h p b v.valid;
      delivers = ground (arith, each_item-Moved body h p p.items b);
    }

pub notify_delivered-IsAnswering : (p : Pipeline) → IsAnswering p → IsAnswering (notify_delivered p)
notify_delivered-IsAnswering p v =
    let m = notify_delivered-Moved p (IsDelivering→Busy p v.delivers) in
    record { valid = Moved-IsValid v.valid m; delivers = rw m.running v.delivers }

pub apply-IsAnswering : (p : Pipeline) (r : BatchResult) → IsAnswering p → IsAnswering (apply p r)
unfolding apply
apply-IsAnswering p (accepted rejected_ unknown_) v =
    notify_delivered-IsAnswering _
      (update_items-IsAnswering _ (apply_accepted-Settles rejected_ unknown_) p v)
apply-IsAnswering p (retryable_failure detail) v =
    update_items-IsAnswering _ (fail-Settles dropped sink_failure true detail) p v
apply-IsAnswering p (permanent_failure detail) v =
    update_items-IsAnswering _ (fail-Settles dropped sink_failure false detail) p v
apply-IsAnswering p closed v =
    update_items-IsAnswering _ (fail-Settles dropped sink_closed true none) p v

pub take_answer-IsAnswering :
    (p : Pipeline) (a : Answer) → IsAnswering p → IsAnswering (take_answer p a)
unfolding take_answer
take_answer-IsAnswering p (result r) v =
    ground (arith, apply-IsAnswering (record p { batches = p.batches + 1 }) r)
take_answer-IsAnswering p no_outcome v = ground arith
take_answer-IsAnswering p no_object v = v
take_answer-IsAnswering p threw v = v

-- The `finally` leaves nothing in flight.
pub fail-live_one :
    (i : InFlight) (p : Pipeline) → live_one (fail unknown inconclusive true none p i).1.state ≡ 0
unfolding fail fail_from
fail-live_one i p = go i.state
  where
    go :
        (s : ItemState) → live_one (fail_from unknown inconclusive true none s p i.item).1.state ≡ 0
    go in_flight = refl
    go sent = refl
    go (ended _) = refl

-- A loop whose body leaves no item in flight leaves none.
pub each_item-live :
    (body : Pipeline → InFlight → Pipeline × InFlight)
    → ((i : InFlight) (p : Pipeline) → live_one (body p i).1.state ≡ 0)
    → (p : Pipeline) (is : List InFlight) → live (each_item body p is).1 ≡ 0
unfolding each_item
each_item-live body h p [] = refl
each_item-live body h p (i ∷ is) = omega (arith, h i p, each_item-live body h (body p i).0 is)

pub finish_delivery-IsValid :
    (p : Pipeline) (a : Answer) → IsAnswering p → IsValid (finish_delivery p a)
unfolding finish_delivery
finish_delivery-IsValid p a v =
    cleared
      (update_items-IsAnswering _ (fail-Settles unknown inconclusive true none) _
        (take_answer-IsAnswering p a v))
      none_live
  where
    q : Pipeline
    q = update_items (fail unknown inconclusive true none) (take_answer p a)

    none_live : live q.items ≡ 0
    none_live =
        unfold update_items in
        each_item-live _ fail-live_one (take_answer p a) (take_answer p a).items

    cleared :
        IsAnswering q → live q.items ≡ 0 → IsValid (record q { items = []; running = returned })
    cleared v e = record { counted = ground arith; prompt = inl refl }
