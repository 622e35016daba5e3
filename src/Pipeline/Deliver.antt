-- ===== src/Pipeline/Deliver.antt =====
-- adapters/core/typescript/src/pipeline.ts: the sink's answer, and what becomes of each record.
use audr.Base.{
  names, ◌+◌, Bool, true, false, ◌||◌, List, [], ◌∷◌, ◌++◌, Option, none, some, String, str_eq,
  if◌then◌else◌, is_empty,
}
use audr.Record.{
  AudrRecord, Disposition, dropped, unknown, FailureReason, rejected, sink_failure, sink_closed,
  inconclusive, RejectedRecord, BatchResult, accepted, retryable_failure, permanent_failure, closed,
}
use audr.Pipeline.State.{ItemState, in_flight, sent, ended, InFlight, returned, Pipeline}
use audr.Pipeline.Submit.{notify_failure, resubmit, resubmit_all}

-- `#markSent`, at the item's state.
unfoldable pub mark_from : ItemState → Pipeline → AudrRecord → Pipeline × InFlight
mark_from in_flight p r =
    (record p { sent_count = p.sent_count + 1 }, record { item = r; state = sent })
mark_from state p r = (p, record { item = r; state = state })

-- `#markSent`
unfoldable pub mark_sent : Pipeline → InFlight → Pipeline × InFlight
unfolding mark_from
mark_sent p i = mark_from i.state p i.item

abbrev pub count_ended : Disposition → Pipeline → Pipeline
count_ended dropped p = record p { dropped_count = p.dropped_count + 1 }
count_ended unknown p = record p { unknown_count = p.unknown_count + 1 }

module _ (disposition : Disposition) (reason : FailureReason) (retryable : Bool)
    (detail : Option String) where
  -- `#fail`, at the item's state.
  unfoldable pub fail_from : ItemState → Pipeline → AudrRecord → Pipeline × InFlight
  unfolding notify_failure
  fail_from in_flight p r = (
    notify_failure (count_ended disposition p) (record {
      item = r;
      disposition = disposition;
      reason = reason;
      retryable = retryable;
      detail = detail;
    }),
    record { item = r; state = ended disposition },
  )
  fail_from state p r = (p, record { item = r; state = state })

  -- `#fail`
  unfoldable pub fail : Pipeline → InFlight → Pipeline × InFlight
  unfolding fail_from
  fail p i = fail_from i.state p i.item

-- A `for` loop over items whose body may move each to a terminal state.
unfoldable pub each_item :
    (Pipeline → InFlight → Pipeline × InFlight)
    → Pipeline
    → List InFlight
    → Pipeline × List InFlight
each_item body p [] = (p, [])
each_item body p (i ∷ is) =
    let (p', i') = body p i in let (p'', is') = each_item body p' is in (p'', i' ∷ is')

-- The loop over every item in flight. The callbacks that it runs do not touch the items.
unfoldable pub update_items : (Pipeline → InFlight → Pipeline × InFlight) → Pipeline → Pipeline
unfolding each_item
update_items body p = let (p', items') = each_item body p p.items in record p' { items = items' }

-- `new Map(result.rejected?.map(…))`: the last entry of a key is the one that is found.
unfoldable pub rejection : String → List RejectedRecord → Option RejectedRecord
rejection id [] = none
rejection id (r ∷ rs) =
    let later = rejection id rs in
    elim later [ some found ↦ some found | none ↦ if str_eq r.record_id id then some r else none ]

-- The body of the loop in `#apply` for `accepted`: what its `if` ladder chooses, and the ladder.
unfoldable pub settle_item :
    Option RejectedRecord → Bool → Pipeline → InFlight → Pipeline × InFlight
unfolding mark_sent fail
settle_item (some entry) is_unknown p i = fail dropped rejected false entry.detail p i
settle_item none true p i = fail unknown inconclusive true none p i
settle_item none false p i = mark_sent p i

unfoldable pub apply_accepted :
    List RejectedRecord → List String → Pipeline → InFlight → Pipeline × InFlight
unfolding rejection names settle_item
apply_accepted rejected_ unknown_ p i =
    let id = i.item.record_id in settle_item (rejection id rejected_) (names unknown_ id) p i

-- The records of `#notifyDelivered`.
unfoldable pub sent_records : List InFlight → List AudrRecord
sent_records [] = []
sent_records (i ∷ is) =
    let rest = sent_records is in elim i.state [ sent ↦ i.item ∷ rest | _ ↦ rest ]

-- `#notifyDelivered`, past the test for a callback.
unfoldable pub call_delivered : Option (List AudrRecord → List AudrRecord) → Pipeline → Pipeline
unfolding sent_records resubmit resubmit_all
call_delivered none p = p
call_delivered (some callback) p =
    let records = sent_records p.items in
    if is_empty records
    then p
    else resubmit_all resubmit (record p { deliveries = p.deliveries ++ records ∷ [] })
        (callback records)

-- `#notifyDelivered`
unfoldable pub notify_delivered : Pipeline → Pipeline
unfolding call_delivered
notify_delivered p = call_delivered p.on_delivered p

-- `#apply`
unfoldable pub apply : Pipeline → BatchResult → Pipeline
unfolding apply_accepted notify_delivered update_items
apply p (accepted rejected_ unknown_) =
    notify_delivered (update_items (apply_accepted rejected_ unknown_) p)
apply p (retryable_failure detail) = update_items (fail dropped sink_failure true detail) p
apply p (permanent_failure detail) = update_items (fail dropped sink_failure false detail) p
apply p closed = update_items (fail dropped sink_closed true none) p

-- What the sink's promise came to: a `BatchResult`, a value that is no object or has no known
-- outcome, or a rejection.
pub data Answer : Type 0 where
  result : BatchResult → Answer
  no_outcome no_object threw : Answer

abbrev pub is_live : ItemState → Bool
is_live in_flight = true
is_live _ = false

unfoldable pub any_live : List InFlight → Bool
any_live [] = false
any_live (i ∷ is) = is_live i.state || any_live is

-- The `try` block of `#deliver`, after the `await`.
unfoldable pub take_answer : Pipeline → Answer → Pipeline
unfolding apply any_live
take_answer p (result r) =
    if any_live p.items then apply (record p { batches = p.batches + 1 }) r else p
take_answer p no_outcome = if any_live p.items then record p { batches = p.batches + 1 } else p
take_answer p no_object = p
take_answer p threw = p

-- `#deliver`, from the `await` to its end, the `finally` block included.
unfoldable pub finish_delivery : Pipeline → Answer → Pipeline
unfolding take_answer update_items fail
finish_delivery p a =
    let p' = update_items (fail unknown inconclusive true none) (take_answer p a) in
    record p' { items = []; running = returned }
