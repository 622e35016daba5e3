-- ===== src/Pipeline/History.antt =====
-- What the sink is handed, against what was queued, after any history.
use mathlib.Core.List.{flatten}
use audr.Base.{
  ◌+◌, ◌≡◌, refl, inl, inr, String, Bool, true, false, List, [], ◌∷◌, ◌++◌, Option, none, some,
  arith, append-nil,
}
use audr.Record.{
  AudrRecord, BatchResult, accepted, retryable_failure, permanent_failure, closed, unknown,
  shutdown, inconclusive, dropped, sink_failure, sink_closed, Disposition, FailureReason,
  RejectedRecord, rejected,
}
use audr.Pipeline.State.{
  PipelineOptions, fresh, InFlight, in_flight, sent, ended, ItemState, is_draining, draining,
  Pipeline,
}
use audr.Pipeline.Submit.{resubmit}
use audr.Pipeline.Deliver.{
  mark_sent, count_ended, fail_from, fail, each_item, settle_item, update_items, apply_accepted,
  call_delivered, notify_delivered, apply, Answer, result, no_outcome, no_object, threw,
  take_answer, finish_delivery, sent_records,
}
use audr.Pipeline.Stop.{
  begin_drain, end_drain, drop_queued, abandon_outstanding, begin_stop, finish_stop, close_sink,
}
use audr.Pipeline.Steps.{
  Event, records, reports_invalid, linger_fires, run_resumes, flush_begins, drain_ends, stop_begins,
  stop_continues, stop_finishes, sink_answers, step, run,
}
use audr.Pipeline.Order.{
  IsInOrder, start_run-IsInOrder, schedule-IsInOrder, resume_run-IsInOrder, resubmit_all-IsInOrder,
  notify_failure-IsInOrder, resubmit-IsInOrder, report_invalid-IsInOrder,
}

count_ended-IsInOrder : (d : Disposition) (p : Pipeline) → IsInOrder p → IsInOrder (count_ended d p)
count_ended-IsInOrder dropped p v = ground arith
count_ended-IsInOrder unknown p v = ground arith

-- A loop's body that touches no list of records but through callbacks.
abbrev KeepsOrder : (Pipeline → InFlight → Pipeline × InFlight) → Type 0
KeepsOrder body = (p : Pipeline) (i : InFlight) → IsInOrder p → IsInOrder (body p i).0

module _ (d : Disposition) (reason : FailureReason) (retryable : Bool)
    (detail : Option String) where
  fail_from-IsInOrder :
      (s : ItemState) (p : Pipeline) (r : AudrRecord)
      → IsInOrder p
      → IsInOrder (fail_from d reason retryable detail s p r).0
  unfolding fail_from
  fail_from-IsInOrder in_flight p r v =
      notify_failure-IsInOrder (count_ended d p) _ (count_ended-IsInOrder d p v)
  fail_from-IsInOrder sent p r v = v
  fail_from-IsInOrder (ended _) p r v = v

  fail-KeepsOrder : KeepsOrder (fail d reason retryable detail)
  unfolding fail
  fail-KeepsOrder p i v = fail_from-IsInOrder i.state p i.item v

settle_item-KeepsOrder : (e : Option RejectedRecord) (u : Bool) → KeepsOrder (settle_item e u)
unfolding settle_item mark_sent
settle_item-KeepsOrder (some e) u p i v = fail-KeepsOrder dropped rejected false e.detail p i v
settle_item-KeepsOrder none true p i v = fail-KeepsOrder unknown inconclusive true none p i v
settle_item-KeepsOrder none false p i v = ground arith

apply_accepted-KeepsOrder :
    (rejected_ : List RejectedRecord) (unknown_ : List String)
    → KeepsOrder (apply_accepted rejected_ unknown_)
unfolding apply_accepted
apply_accepted-KeepsOrder rejected_ unknown_ p i v = settle_item-KeepsOrder _ _ p i v

module _ (body : Pipeline → InFlight → Pipeline × InFlight) (keeps : KeepsOrder body) where
  each_item-IsInOrder :
      (p : Pipeline) (is : List InFlight) → IsInOrder p → IsInOrder (each_item body p is).0
  unfolding each_item
  each_item-IsInOrder p [] v = v
  each_item-IsInOrder p (i ∷ is) v = each_item-IsInOrder (body p i).0 is (keeps p i v)

  update_items-IsInOrder : (p : Pipeline) → IsInOrder p → IsInOrder (update_items body p)
  unfolding update_items
  update_items-IsInOrder p v = ground (arith, each_item-IsInOrder p p.items v)

call_delivered-IsInOrder :
    (callback : Option (List AudrRecord → List AudrRecord)) (p : Pipeline)
    → IsInOrder p
    → IsInOrder (call_delivered callback p)
unfolding call_delivered
call_delivered-IsInOrder none p v = v
call_delivered-IsInOrder (some callback) p v = ground (
  arith,
  resubmit_all-IsInOrder resubmit resubmit-IsInOrder
      (record p { deliveries = p.deliveries ++ sent_records p.items ∷ [] })
      (callback (sent_records p.items)),
)

apply-IsInOrder : (p : Pipeline) (r : BatchResult) → IsInOrder p → IsInOrder (apply p r)
unfolding apply notify_delivered
apply-IsInOrder p (accepted rejected_ unknown_) v =
    call_delivered-IsInOrder _ _
      (update_items-IsInOrder _ (apply_accepted-KeepsOrder rejected_ unknown_) p v)
apply-IsInOrder p (retryable_failure detail) v =
    update_items-IsInOrder _ (fail-KeepsOrder dropped sink_failure true detail) p v
apply-IsInOrder p (permanent_failure detail) v =
    update_items-IsInOrder _ (fail-KeepsOrder dropped sink_failure false detail) p v
apply-IsInOrder p closed v =
    update_items-IsInOrder _ (fail-KeepsOrder dropped sink_closed true none) p v

take_answer-IsInOrder : (p : Pipeline) (a : Answer) → IsInOrder p → IsInOrder (take_answer p a)
unfolding take_answer
take_answer-IsInOrder p (result r) v =
    ground (arith, apply-IsInOrder (record p { batches = p.batches + 1 }) r)
take_answer-IsInOrder p no_outcome v = ground arith
take_answer-IsInOrder p no_object v = v
take_answer-IsInOrder p threw v = v

finish_delivery-IsInOrder :
    (p : Pipeline) (a : Answer) → IsInOrder p → IsInOrder (finish_delivery p a)
unfolding finish_delivery
finish_delivery-IsInOrder p a v = ground (
  arith,
  update_items-IsInOrder (fail unknown inconclusive true none)
      (fail-KeepsOrder unknown inconclusive true none) (take_answer p a)
      (take_answer-IsInOrder p a v),
)

begin_drain-IsInOrder : (p : Pipeline) → IsInOrder p → IsInOrder (begin_drain p)
unfolding begin_drain
begin_drain-IsInOrder p v =
    ground (arith, schedule-IsInOrder (record p { drainers = p.drainers + 1 }))

drop_queued-IsInOrder :
    (rs : List AudrRecord) (p : Pipeline) → IsInOrder p → IsInOrder (drop_queued p rs)
unfolding drop_queued
drop_queued-IsInOrder [] p v = v
drop_queued-IsInOrder (r ∷ rs) p v =
    drop_queued-IsInOrder rs _ (notify_failure-IsInOrder _ _ (count_ended-IsInOrder dropped p v))

emptied-order :
    (p : Pipeline)
    → is_draining p.stopping ≡ true
    → IsInOrder p
    → p.entered ≡ flatten p.handed ++ (p.queue ++ [])
emptied-order p d v = ground (arith, append-nil p.queue)

finish_stop-IsInOrder :
    (p : Pipeline) → is_draining p.stopping ≡ true → IsInOrder p → IsInOrder (finish_stop p)
unfolding finish_stop abandon_outstanding
finish_stop-IsInOrder p d v =
    update_items-IsInOrder _ (fail-KeepsOrder unknown shutdown true none) _ (
      drop_queued-IsInOrder p.queue _ (record {
        order = emptied-order p d v;
        early = inl refl;
        late = inr refl;
        sized = v.sized;
      }))

step-IsInOrder : (p : Pipeline) (e : Event) → IsInOrder p → IsInOrder (step p e)
unfolding step begin_stop end_drain close_sink
step-IsInOrder p (records r) v = resubmit-IsInOrder p r v
step-IsInOrder p (reports_invalid r) v = ground (arith, report_invalid-IsInOrder p r v)
step-IsInOrder p linger_fires v =
    ground (arith, start_run-IsInOrder (record p { linger_timer = false }))
step-IsInOrder p run_resumes v = ground (arith, resume_run-IsInOrder p v)
step-IsInOrder p flush_begins v = ground (arith, begin_drain-IsInOrder p v)
step-IsInOrder p drain_ends v = ground arith
step-IsInOrder p stop_begins v =
    ground (arith, begin_drain-IsInOrder (record p { stopping = draining }))
step-IsInOrder p stop_continues v = ground (arith, finish_stop-IsInOrder p)
step-IsInOrder p stop_finishes v = ground arith
step-IsInOrder p (sink_answers a) v = ground (arith, finish_delivery-IsInOrder p a v)

run_from-IsInOrder : (p : Pipeline) (es : List Event) → IsInOrder p → IsInOrder (run p es)
unfolding run
run_from-IsInOrder p [] v = v
run_from-IsInOrder p (e ∷ es) v = run_from-IsInOrder (step p e) es (step-IsInOrder p e v)

-- After any history the batches handed to the sink, followed by the records that shutdown dropped
-- from the queue and by the queue, are exactly the records that were queued, in their order and each
-- once; after the drain of a shutdown the queue is empty, and before it nothing is dropped from it;
-- and every batch holds between one and `batchMaxSize` records.
pub run-IsInOrder : (o : PipelineOptions) (es : List Event) → IsInOrder (run (fresh o) es)
unfolding fresh flatten
run-IsInOrder o es =
    run_from-IsInOrder (fresh o) es
      (record { order = refl; early = inr refl; late = inr refl; sized = tt })
