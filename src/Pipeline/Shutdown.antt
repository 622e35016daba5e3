-- ===== src/Pipeline/Shutdown.antt =====
-- What `shutdown()` comes to: queued work is drained, the rest is accounted for, and nothing changes
-- afterwards.
use audr.Base.{
  ◌+◌, ◌≡◌, refl, ap, ◌∙◌, String, Bool, true, false, List, [], ◌∷◌, Option, none, arith, length,
}
use audr.Record.{Disposition, FailureReason, unknown, shutdown, inconclusive}
use audr.Pipeline.State.{InFlight, is_draining, closing, returned, Pipeline, wake_idle, resume_run}
use audr.Pipeline.Submit.{resubmit}
use audr.Pipeline.Deliver.{
  fail, each_item, update_items, Answer, result, no_outcome, no_object, threw, take_answer,
  any_live, finish_delivery,
}
use audr.Pipeline.Stop.{drop_queued, end_drain, abandon_outstanding, finish_stop, close_sink}
use audr.Pipeline.Steps.{Event, run_resumes, stop_continues, sink_answers, step, run}
use audr.Pipeline.Frame.{live_one, live, Moved, fail-Settles, each_item-Moved}
use audr.Pipeline.Validity.{IsValid}
use audr.Pipeline.Invariant.{step-IsValid}
use audr.Pipeline.Order.{is_past_drain, take-nil}
use audr.Pipeline.Settling.{each_item-live, stopping→Busy}
use audr.Pipeline.Ending.{drop_queued-Moved}

-- Shut down, with an outcome for every record.
pub record IsOver (p : Pipeline) : Type 0 where
  pub past : is_past_drain p.stopping ≡ true
  pub no_queue : p.queue ≡ []
  pub no_live : live p.items ≡ 0
  pub no_timer : p.linger_timer ≡ false

-- The counters of `stats` that account for the records.
pub record SameCounts (p q : Pipeline) : Type 0 where
  pub submitted : q.submitted ≡ p.submitted
  pub sent : q.sent_count ≡ p.sent_count
  pub dropped : q.dropped_count ≡ p.dropped_count
  pub unknown : q.unknown_count ≡ p.unknown_count

any_live-live : (is : List InFlight) → live is ≡ 0 → any_live is ≡ false
unfolding any_live
any_live-live [] h = refl
any_live-live (i ∷ is) h = ground (arith, any_live-live is)

-- A record that has an outcome is left alone.
each_item-fail_over :
    (d : Disposition) (reason : FailureReason) (retryable : Bool) (detail : Option String)
    (p : Pipeline) (is : List InFlight)
    → live is ≡ 0
    → each_item (fail d reason retryable detail) p is ≡ (p, is)
unfolding each_item fail
each_item-fail_over d reason retryable detail p [] h = refl
each_item-fail_over d reason retryable detail p (i ∷ is) h =
    ground (arith, each_item-fail_over d reason retryable detail p is)

take_answer-over : (p : Pipeline) (a : Answer) → live p.items ≡ 0 → take_answer p a ≡ p
unfolding take_answer
take_answer-over p (result r) h = ground (arith, any_live-live p.items h)
take_answer-over p no_outcome h = ground (arith, any_live-live p.items h)
take_answer-over p no_object h = refl
take_answer-over p threw h = refl

update_items-fail_over :
    (d : Disposition) (reason : FailureReason) (retryable : Bool) (detail : Option String)
    (p : Pipeline)
    → live p.items ≡ 0
    → update_items (fail d reason retryable detail) p ≡ p
unfolding update_items
update_items-fail_over d reason retryable detail p h =
    ap (λ (r : Pipeline × List InFlight). record r.0 { items = r.1 })
      (each_item-fail_over d reason retryable detail p p.items h)

finish_delivery-over :
    (p : Pipeline) (a : Answer)
    → live p.items ≡ 0
    → finish_delivery p a ≡ record p { items = []; running = returned }
unfolding finish_delivery
finish_delivery-over p a h =
    ap (λ (q : Pipeline). record q { items = []; running = returned })
      (ap (update_items (fail unknown inconclusive true none)) (take_answer-over p a h)
        ∙ update_items-fail_over unknown inconclusive true none p h)

resume_run-over : (p : Pipeline) → p.queue ≡ [] → resume_run p ≡ wake_idle p
unfolding resume_run
resume_run-over p e = ground (arith, take-nil p.batch_max_size)

step-IsOver : (p : Pipeline) (e : Event) → IsOver p → IsOver (step p e) × SameCounts p (step p e)
unfolding step resubmit end_drain close_sink wake_idle
step-IsOver p (sink_answers a) v = ground (arith, finish_delivery-over p a v.no_live)
step-IsOver p run_resumes v = ground (arith, resume_run-over p v.no_queue)
step-IsOver p _ v = ground arith

run-IsOver :
    (p : Pipeline) (es : List Event) → IsOver p → IsOver (run p es) × SameCounts p (run p es)
unfolding run
run-IsOver p [] v = ground arith
run-IsOver p (e ∷ es) v = ground (arith, step-IsOver p e v, run-IsOver (step p e) es)

-- The body of the shutdown loop leaves no item in flight.
fail-live_one :
    (i : InFlight) (p : Pipeline) → live_one (fail unknown shutdown true none p i).1.state ≡ 0
unfolding fail
fail-live_one i p = ground arith

abandon_items-IsOver :
    (p : Pipeline)
    → is_past_drain p.stopping ≡ true
    → p.queue ≡ []
    → p.linger_timer ≡ false
    → IsOver (update_items (fail unknown shutdown true none) p)
unfolding update_items
abandon_items-IsOver p past q t = ground (
  arith,
  each_item-Moved (fail unknown shutdown true none) (fail-Settles unknown shutdown true none) p
      p.items (stopping→Busy p (ground arith)),
  each_item-live (fail unknown shutdown true none) fail-live_one p p.items,
)

finish_stop-IsOver : (p : Pipeline) → IsOver (finish_stop p)
unfolding finish_stop abandon_outstanding
finish_stop-IsOver p =
    abandon_items-IsOver _ (ground (arith, moved)) (ground (arith, moved)) (ground (arith, moved))
  where
    emptied : Pipeline
    emptied = record p {
      linger_timer = false;
      aborted = true;
      stopping = closing;
      queue = [];
      abandoned = p.queue;
    }

    moved : Moved (length p.queue) 0 emptied (drop_queued emptied p.queue)
    moved = drop_queued-Moved emptied p.queue refl

-- Once the drain of a shutdown has ended, in whatever valid state: after any further events, late answers of
-- the sink included, every submitted record is counted as sent, dropped or unknown, and the four
-- counters are those that the end of the drain left.
pub stop_continues-final :
    (p : Pipeline) (es : List Event)
    → IsValid p
    → is_draining p.stopping ≡ true
    → let over = step p stop_continues in
      let later = run over es in
      (later.submitted ≡ later.sent_count + later.dropped_count + later.unknown_count)
      × SameCounts over later
stop_continues-final p es v d = ground (
  arith,
  run-IsOver (step p stop_continues) es over,
  (step-IsValid p stop_continues v).counted.balanced,
  over,
)
  where
    over : IsOver (step p stop_continues)
    over = unfold step in ground (arith, finish_stop-IsOver p)
