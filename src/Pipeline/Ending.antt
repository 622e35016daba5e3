-- ===== src/Pipeline/Ending.antt =====
-- Draining and stopping keep the pipeline valid.
use audr.Base.{◌+◌, ◌≡◌, refl, true, false, List, [], ◌∷◌, none, arith, length}
use audr.Record.{AudrRecord, FailedRecord, unknown, shutdown, dropped}
use audr.Pipeline.State.{is_stopping, is_closing, draining, closing, Pipeline}
use audr.Pipeline.Submit.{notify_failure}
use audr.Pipeline.Stop.{
  begin_drain, end_drain, drop_queued, abandon_outstanding, begin_stop, finish_stop, close_sink,
}
use audr.Pipeline.Frame.{Moved, Moved-refl, Moved-Busy, notify_failure-Moved, fail-Settles}
use audr.Pipeline.Validity.{IsCounted, IsValid, schedule-IsValid}
use audr.Pipeline.Settling.{update_items-IsValid, stopping→Busy}

pub begin_drain-IsValid : (p : Pipeline) → IsCounted p → IsValid (begin_drain p)
unfolding begin_drain
begin_drain-IsValid p v = ground (arith, schedule-IsValid (record p { drainers = p.drainers + 1 }))

pub end_drain-IsValid : (p : Pipeline) → IsValid p → IsValid (end_drain p)
unfolding end_drain
end_drain-IsValid p v = ground arith

pub drop_queued-Moved :
    (p : Pipeline) (rs : List AudrRecord)
    → is_stopping p.stopping ≡ true
    → Moved (length rs) 0 p (drop_queued p rs)
unfolding drop_queued
drop_queued-Moved p [] b = Moved-refl p
drop_queued-Moved p (r ∷ rs) b =
    let f : FailedRecord = record {
      item = r;
      disposition = dropped;
      reason = shutdown;
      retryable = true;
      detail = none;
    } in
    let p' : Pipeline = record p { dropped_count = p.dropped_count + 1 } in
    let m = notify_failure-Moved p' f (stopping→Busy p' b) in
    ground (arith, m, drop_queued-Moved (notify_failure p' f) rs)

pub drop_queued-IsValid :
    (p : Pipeline) (rs : List AudrRecord)
    → IsCounted p
    → is_stopping p.stopping ≡ true
    → IsValid (drop_queued (record p { queue = []; abandoned = rs }) p.queue)
drop_queued-IsValid p rs v b =
    let m = drop_queued-Moved (record p { queue = []; abandoned = rs }) p.queue b in ground arith

pub abandon_outstanding-IsValid :
    (p : Pipeline) → IsCounted p → is_stopping p.stopping ≡ true → IsValid (abandon_outstanding p)
unfolding abandon_outstanding
abandon_outstanding-IsValid p v b =
    update_items-IsValid _ (fail-Settles unknown shutdown true none) _
      (Moved-Busy (drop_queued-Moved (record p { queue = []; abandoned = p.queue }) p.queue b)
        (stopping→Busy (record p { queue = []; abandoned = p.queue }) b))
      (drop_queued-IsValid p p.queue v b)

pub begin_stop-IsValid : (p : Pipeline) → IsCounted p → IsValid (begin_stop p)
unfolding begin_stop
begin_stop-IsValid p v = begin_drain-IsValid (record p { stopping = draining }) (ground arith)

pub finish_stop-IsValid : (p : Pipeline) → IsCounted p → IsValid (finish_stop p)
unfolding finish_stop
finish_stop-IsValid p v =
    abandon_outstanding-IsValid
      (record p { linger_timer = false; aborted = true; stopping = closing }) (ground arith) refl

pub close_sink-IsValid :
    (p : Pipeline) → IsValid p → is_closing p.stopping ≡ true → IsValid (close_sink p)
unfolding close_sink
close_sink-IsValid p v c = ground arith
