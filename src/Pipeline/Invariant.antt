-- ===== src/Pipeline/Invariant.antt =====
-- What holds of the pipeline after any history.
use audr.Base.{◌≤◌, refl, inl, inr, false, List, [], ◌∷◌, arith}
use audr.Pipeline.State.{PipelineOptions, fresh, Pipeline}
use audr.Pipeline.Deliver.{Answer, finish_delivery}
use audr.Pipeline.Steps.{
  Event, records, reports_invalid, linger_fires, run_resumes, flush_begins, drain_ends, stop_begins,
  stop_continues, stop_finishes, sink_answers, step, run,
}
use audr.Pipeline.Validity.{
  IsValid, start_run-IsValid, resume_run-IsValid, resubmit-IsValid, report_invalid-IsValid,
}
use audr.Pipeline.Settling.{IsDelivering, finish_delivery-IsValid}
use audr.Pipeline.Ending.{
  begin_drain-IsValid, end_drain-IsValid, begin_stop-IsValid, finish_stop-IsValid,
  close_sink-IsValid,
}

pub sink_answers-IsValid :
    (p : Pipeline) (a : Answer) → IsValid p → IsDelivering p → IsValid (finish_delivery p a)
sink_answers-IsValid p a v d = finish_delivery-IsValid p a (record { valid = v; delivers = d })

-- Every event keeps the pipeline valid.
pub step-IsValid : (p : Pipeline) (e : Event) → IsValid p → IsValid (step p e)
unfolding step
step-IsValid p (records r) v = resubmit-IsValid p r v
step-IsValid p (reports_invalid r) v = ground (arith, report_invalid-IsValid p r v)
step-IsValid p linger_fires v =
    ground (arith, start_run-IsValid (record p { linger_timer = false }))
step-IsValid p run_resumes v = ground (arith, resume_run-IsValid p v.counted)
step-IsValid p flush_begins v = ground (arith, begin_drain-IsValid p v.counted)
step-IsValid p drain_ends v = ground (arith, end_drain-IsValid p v)
step-IsValid p stop_begins v = ground (arith, begin_stop-IsValid p v.counted)
step-IsValid p stop_continues v = ground (arith, finish_stop-IsValid p v.counted)
step-IsValid p stop_finishes v = ground (arith, close_sink-IsValid p v)
step-IsValid p (sink_answers a) v = ground (arith, sink_answers-IsValid p a v)

pub fresh-IsValid : (o : PipelineOptions) → 1 ≤ o.batch_max_size → IsValid (fresh o)
unfolding fresh
fresh-IsValid o h = record { counted = omega arith; prompt = inr (inl refl) }

pub run_from-IsValid : (p : Pipeline) (es : List Event) → IsValid p → IsValid (run p es)
unfolding run
run_from-IsValid p [] v = v
run_from-IsValid p (e ∷ es) v = run_from-IsValid (step p e) es (step-IsValid p e v)

-- After any history of calls, timers, answers and callbacks, from a pipeline whose batches may hold at
-- least one record: every submitted record is counted exactly once, as sent, dropped, unknown, queued
-- or in flight; the queue and the items in flight together stay within `maxQueueSize`; items are in
-- flight only while their batch is with the sink, and at most `batchMaxSize` of them; and queued
-- records are being delivered, or wait for the running timer while no batch is due.
pub run-IsValid :
    (o : PipelineOptions) (es : List Event) → 1 ≤ o.batch_max_size → IsValid (run (fresh o) es)
run-IsValid o es h = run_from-IsValid (fresh o) es (fresh-IsValid o h)
