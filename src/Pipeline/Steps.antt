-- ===== src/Pipeline/Steps.antt =====
-- The pipeline's methods in sequence: every interleaving of calls, timers and settled promises that
-- the event loop allows is a list of events. An event that cannot happen changes nothing.
use audr.Base.{false, List, [], ◌∷◌, ltb, if◌then◌else◌}
use audr.Record.{AudrRecord}
use audr.Pipeline.State.{
  is_awaiting_sink, has_returned, is_draining, is_closing, is_stopping, Pipeline, start_run,
  resume_run,
}
use audr.Pipeline.Submit.{resubmit, report_invalid}
use audr.Pipeline.Deliver.{Answer, finish_delivery}
use audr.Pipeline.Stop.{begin_drain, end_drain, begin_stop, finish_stop, close_sink}

-- `Client.record()` of a valid and of an invalid record, the timer of `#schedule`, the sink's answer,
-- `#run` after an answer, `flush()`, the end of the wait of a `flush()` or of `#stop` (idle or timed
-- out), `shutdown()`, `#stop` after its wait, and `#stop` after the callbacks.
pub data Event : Type 0 where
  records reports_invalid : AudrRecord → Event
  linger_fires run_resumes flush_begins drain_ends : Event
  stop_begins stop_continues stop_finishes : Event
  sink_answers : Answer → Event

unfoldable pub step : Pipeline → Event → Pipeline
unfolding resubmit report_invalid start_run resume_run finish_delivery begin_drain end_drain
    begin_stop finish_stop close_sink
step p (records r) = resubmit p r
step p (reports_invalid r) = if is_stopping p.stopping then p else report_invalid p r
step p linger_fires = if p.linger_timer then start_run (record p { linger_timer = false }) else p
step p run_resumes = if has_returned p.running then resume_run p else p
step p flush_begins = if is_stopping p.stopping then p else begin_drain p
step p drain_ends = if ltb 0 p.drainers then end_drain p else p
step p stop_begins = if is_stopping p.stopping then p else begin_stop p
step p stop_continues = if is_draining p.stopping then finish_stop p else p
step p stop_finishes = if is_closing p.stopping then close_sink p else p
step p (sink_answers a) = if is_awaiting_sink p.running then finish_delivery p a else p

unfoldable pub run : Pipeline → List Event → Pipeline
unfolding step
run p [] = p
run p (e ∷ es) = run (step p e) es
