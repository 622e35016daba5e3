-- ===== src/Pipeline/Tests.antt =====
-- Small inputs to the pipeline, and what it does on them.
use audr.Base.{String, ◌≡◌, refl, ◌+◌, true, false, List, [], ◌∷◌, some, none, arith}
use audr.Record.{AudrRecord, null, accepted, unknown}
use audr.Pipeline.State.{PipelineOptions, fresh, ended, sent, stats, delivering}
use audr.Pipeline.Deliver.{Answer, result, threw, apply}
use audr.Pipeline.Steps.{
  Event, records, run, step, run_resumes, sink_answers, stop_begins, stop_continues, stop_finishes,
}
use audr.Pipeline.Validity.{IsValid}
use audr.Pipeline.Invariant.{run-IsValid}
use audr.Pipeline.Order.{IsInOrder}
use audr.Pipeline.History.{run-IsInOrder}
use audr.Pipeline.Verdict.{apply-judged}
use audr.Pipeline.Shutdown.{SameCounts, stop_continues-final}
use audr.Pipeline.Drain.{rounds, rounds-done}

abbrev named : String → AudrRecord
named id = record {
  record_id = id;
  subscription_id = none;
  feature_id = none;
  event_time = "2026-01-01T00:00:00.000Z";
  corrects = false;
  body = null;
}

-- `onFailure` submits the failed record once more.
abbrev options : PipelineOptions
options = record {
  max_queue_size = 3;
  batch_max_size = 2;
  owns_sink = true;
  on_failure = some (λ f. f.item ∷ []);
  on_delivered = none;
}

abbrev answer_one : Answer
answer_one = result (accepted (record { record_id = "a"; detail = none } ∷ []) ("b" ∷ []))

abbrev filled : List Event
filled = records (named "a") ∷ records (named "b") ∷ records (named "c") ∷ records (named "d") ∷ []

abbrev answered : List Event
answered = records (named "a") ∷ records (named "b") ∷ sink_answers answer_one ∷ run_resumes ∷ []

abbrev stopped : List Event
stopped = records (named "a") ∷ records (named "b") ∷ records (named "c") ∷ stop_begins ∷ []

program : Unit {0}
unfolding run fresh stats
program = tt

-- The queue is full at the fourth record: it is dropped, and so is the copy that the callback submits.
filled-stats :
    stats (run (fresh options) filled)
    ≡ record { submitted = 5; sent = 0; dropped = 2; unknown = 0; batches = 0; queue_depth = 3 }
unfolding program
filled-stats = refl

-- Both records of the batch fail. The callback queues the first again; for the second the queue is
-- full, as the batch still counts against the capacity while its answer is taken.
answered-stats :
    stats (run (fresh options) answered)
    ≡ record { submitted = 4; sent = 0; dropped = 2; unknown = 1; batches = 1; queue_depth = 1 }
unfolding program
answered-stats = refl

run-IsValid_example : IsValid (run (fresh options) answered)
run-IsValid_example = run-IsValid options answered (omega arith)

run-IsInOrder_example : IsInOrder (run (fresh options) stopped)
run-IsInOrder_example = run-IsInOrder options stopped

apply-judged_example :
    let p = run (fresh options) (records (named "a") ∷ records (named "b") ∷ []) in
    (apply p (accepted [] ("b" ∷ []))).items
    ≡ record { item = named "a"; state = sent }
      ∷ record { item = named "b"; state = ended unknown }
      ∷ []
unfolding program
apply-judged_example =
    apply-judged (run (fresh options) (records (named "a") ∷ records (named "b") ∷ []))
      (accepted [] ("b" ∷ [])) refl

stop_continues-final_example :
    let over = step (run (fresh options) stopped) stop_continues in
    let later = run over (sink_answers threw ∷ run_resumes ∷ stop_finishes ∷ []) in
    (later.submitted ≡ later.sent_count + later.dropped_count + later.unknown_count)
    × SameCounts over later
stop_continues-final_example =
    stop_continues-final (run (fresh options) stopped)
      (sink_answers threw ∷ run_resumes ∷ stop_finishes ∷ [])
      (run-IsValid options stopped (omega arith)) (unfold program in refl)

rounds-done_example :
    ((rounds (run (fresh options) stopped) (threw ∷ answer_one ∷ [])).queue ≡ [])
    × (delivering (rounds (run (fresh options) stopped) (threw ∷ answer_one ∷ [])).running ≡ false)
unfolding program
rounds-done_example =
    rounds-done (run (fresh options) stopped) (threw ∷ answer_one ∷ [])
      (record {
        valid = run-IsValid options stopped (omega arith);
        draining = refl;
        between = refl;
      })
      (omega arith)
