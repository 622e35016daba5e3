-- ===== src/Pipeline/Submit.antt =====
-- adapters/core/typescript/src/pipeline.ts: `submit`, `reportInvalid` and `#notifyFailure`, with
-- the records that `onFailure` submits again while it runs.
use audr.Base.{Option, ◌+◌, Bool, true, false, List, [], ◌∷◌, ◌++◌, none, some, leb, if◌then◌else◌}
use audr.Record.{
  AudrRecord, dropped, queue_full, invalid, FailedRecord, SubmitOutcome, SubmitResult,
}
use audr.Pipeline.State.{is_stopping, Pipeline, depth, schedule}

unfoldable pub answer : SubmitOutcome → Bool → SubmitResult
answer outcome queued = record { outcome = outcome; queued = queued; issues = [] }

-- `submit`, with what `#notifyFailure` does as an argument.
unfoldable pub submit_with :
    (Pipeline → FailedRecord → Pipeline) → Pipeline → AudrRecord → Pipeline × SubmitResult
unfolding schedule answer
submit_with notify p r =
    let p' = record p { submitted = p.submitted + 1 } in
    if leb p'.max_queue_size (depth p')
    then (
      notify (record p' { dropped_count = p'.dropped_count + 1 })
          (record {
            item = r;
            disposition = dropped;
            reason = queue_full;
            retryable = true;
            detail = none;
          }),
      answer SubmitOutcome.dropped_queue_full false,
    )
    else (
      schedule (record p' { queue = p'.queue ++ r ∷ []; entered = p'.entered ++ r ∷ [] }),
      answer SubmitOutcome.queued true,
    )

-- `Client.record()` of a valid record by a callback that runs inside `onFailure`: `#notifying` is set,
-- so that `#notifyFailure` does nothing. A client that is shut down does not reach the pipeline.
unfoldable pub resubmit_quietly : Pipeline → AudrRecord → Pipeline
unfolding submit_with
resubmit_quietly p r = if is_stopping p.stopping then p else (submit_with (λ q _. q) p r).0

unfoldable pub resubmit_all :
    (Pipeline → AudrRecord → Pipeline) → Pipeline → List AudrRecord → Pipeline
resubmit_all resubmit p [] = p
resubmit_all resubmit p (r ∷ rs) = resubmit_all resubmit (resubmit p r) rs

-- `#notifyFailure`, past the test for a callback.
unfoldable pub call_back :
    Option (FailedRecord → List AudrRecord) → Pipeline → FailedRecord → Pipeline
unfolding resubmit_quietly resubmit_all
call_back none p failure = p
call_back (some callback) p failure =
    if p.notifying
    then p
    else (let started = record p { notifying = true; failures = p.failures ++ failure ∷ [] } in
        record (resubmit_all resubmit_quietly started (callback failure)) { notifying = false })

-- `#notifyFailure`
unfoldable pub notify_failure : Pipeline → FailedRecord → Pipeline
unfolding call_back
notify_failure p failure = call_back p.on_failure p failure

unfoldable pub submit : Pipeline → AudrRecord → Pipeline × SubmitResult
unfolding submit_with notify_failure
submit = submit_with notify_failure

-- `Client.record()` of a valid record, outside `onFailure` or inside it.
unfoldable pub resubmit : Pipeline → AudrRecord → Pipeline
unfolding submit
resubmit p r = if is_stopping p.stopping then p else (submit p r).0

-- `reportInvalid`
unfoldable pub report_invalid : Pipeline → AudrRecord → Pipeline
unfolding notify_failure
report_invalid p r =
    notify_failure p (record {
      item = r;
      disposition = dropped;
      reason = invalid;
      retryable = false;
      detail = none;
    })
