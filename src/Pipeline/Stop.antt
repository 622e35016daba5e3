-- ===== src/Pipeline/Stop.antt =====
-- adapters/core/typescript/src/pipeline.ts: `#drain`, `#stop` and `#abandonOutstanding`.
use audr.Base.{◌+◌, ◌-◌, true, false, not, ◌||◌, List, [], ◌∷◌, none, if◌then◌else◌, is_empty}
use audr.Record.{AudrRecord, dropped, unknown, shutdown}
use audr.Pipeline.State.{delivering, draining, closing, finished, Pipeline, schedule}
use audr.Pipeline.Submit.{notify_failure}
use audr.Pipeline.Deliver.{fail, update_items}

-- `#drain`, up to its `await`.
unfoldable pub begin_drain : Pipeline → Pipeline
unfolding schedule
begin_drain p =
    let p' = schedule (record p { drainers = p.drainers + 1 }) in
    if delivering p'.running || not (is_empty p'.queue)
    then record p' { idle_waiters = p'.idle_waiters + 1 }
    else p'

-- The `finally` of `#drain`.
unfoldable pub end_drain : Pipeline → Pipeline
end_drain p = record p { drainers = p.drainers - 1 }

-- The loop of `#abandonOutstanding` over what was queued.
unfoldable pub drop_queued : Pipeline → List AudrRecord → Pipeline
unfolding notify_failure
drop_queued p [] = p
drop_queued p (r ∷ rs) =
    drop_queued
      (notify_failure (record p { dropped_count = p.dropped_count + 1 })
        (record {
          item = r;
          disposition = dropped;
          reason = shutdown;
          retryable = true;
          detail = none;
        }))
      rs

-- `#abandonOutstanding`
unfoldable pub abandon_outstanding : Pipeline → Pipeline
unfolding drop_queued update_items fail
abandon_outstanding p =
    update_items (fail unknown shutdown true none)
      (drop_queued (record p { queue = []; abandoned = p.queue }) p.queue)

-- `#stop`, up to the `await` of `#drain`.
unfoldable pub begin_stop : Pipeline → Pipeline
unfolding begin_drain
begin_stop p = begin_drain (record p { stopping = draining })

-- `#stop`, from the end of `#drain` to the `await` of the callbacks.
unfoldable pub finish_stop : Pipeline → Pipeline
unfolding abandon_outstanding
finish_stop p =
    abandon_outstanding (record p { linger_timer = false; aborted = true; stopping = closing })

-- The rest of `#stop`, once the callbacks have settled or the bound has passed.
unfoldable pub close_sink : Pipeline → Pipeline
close_sink p = record p { stopping = finished; sink_closed = p.owns_sink }
