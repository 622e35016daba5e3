-- ===== src/Pipeline/Order.antt =====
-- What the sink is handed, against what was queued: scheduling and submitting keep the order.
use mathlib.Core.List.{flatten}
use audr.Base.{
  ℕ, zero, suc, ◌+◌, ◌≤◌, ◌≡◌, refl, sym, ◌⊎◌, inr, Bool, true, false, List, [], ◌∷◌, ◌++◌, Option,
  none, some, arith, length, take, drop, is_empty, length-take, take-append-drop, append-nil,
  append_assoc, All, All-append,
}
use audr.Record.{AudrRecord, FailedRecord, queue_full, dropped}
use audr.Pipeline.State.{
  Stopping, finished, is_stopping, closing, idle, Pipeline, begin_delivery, wake_idle, start_run,
  schedule, resume_run,
}
use audr.Pipeline.Submit.{
  submit_with, submit, resubmit, resubmit_quietly, resubmit_all, call_back, notify_failure,
  report_invalid,
}

abbrev pub is_past_drain : Stopping → Bool
is_past_drain closing = true
is_past_drain finished = true
is_past_drain _ = false

-- A batch holds at least one record and at most `batchMaxSize`.
abbrev pub IsBatch : ℕ → List AudrRecord → Type 0
IsBatch n b = (1 ≤ length b) × (length b ≤ n)

-- The batches handed to the sink, then what shutdown abandoned, then the queue, hold the queued
-- records in the order in which they were queued, each once.
pub record IsInOrder (p : Pipeline) : Type 0 where
  pub order : p.entered ≡ flatten p.handed ++ (p.abandoned ++ p.queue)
  pub early : (is_past_drain p.stopping ≡ true) ⊎ (p.abandoned ≡ [])
  pub late : (is_past_drain p.stopping ≡ false) ⊎ (p.queue ≡ [])
  pub sized : All (IsBatch p.batch_max_size) p.handed

flatten-snoc :
    (bs : List (List AudrRecord)) (b : List AudrRecord) → flatten (bs ++ b ∷ []) ≡ flatten bs ++ b
unfolding flatten
flatten-snoc [] b = append-nil b
flatten-snoc (c ∷ bs) b = rw (flatten-snoc bs b) (sym (append_assoc c (flatten bs) b))

take-IsBatch : (n : ℕ) (rs : List AudrRecord) → is_empty (take n rs) ≡ false → IsBatch n (take n rs)
take-IsBatch n rs h = ground (arith, length-take n rs)

pub take-nil : (n : ℕ) → take {A = AudrRecord} n [] ≡ []
take-nil zero = refl
take-nil (suc n) = refl

module _ (p : Pipeline) (e : is_empty (take p.batch_max_size p.queue) ≡ false)
    (v : IsInOrder p) where
  none_abandoned : p.abandoned ≡ []
  none_abandoned = ground (arith, take-nil p.batch_max_size)

  begin_delivery-order :
      p.entered
      ≡ flatten (p.handed ++ take p.batch_max_size p.queue ∷ [])
        ++ (p.abandoned ++ drop p.batch_max_size p.queue)
  begin_delivery-order = cc (
    v.order,
    none_abandoned,
    flatten-snoc p.handed (take p.batch_max_size p.queue),
    append_assoc (flatten p.handed) (take p.batch_max_size p.queue) (drop p.batch_max_size p.queue),
    take-append-drop p.batch_max_size p.queue,
  )

  pub begin_delivery-IsInOrder : IsInOrder (begin_delivery p)
  unfolding begin_delivery
  begin_delivery-IsInOrder = record {
    order = begin_delivery-order;
    early = inr none_abandoned;
    late = ground (arith, take-nil p.batch_max_size);
    sized = All-append _ p.handed _ v.sized (take-IsBatch p.batch_max_size p.queue e, tt);
  }

pub start_run-IsInOrder : (p : Pipeline) → IsInOrder p → IsInOrder (start_run p)
unfolding start_run wake_idle
start_run-IsInOrder p v =
    ground (arith, begin_delivery-IsInOrder (record p { linger_timer = false }))

pub schedule-IsInOrder : (p : Pipeline) → IsInOrder p → IsInOrder (schedule p)
unfolding schedule
schedule-IsInOrder p v = ground (arith, start_run-IsInOrder p v)

pub resume_run-IsInOrder : (p : Pipeline) → IsInOrder p → IsInOrder (resume_run p)
unfolding resume_run wake_idle
resume_run-IsInOrder p v =
    ground (arith, begin_delivery-IsInOrder p, schedule-IsInOrder (record p { running = idle }))

-- A record that enters goes to the end, while the pipeline is open.
enter-order :
    (p : Pipeline) (r : AudrRecord)
    → IsInOrder p
    → p.entered ++ r ∷ [] ≡ flatten p.handed ++ (p.abandoned ++ (p.queue ++ r ∷ []))
enter-order p r v = cc (
  v.order,
  append_assoc (flatten p.handed) (p.abandoned ++ p.queue) (r ∷ []),
  append_assoc p.abandoned p.queue (r ∷ []),
)

submit_with-IsInOrder :
    (notify : Pipeline → FailedRecord → Pipeline)
    → ((p : Pipeline) (f : FailedRecord) → IsInOrder p → IsInOrder (notify p f))
    → (p : Pipeline) (r : AudrRecord) → is_stopping p.stopping ≡ false
    → IsInOrder p
    → IsInOrder (submit_with notify p r).0
unfolding submit_with
submit_with-IsInOrder notify h p r open_ v = ground (
  arith,
  h (record p { submitted = p.submitted + 1; dropped_count = p.dropped_count + 1 })
      (record {
        item = r;
        disposition = dropped;
        reason = queue_full;
        retryable = true;
        detail = none;
      }),
  schedule-IsInOrder (record p {
    submitted = p.submitted + 1;
    queue = p.queue ++ r ∷ [];
    entered = p.entered ++ r ∷ [];
  }),
  enter-order p r v,
)

resubmit_quietly-IsInOrder :
    (p : Pipeline) (r : AudrRecord) → IsInOrder p → IsInOrder (resubmit_quietly p r)
unfolding resubmit_quietly
resubmit_quietly-IsInOrder p r v =
    ground (arith, submit_with-IsInOrder (λ (q : Pipeline) (f : FailedRecord). q) (λ q f w. w) p r)

module _ (again : Pipeline → AudrRecord → Pipeline)
    (keeps : (p : Pipeline) (r : AudrRecord) → IsInOrder p → IsInOrder (again p r)) where
  pub resubmit_all-IsInOrder :
      (p : Pipeline) (rs : List AudrRecord) → IsInOrder p → IsInOrder (resubmit_all again p rs)
  unfolding resubmit_all
  resubmit_all-IsInOrder p [] v = v
  resubmit_all-IsInOrder p (r ∷ rs) v = resubmit_all-IsInOrder (again p r) rs (keeps p r v)

call_back-IsInOrder :
    (callback : Option (FailedRecord → List AudrRecord)) (p : Pipeline) (f : FailedRecord)
    → IsInOrder p
    → IsInOrder (call_back callback p f)
unfolding call_back
call_back-IsInOrder none p f v = v
call_back-IsInOrder (some callback) p f v = ground (
  arith,
  resubmit_all-IsInOrder resubmit_quietly resubmit_quietly-IsInOrder
      (record p { notifying = true; failures = p.failures ++ f ∷ [] }) (callback f),
)

pub notify_failure-IsInOrder :
    (p : Pipeline) (f : FailedRecord) → IsInOrder p → IsInOrder (notify_failure p f)
unfolding notify_failure
notify_failure-IsInOrder p f v = call_back-IsInOrder p.on_failure p f v

pub resubmit-IsInOrder : (p : Pipeline) (r : AudrRecord) → IsInOrder p → IsInOrder (resubmit p r)
unfolding resubmit submit
resubmit-IsInOrder p r v =
    ground (arith, submit_with-IsInOrder notify_failure notify_failure-IsInOrder p r)

pub report_invalid-IsInOrder :
    (p : Pipeline) (r : AudrRecord) → IsInOrder p → IsInOrder (report_invalid p r)
unfolding report_invalid
report_invalid-IsInOrder p r v = notify_failure-IsInOrder p _ v
