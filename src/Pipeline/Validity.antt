-- ===== src/Pipeline/Validity.antt =====
-- What holds of the pipeline between any two events, and that scheduling and submitting keep it.
use audr.Base.{
  ℕ, zero, suc, ◌+◌, ◌≤◌, ◌≡◌, refl, ◌⊎◌, inl, true, false, List, [], ◌∷◌, ◌++◌, map, Option, none,
  some, arith, if◌then◌else◌, length, take, is_empty, length-append, length-take, length-drop,
  length-map,
}
use audr.Record.{AudrRecord, FailedRecord, queue_full, dropped}
use audr.Pipeline.State.{
  InFlight, delivering, is_awaiting_sink, idle, Pipeline, depth, batch_due, taken, begin_delivery,
  wake_idle, start_run, schedule, resume_run,
}
use audr.Pipeline.Submit.{
  submit_with, submit, resubmit, resubmit_quietly, resubmit_all, call_back, notify_failure,
  report_invalid,
}
use audr.Pipeline.Frame.{live, placed, Moved}

-- Every submitted record is counted once; the queue and the items in flight stay within the capacity;
-- a batch is in flight only while it is with the sink, and is no larger than allowed.
pub record IsCounted (p : Pipeline) : Type 0 where
  pub positive : 1 ≤ p.batch_max_size
  pub balanced : p.submitted ≡ placed p + live p.items
  pub bounded : depth p ≤ p.max_queue_size
  pub single : length p.items ≤ (if is_awaiting_sink p.running then p.batch_max_size else 0)

-- Queued work is being delivered, or waits for the timer while no batch is due.
abbrev pub IsPrompt : Pipeline → Type 0
IsPrompt p =
    (delivering p.running ≡ true)
    ⊎ (p.queue ≡ [])
    ⊎ ((p.linger_timer ≡ true) × (batch_due p ≡ false))

pub record IsValid (p : Pipeline) : Type 0 where
  pub counted : IsCounted p
  pub prompt : IsPrompt p

pub live-append : (xs ys : List InFlight) → live (xs ++ ys) ≡ live xs + live ys
live-append [] ys = omega arith
live-append (x ∷ xs) ys = omega (arith, live-append xs ys)

pub live-taken : (rs : List AudrRecord) → live (map taken rs) ≡ length rs
live-taken [] = refl
live-taken (r ∷ rs) = omega (arith, live-taken rs)

pub live-nil : (is : List InFlight) → length is ≤ 0 → live is ≡ 0
live-nil [] h = refl
live-nil (i ∷ is) h = absurd (omega arith)

-- The batch that is taken leaves the queue and enters the items in flight.
pub begin_delivery-IsCounted :
    (p : Pipeline) → IsCounted p → length p.items ≤ 0 → IsCounted (begin_delivery p)
unfolding begin_delivery
begin_delivery-IsCounted p v none_left = record {
  positive = v.positive;
  balanced = omega (
    arith,
    v.balanced,
    length-take n p.queue,
    length-drop n p.queue,
    live-append p.items (map taken batch),
    live-taken batch,
    live-nil p.items none_left,
  );
  bounded = omega (
    arith,
    v.bounded,
    length-take n p.queue,
    length-drop n p.queue,
    length-append p.items (map taken batch),
    length-map taken batch,
  );
  single = omega (
    arith,
    length-take n p.queue,
    length-append p.items (map taken batch),
    length-map taken batch,
  );
}
  where
    n : ℕ
    n = p.batch_max_size

    batch : List AudrRecord
    batch = take n p.queue

pub begin_delivery-IsValid :
    (p : Pipeline) → IsCounted p → length p.items ≤ 0 → IsValid (begin_delivery p)
begin_delivery-IsValid p v none_left = record {
  counted = begin_delivery-IsCounted p v none_left;
  prompt = unfold begin_delivery in inl refl;
}

pub is_empty-take : (n : ℕ) (rs : List AudrRecord) → 1 ≤ n → is_empty (take n rs) ≡ is_empty rs
is_empty-take zero rs h = absurd (omega arith)
is_empty-take (suc n) [] h = refl
is_empty-take (suc n) (r ∷ rs) h = refl

pub is_empty→nil : (rs : List AudrRecord) → is_empty rs ≡ true → rs ≡ []
is_empty→nil [] h = refl
is_empty→nil (r ∷ rs) h = cc

-- A run that starts takes a batch, or the queue is empty.
pub start_run-IsValid : (p : Pipeline) → IsCounted p → IsValid (start_run p)
unfolding start_run wake_idle
start_run-IsValid p v = ground (
  arith,
  begin_delivery-IsValid (record p { linger_timer = false }),
  is_empty-take p.batch_max_size p.queue v.positive,
  is_empty→nil p.queue,
)

pub schedule-IsValid : (p : Pipeline) → IsCounted p → IsValid (schedule p)
unfolding schedule
schedule-IsValid p v = ground (arith, start_run-IsValid p v, is_empty→nil p.queue)

pub resume_run-IsValid : (p : Pipeline) → IsCounted p → length p.items ≤ 0 → IsValid (resume_run p)
unfolding resume_run wake_idle
resume_run-IsValid p v none_left = ground (
  arith,
  begin_delivery-IsValid p v none_left,
  schedule-IsValid (record p { running = idle }),
  is_empty→nil p.queue,
)

pub Moved-IsValid : {p q : Pipeline} → IsValid p → Moved 0 0 p q → IsValid q
Moved-IsValid v m = record { counted = ground arith; prompt = ground arith }

pub resubmit_quietly-IsValid :
    (p : Pipeline) (r : AudrRecord) → IsValid p → IsValid (resubmit_quietly p r)
unfolding resubmit_quietly
resubmit_quietly-IsValid p r v = ground (
  arith,
  schedule-IsValid (record p {
    submitted = p.submitted + 1;
    queue = p.queue ++ r ∷ [];
    entered = p.entered ++ r ∷ [];
  }),
  length-append p.queue (r ∷ []),
)

pub resubmit_all-IsValid :
    (resubmit : Pipeline → AudrRecord → Pipeline)
    → ((p : Pipeline) (r : AudrRecord) → IsValid p → IsValid (resubmit p r))
    → (p : Pipeline) (rs : List AudrRecord) → IsValid p
    → IsValid (resubmit_all resubmit p rs)
unfolding resubmit_all
resubmit_all-IsValid resubmit h p [] v = v
resubmit_all-IsValid resubmit h p (r ∷ rs) v = resubmit_all-IsValid resubmit h _ rs (h p r v)

pub call_back-IsValid :
    (callback : Option (FailedRecord → List AudrRecord)) (p : Pipeline) (f : FailedRecord)
    → IsValid p
    → IsValid (call_back callback p f)
unfolding call_back
call_back-IsValid none p f v = v
call_back-IsValid (some callback) p f v = ground (
  arith,
  resubmit_all-IsValid resubmit_quietly resubmit_quietly-IsValid
      (record p { notifying = true; failures = p.failures ++ f ∷ [] }) (callback f),
)

pub notify_failure-IsValid :
    (p : Pipeline) (f : FailedRecord) → IsValid p → IsValid (notify_failure p f)
unfolding notify_failure
notify_failure-IsValid p f v = call_back-IsValid p.on_failure p f v

pub submit-IsValid : (p : Pipeline) (r : AudrRecord) → IsValid p → IsValid (submit p r).0
unfolding submit submit_with
submit-IsValid p r v = ground (
  arith,
  schedule-IsValid (record p {
    submitted = p.submitted + 1;
    queue = p.queue ++ r ∷ [];
    entered = p.entered ++ r ∷ [];
  }),
  length-append p.queue (r ∷ []),
  notify_failure-IsValid
      (record p { submitted = p.submitted + 1; dropped_count = p.dropped_count + 1 })
      (record {
        item = r;
        disposition = dropped;
        reason = queue_full;
        retryable = true;
        detail = none;
      }),
)

pub resubmit-IsValid : (p : Pipeline) (r : AudrRecord) → IsValid p → IsValid (resubmit p r)
unfolding resubmit
resubmit-IsValid p r v = ground (arith, submit-IsValid p r v)

pub report_invalid-IsValid :
    (p : Pipeline) (r : AudrRecord) → IsValid p → IsValid (report_invalid p r)
unfolding report_invalid
report_invalid-IsValid p r v = notify_failure-IsValid p _ v
