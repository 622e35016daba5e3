-- ===== src/Pipeline/Frame.antt =====
-- What happens while the pipeline is busy: records move to a terminal state, and callbacks queue
-- records or see them dropped, but no delivery starts.
use audr.Base.{
  ℕ, ◌+◌, ◌≤◌, ◌≡◌, refl, ap, suc, ◌⊎◌, String, Bool, true, false, ◌||◌, List, [], ◌∷◌, ◌++◌,
  Option, none, some, arith, leb, length, length-append,
}
use audr.Record.{
  AudrRecord, Disposition, dropped, unknown, FailureReason, queue_full, rejected, inconclusive,
  RejectedRecord, FailedRecord,
}
use audr.Pipeline.State.{
  InFlight, in_flight, sent, ended, ItemState, delivering, is_stopping, Pipeline, depth,
}
use audr.Pipeline.Submit.{
  submit_with, submit, resubmit, resubmit_quietly, resubmit_all, call_back, notify_failure,
}
use audr.Pipeline.Deliver.{
  mark_sent, count_ended, fail_from, fail, each_item, settle_item, apply_accepted, sent_records,
  call_delivered, notify_delivered,
}

-- How many items are still in flight.
abbrev pub live_one : ItemState → ℕ
live_one in_flight = 1
live_one _ = 0

abbrev pub live : List InFlight → ℕ
live [] = 0
live (i ∷ is) = live_one i.state + live is

-- The records that have an outcome, or are queued.
abbrev pub placed : Pipeline → ℕ
placed p = p.sent_count + p.dropped_count + p.unknown_count + length p.queue

-- From `p` to `q`, of `before` items in flight `after` are left.
pub record Moved (before after : ℕ) (p q : Pipeline) : Type 0 where
  pub options : q.options ≡ p.options
  pub items : q.items ≡ p.items
  pub running : q.running ≡ p.running
  pub stopping : q.stopping ≡ p.stopping
  pub timer : q.linger_timer ≡ p.linger_timer
  pub drainers : q.drainers ≡ p.drainers
  pub counted : q.submitted + placed p + before ≡ p.submitted + placed q + after
  pub longer : length p.queue ≤ length q.queue
  pub room : depth p ≤ p.max_queue_size → depth q ≤ q.max_queue_size
  pub waits : (delivering p.running ≡ true) ⊎ (q.queue ≡ p.queue)
  pub steady : (is_stopping p.stopping ≡ false) ⊎ (q.queue ≡ p.queue)

-- No submission can start a delivery.
abbrev pub Busy : Pipeline → Type 0
Busy p = (delivering p.running || is_stopping p.stopping || leb p.max_queue_size (depth p)) ≡ true

pub Moved-refl : (p : Pipeline) → Moved 0 0 p p
Moved-refl p = ground arith

pub Moved-trans :
    {a b c d : ℕ} {p q r : Pipeline} → Moved a b p q → Moved c d q r → Moved (a + c) (b + d) p r
Moved-trans g h = ground arith

pub Moved-Busy : {a b : ℕ} {p q : Pipeline} → Moved a b p q → Busy p → Busy q
Moved-Busy g b = ground arith

resubmit_quietly-Moved :
    (p : Pipeline) (r : AudrRecord) → Busy p → Moved 0 0 p (resubmit_quietly p r)
unfolding resubmit_quietly
resubmit_quietly-Moved p r b = ground (arith, length-append p.queue (r ∷ []))

resubmit_all-Moved :
    (p : Pipeline) (rs : List AudrRecord)
    → Busy p
    → Moved 0 0 p (resubmit_all resubmit_quietly p rs)
unfolding resubmit_all
resubmit_all-Moved p [] b = Moved-refl p
resubmit_all-Moved p (r ∷ rs) b =
    let g = resubmit_quietly-Moved p r b in
    Moved-trans g (resubmit_all-Moved (resubmit_quietly p r) rs (Moved-Busy g b))

call_back-Moved :
    (callback : Option (FailedRecord → List AudrRecord)) (p : Pipeline) (f : FailedRecord)
    → Busy p
    → Moved 0 0 p (call_back callback p f)
unfolding call_back
call_back-Moved none p f b = Moved-refl p
call_back-Moved (some callback) p f b = ground (
  arith,
  resubmit_all-Moved (record p { notifying = true; failures = p.failures ++ f ∷ [] }) (callback f)
      b,
)

-- Reporting a failure while busy changes only what the callback submits again.
pub notify_failure-Moved :
    (p : Pipeline) (f : FailedRecord) → Busy p → Moved 0 0 p (notify_failure p f)
unfolding notify_failure
notify_failure-Moved p f b = call_back-Moved p.on_failure p f b

-- What a loop's body does to one item.
abbrev pub Settles : (Pipeline → InFlight → Pipeline × InFlight) → Type 0
Settles body =
    (p : Pipeline) (i : InFlight)
    → Busy p
    → Moved (live_one i.state) (live_one (body p i).1.state) p (body p i).0

ended-Settles :
    (d : Disposition) (f : FailedRecord) (p : Pipeline)
    → Busy p
    → Moved 1 0 p (notify_failure (count_ended d p) f)
ended-Settles dropped f p b = ground (arith, notify_failure-Moved (count_ended dropped p) f b)
ended-Settles unknown f p b = ground (arith, notify_failure-Moved (count_ended unknown p) f b)

module _ (d : Disposition) (reason : FailureReason) (retryable : Bool)
    (detail : Option String) where
  fail_from-Settles :
      (s : ItemState) (p : Pipeline) (r : AudrRecord)
      → Busy p
      → Moved
          (live_one s)
          (live_one (fail_from d reason retryable detail s p r).1.state)
          p
          (fail_from d reason retryable detail s p r).0
  unfolding fail_from
  fail_from-Settles in_flight p r b = ended-Settles d _ p b
  fail_from-Settles sent p r b = Moved-refl p
  fail_from-Settles (ended _) p r b = Moved-refl p

  pub fail-Settles : Settles (fail d reason retryable detail)
  unfolding fail
  fail-Settles p i b = fail_from-Settles i.state p i.item b

mark_sent-Settles : Settles mark_sent
unfolding mark_sent
mark_sent-Settles p i b = ground arith

settle_item-Settles : (e : Option RejectedRecord) (u : Bool) → Settles (settle_item e u)
unfolding settle_item
settle_item-Settles (some e) u p i b = fail-Settles dropped rejected false e.detail p i b
settle_item-Settles none true p i b = fail-Settles unknown inconclusive true none p i b
settle_item-Settles none false p i b = mark_sent-Settles p i b

pub apply_accepted-Settles :
    (rejected_ : List RejectedRecord) (unknown_ : List String)
    → Settles (apply_accepted rejected_ unknown_)
unfolding apply_accepted
apply_accepted-Settles rejected_ unknown_ p i b = settle_item-Settles _ _ p i b

pub each_item-Moved :
    (body : Pipeline → InFlight → Pipeline × InFlight) (h : Settles body) (p : Pipeline)
    (is : List InFlight)
    → Busy p
    → Moved (live is) (live (each_item body p is).1) p (each_item body p is).0
unfolding each_item
each_item-Moved body h p [] b = Moved-refl p
each_item-Moved body h p (i ∷ is) b =
    let g = h p i b in Moved-trans g (each_item-Moved body h (body p i).0 is (Moved-Busy g b))

pub each_item-length :
    (body : Pipeline → InFlight → Pipeline × InFlight) (p : Pipeline) (is : List InFlight)
    → length (each_item body p is).1 ≡ length is
unfolding each_item
each_item-length body p [] = refl
each_item-length body p (i ∷ is) = ap suc (each_item-length body (body p i).0 is)

pub resubmit-Moved : (p : Pipeline) (r : AudrRecord) → Busy p → Moved 0 0 p (resubmit p r)
unfolding resubmit submit submit_with
resubmit-Moved p r b = ground (
  arith,
  length-append p.queue (r ∷ []),
  notify_failure-Moved
      (record p { submitted = p.submitted + 1; dropped_count = p.dropped_count + 1 })
      (record {
        item = r;
        disposition = dropped;
        reason = queue_full;
        retryable = true;
        detail = none;
      }),
)

resubmits-Moved :
    (p : Pipeline) (rs : List AudrRecord) → Busy p → Moved 0 0 p (resubmit_all resubmit p rs)
unfolding resubmit_all
resubmits-Moved p [] b = Moved-refl p
resubmits-Moved p (r ∷ rs) b =
    let g = resubmit-Moved p r b in
    Moved-trans g (resubmits-Moved (resubmit p r) rs (Moved-Busy g b))

call_delivered-Moved :
    (callback : Option (List AudrRecord → List AudrRecord)) (p : Pipeline)
    → Busy p
    → Moved 0 0 p (call_delivered callback p)
unfolding call_delivered
call_delivered-Moved none p b = Moved-refl p
call_delivered-Moved (some callback) p b = ground (
  arith,
  resubmits-Moved (record p { deliveries = p.deliveries ++ sent_records p.items ∷ [] })
      (callback (sent_records p.items)) b,
)

pub notify_delivered-Moved : (p : Pipeline) → Busy p → Moved 0 0 p (notify_delivered p)
unfolding notify_delivered
notify_delivered-Moved p b = call_delivered-Moved p.on_delivered p b
