-- ===== src/Pipeline/Drain.antt =====
-- A shutdown whose sink answers every batch empties the queue.
use audr.Base.{
  suc, ◌+◌, ◌≤◌, ◌<◌, ◌≡◌, refl, ◌⊎◌, inl, inr, true, false, List, [], ◌∷◌, none, arith, length,
  length-drop, Bool-cases,
}
use audr.Record.{
  BatchResult, accepted, retryable_failure, permanent_failure, closed, unknown, dropped,
  sink_failure, sink_closed, inconclusive,
}
use audr.Pipeline.State.{
  InFlight, delivering, is_awaiting_sink, has_returned, is_stopping, is_draining, Pipeline,
  begin_delivery, wake_idle, resume_run,
}
use audr.Pipeline.Deliver.{
  fail, update_items, notify_delivered, apply, Answer, result, no_outcome, no_object, threw,
  take_answer, finish_delivery,
}
use audr.Pipeline.Steps.{run_resumes, sink_answers, step}
use audr.Pipeline.Frame.{
  Settles, fail-Settles, apply_accepted-Settles, notify_delivered-Moved, each_item-Moved,
}
use audr.Pipeline.Validity.{IsValid, is_empty-take, is_empty→nil}
use audr.Pipeline.Settling.{stopping→Busy}
use audr.Pipeline.Invariant.{step-IsValid, sink_answers-IsValid}

-- The sink answers, and `#run` goes on, once for each answer.
pub rounds : Pipeline → List Answer → Pipeline
rounds p [] = p
rounds p (a ∷ rest) = rounds (step (step p (sink_answers a)) run_resumes) rest

-- Nothing is queued once stopping.
record Holds (p q : Pipeline) : Type 0 where
  queue : q.queue ≡ p.queue
  stopping : q.stopping ≡ p.stopping

abbrev Stops : Pipeline → Type 0
Stops p = is_stopping p.stopping ≡ true

Holds-trans : {p q r : Pipeline} → Holds p q → Holds q r → Holds p r
Holds-trans g h = ground arith

update_items-Holds :
    (body : Pipeline → InFlight → Pipeline × InFlight) (h : Settles body) (p : Pipeline)
    → Stops p
    → Holds p (update_items body p)
unfolding update_items
update_items-Holds body h p s = ground (arith, each_item-Moved body h p p.items (stopping→Busy p s))

notify_delivered-Holds : (p : Pipeline) → Stops p → Holds p (notify_delivered p)
notify_delivered-Holds p s = ground (arith, notify_delivered-Moved p (stopping→Busy p s))

apply-Holds : (p : Pipeline) (r : BatchResult) → Stops p → Holds p (apply p r)
unfolding apply
apply-Holds p (accepted rejected_ unknown_) s =
    let g = update_items-Holds _ (apply_accepted-Settles rejected_ unknown_) p s in
    Holds-trans g (notify_delivered-Holds _ (rw g.stopping s))
apply-Holds p (retryable_failure detail) s =
    update_items-Holds _ (fail-Settles dropped sink_failure true detail) p s
apply-Holds p (permanent_failure detail) s =
    update_items-Holds _ (fail-Settles dropped sink_failure false detail) p s
apply-Holds p closed s = update_items-Holds _ (fail-Settles dropped sink_closed true none) p s

take_answer-Holds : (p : Pipeline) (a : Answer) → Stops p → Holds p (take_answer p a)
unfolding take_answer
take_answer-Holds p (result r) s =
    ground (arith, apply-Holds (record p { batches = p.batches + 1 }) r s)
take_answer-Holds p no_outcome s = ground arith
take_answer-Holds p no_object s = ground arith
take_answer-Holds p threw s = ground arith

finish_delivery-Holds : (p : Pipeline) (a : Answer) → Stops p → Holds p (finish_delivery p a)
unfolding finish_delivery
finish_delivery-Holds p a s =
    let g = take_answer-Holds p a s in
    let h =
      update_items-Holds (fail unknown inconclusive true none)
        (fail-Settles unknown inconclusive true none) (take_answer p a) (rw g.stopping s) in
    ground arith

finish_delivery-returned :
    (p : Pipeline) (a : Answer) → has_returned (finish_delivery p a).running ≡ true
unfolding finish_delivery
finish_delivery-returned p a = refl

-- What a draining pipeline looks like between two rounds.
pub record IsDraining (p : Pipeline) : Type 0 where
  pub valid : IsValid p
  pub draining : is_draining p.stopping ≡ true
  pub between : has_returned p.running ≡ false

record Resumed (p q : Pipeline) : Type 0 where
  between : has_returned q.running ≡ false
  stopping : q.stopping ≡ p.stopping
  progress :
      (q.queue ≡ []) × (delivering q.running ≡ false) ⊎ (suc (length q.queue) ≤ length p.queue)

resume_run-Resumed : (p : Pipeline) → Stops p → 1 ≤ p.batch_max_size → Resumed p (resume_run p)
unfolding resume_run begin_delivery wake_idle
resume_run-Resumed p s positive = ground (
  arith,
  length-drop p.batch_max_size p.queue,
  is_empty-take p.batch_max_size p.queue positive,
  is_empty→nil p.queue,
)

Resumed-from : {p q r : Pipeline} → Resumed q r → Holds p q → Resumed p r
Resumed-from r h = ground arith

-- Nothing more happens once the queue is empty and nothing is at the sink.
rounds-idle :
    (p : Pipeline) (answers : List Answer)
    → IsDraining p
    → p.queue ≡ []
    → delivering p.running ≡ false
    → ((rounds p answers).queue ≡ []) × (delivering (rounds p answers).running ≡ false)
unfolding rounds step
rounds-idle p [] v q d = (q, d)
rounds-idle p (a ∷ rest) v q d = ground (arith, rounds-idle p rest v q d)

module _ (p : Pipeline) (a : Answer) (v : IsDraining p) where
  abbrev answered : Pipeline
  answered = step p (sink_answers a)

  abbrev next : Pipeline
  next = step answered run_resumes

  idle_round :
      is_awaiting_sink p.running ≡ false
      → (next ≡ p) × (p.queue ≡ []) × (delivering p.running ≡ false)
  unfolding step
  idle_round e = (rw e (rw v.between refl), ground arith, ground arith)

  -- The answer is taken with the queue as it was, and `#run` goes on with the next batch or ends.
  busy_round : is_awaiting_sink p.running ≡ true → Resumed p next
  unfolding step
  busy_round e =
      let h = finish_delivery-Holds p a (ground arith) in
      let valid = sink_answers-IsValid p a v.valid e in
      let r =
        resume_run-Resumed (finish_delivery p a) (rw h.stopping (ground arith))
          valid.counted.positive in
      rw e (rw (finish_delivery-returned p a) (Resumed-from r h))

  next-IsValid : IsValid next
  next-IsValid = step-IsValid answered run_resumes (step-IsValid p (sink_answers a) v.valid)

  next-IsDraining : IsDraining next
  next-IsDraining = elim (Bool-cases (is_awaiting_sink p.running)) [
    | inl e ↦
        let r = busy_round e in
        record { valid = next-IsValid; draining = rw r.stopping v.draining; between = r.between }
    | inr e ↦ rw (idle_round e).0 v
  ]

  next_progress :
      (next.queue ≡ []) × (delivering next.running ≡ false)
      ⊎ (suc (length next.queue) ≤ length p.queue)
  next_progress = elim (Bool-cases (is_awaiting_sink p.running)) [
    | inl e ↦ (busy_round e).progress
    | inr e ↦ let (same, q, d) = idle_round e in rw same (inl (q, d))
  ]

-- From any valid pipeline that drains for a shutdown, between two rounds of `#run`: when the sink has
-- answered as many times as there are records queued, and once more, the queue is empty and no
-- batch is at the sink, whatever the answers are and whatever the callbacks submit.
pub rounds-done :
    (p : Pipeline) (answers : List Answer)
    → IsDraining p
    → length p.queue < length answers
    → ((rounds p answers).queue ≡ []) × (delivering (rounds p answers).running ≡ false)
unfolding rounds
rounds-done p [] v h = absurd (omega arith)
rounds-done p (a ∷ rest) v h = elim (next_progress p a v) [
  | inl (q, d) ↦ rounds-idle (next p a v) rest (next-IsDraining p a v) q d
  | inr shorter ↦ rounds-done (next p a v) rest (next-IsDraining p a v) (omega arith)
]
