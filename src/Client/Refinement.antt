-- ===== src/Client/Refinement.antt =====
-- A client's calls are events of its pipeline.
use audr.Base.{
  ℕ, ◌≡◌, ◌≤◌, refl, ap, ◌∙◌, sym, Bool, true, false, List, [], ◌∷◌, ◌++◌, Option, none, some,
  String, arith, ltb, if◌then◌else◌, Bool-cases, inl, inr, subst,
}
use audr.Pipeline.Submit.{resubmit}
use audr.Base.{◌||◌}
use audr.Base.Result.{Result, ok, error}
use audr.Record.{AudrRecord, Json, ValidationIssue}
use audr.Pipeline.State.{PipelineOptions, Pipeline, fresh, is_stopping}
use audr.Pipeline.Steps.{Event, records, reports_invalid, flush_begins, stop_begins, step, run}
use audr.Pipeline.Validity.{IsValid}
use audr.Pipeline.Invariant.{run-IsValid}
use audr.Client.Options.{
  Number, ClientOptions, queue_size, batch_size, between, max_batch_size, checked, create,
  check_timeout,
}
use audr.Client.Calls.{
  Client, is_object, stamp, record_inspected, record_copy, record_value, flush, shutdown,
}

-- A call of the client, or something else that happens to its pipeline.
pub data Call : Type 0 where
  records_value : Json → Call
  flushes shuts_down : Number → Call
  happens : Event → Call

module _ (c : Client) where
  unfoldable pub call : Pipeline → Call → Pipeline
  unfolding record_value flush shutdown step
  call p (records_value v) = (record_value c p v).0
  call p (flushes t) = flush p t
  call p (shuts_down t) = shutdown p t
  call p (happens e) = step p e

  unfoldable pub calls : Pipeline → List Call → Pipeline
  unfolding call
  calls p [] = p
  calls p (x ∷ xs) = calls (call p x) xs

  inspected_events : Json → List ValidationIssue → AudrRecord → List Event
  inspected_events copy [] r = records r ∷ []
  inspected_events copy (_ ∷ _) r = if is_object copy then reports_invalid r ∷ [] else []

  copy_events : Option Json → List Event
  copy_events none = []
  copy_events (some copy) = inspected_events copy (c.inspect copy).issues (c.inspect copy).data_

  timeout_events : Option String → Event → List Event
  timeout_events none e = e ∷ []
  timeout_events (some message) e = []

  events_of : Call → List Event
  events_of (records_value v) = copy_events (c.structured_clone (stamp c.emitter v))
  events_of (flushes t) = timeout_events (check_timeout t) flush_begins
  events_of (shuts_down t) = timeout_events (check_timeout t) stop_begins
  events_of (happens e) = e ∷ []

  inspected-run :
      (p : Pipeline) (copy : Json) (issues : List ValidationIssue) (r : AudrRecord)
      → (if is_stopping p.stopping then p else (record_inspected p copy issues r).0)
        ≡ run p (inspected_events copy issues r)
  unfolding record_inspected run step resubmit inspected_events
  inspected-run p copy [] r = refl
  inspected-run p copy (i ∷ is) r = ground arith

  copy-run :
      (p : Pipeline) (copy : Option Json)
      → (if is_stopping p.stopping then p else (record_copy c p copy).0) ≡ run p (copy_events copy)
  unfolding record_copy run copy_events
  copy-run p none = ground arith
  copy-run p (some copy) = inspected-run p copy (c.inspect copy).issues (c.inspect copy).data_

  call-run : (p : Pipeline) (x : Call) → call p x ≡ run p (events_of x)
  unfolding call record_value flush shutdown run step events_of timeout_events
  call-run p (records_value v) = ground (arith, copy-run p (c.structured_clone (stamp c.emitter v)))
  call-run p (flushes t) = ground arith
  call-run p (shuts_down t) = ground arith
  call-run p (happens e) = refl

  all_events : List Call → List Event
  all_events [] = []
  all_events (x ∷ xs) = events_of x ++ all_events xs

  run-append : (p : Pipeline) (es fs : List Event) → run p (es ++ fs) ≡ run (run p es) fs
  unfolding run
  run-append p [] fs = refl
  run-append p (e ∷ es) fs = run-append (step p e) es fs

  calls-run : (p : Pipeline) (xs : List Call) → calls p xs ≡ run p (all_events xs)
  unfolding calls run all_events
  calls-run p [] = refl
  calls-run p (x ∷ xs) =
      ap (λ q. calls q xs) (call-run p x)
      ∙ calls-run (run p (events_of x)) xs
      ∙ sym (run-append p (events_of x) (all_events xs))

abbrev IsMade : Result Pipeline → Type 0
IsMade (ok p) =
    (o : PipelineOptions) × (p ≡ fresh o)
    × (1 ≤ o.max_queue_size)
    × (1 ≤ o.batch_max_size)
    × (o.batch_max_size ≤ max_batch_size)
IsMade (error message) = Unit

abbrev Within : ℕ → Option ℕ → Option ℕ → Type 0
Within low high none = Unit
Within low none (some n) = low ≤ n
Within low (some high) (some n) = (low ≤ n) × (n ≤ high)

between-Within : (low : ℕ) (high n : Option ℕ) → Within low high (between low high n)
between-Within low none none = tt
between-Within low (some high) none = tt
between-Within low none (some n) = elim (Bool-cases (ltb n low)) [
  | inl e ↦ rw e tt
  | inr e ↦ rw e (ground arith)
]
between-Within low (some high) (some n) = elim (Bool-cases (ltb n low || ltb high n)) [
  | inl e ↦ rw e tt
  | inr e ↦ rw e (ground arith)
]

checked-IsMade :
    (queue batch : Option ℕ) (linger : Bool) (found : Option String) (o : ClientOptions)
    → Within 1 none queue
    → Within 1 (some max_batch_size) batch
    → IsMade (checked queue batch linger found o)
unfolding checked
checked-IsMade none batch linger found o q b = tt
checked-IsMade (some queue) none linger found o q b = tt
checked-IsMade (some queue) (some batch) false found o q b = tt
checked-IsMade (some queue) (some batch) true (some summary) o q b = tt
checked-IsMade (some queue) (some batch) true none o q b = (_, refl, q, b.0, b.1)

create-IsMade : (validate : Json → List String) (o : ClientOptions) → IsMade (create validate o)
unfolding create
create-IsMade validate o =
    checked-IsMade _ _ _ _ o (between-Within 1 none (queue_size o))
      (between-Within 1 (some max_batch_size) (batch_size o))

-- A client that its constructor accepts: whatever values are recorded, valid or not, and however calls of `record`,
-- `flush` and `shutdown`, with valid timeouts or not, mix with timers and the sink's answers, its pipeline
-- stays valid; and the batch size that the pipeline is made with is at most 500.
pub calls-IsValid :
    (validate : Json → List String) (o : ClientOptions) (c : Client) (xs : List Call) {p : Pipeline}
    → create validate o ≡ ok p
    → IsValid (calls c p xs) × (p.batch_max_size ≤ 500)
unfolding fresh
calls-IsValid validate o c xs {p} e = go (subst IsMade e (create-IsMade validate o))
  where
    go : IsMade (ok p) → IsValid (calls c p xs) × (p.batch_max_size ≤ 500)
    go (made, same, q, b, high) =
        subst (λ p. IsValid (calls c p xs) × (p.batch_max_size ≤ 500)) (sym same)
          (
            subst IsValid (sym (calls-run c (fresh made) xs))
                (run-IsValid made (all_events c xs) b),
            high,
          )
