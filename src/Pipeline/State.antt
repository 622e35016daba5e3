-- ===== src/Pipeline/State.antt =====
-- adapters/core/typescript/src/pipeline.ts: the state of the class `Pipeline` and the loop that
-- takes batches off the queue. Each function is a method, or a stretch of one between two `await`s.
use audr.Base.{
  ℕ, ◌+◌, Bool, true, false, not, ◌&&◌, ◌||◌, List, [], ◌∷◌, ◌++◌, map, Option, ltb, leb,
  if◌then◌else◌, length, take, drop, is_empty,
}
use audr.Record.{AudrRecord, Disposition, FailedRecord}

-- What a callback does is the list of records that it hands to `Client.record()` while it runs and
-- that pass validation there.
pub record PipelineOptions : Type 0 where
  pub max_queue_size : ℕ
  pub batch_max_size : ℕ
  pub owns_sink : Bool
  pub on_failure : Option (FailedRecord → List AudrRecord)
  pub on_delivered : Option (List AudrRecord → List AudrRecord)

pub data ItemState : Type 0 where
  in_flight sent : ItemState
  ended : Disposition → ItemState

pub record InFlight : Type 0 where
  pub item : AudrRecord
  pub state : ItemState

-- Where `#run` stands: not running, at the `await` of the sink, or back in `#run` after it.
-- `#delivering` is `true` in the last two.
pub data Running : Type 0 where
  idle awaiting_sink returned : Running

abbrev pub delivering : Running → Bool
delivering idle = false
delivering _ = true

abbrev pub is_awaiting_sink : Running → Bool
is_awaiting_sink awaiting_sink = true
is_awaiting_sink _ = false

abbrev pub has_returned : Running → Bool
has_returned returned = true
has_returned _ = false

-- Where `#stop` stands. `#stopped` is set and `#stopping` is defined in all but the first.
pub data Stopping : Type 0 where
  open_for_records draining closing finished : Stopping

abbrev pub is_stopping : Stopping → Bool
is_stopping open_for_records = false
is_stopping _ = true

abbrev pub is_draining : Stopping → Bool
is_draining draining = true
is_draining _ = false

abbrev pub is_closing : Stopping → Bool
is_closing closing = true
is_closing _ = false

-- The set `#inFlight` and the local `batch` of `#deliver` hold the same objects, so one list stands
-- for both. The fields from `handed` on are not read by the code: what went to the sink and to the
-- callbacks, what was ever queued, what
-- shutdown dropped from the queue, and whether `close()` of the sink was called.
pub record Pipeline : Type 0 where
  pub options : PipelineOptions
  pub open options use *
  pub queue : List AudrRecord
  pub items : List InFlight
  pub running : Running
  pub linger_timer : Bool
  pub drainers : ℕ
  pub stopping : Stopping
  pub idle_waiters : ℕ
  pub aborted : Bool
  pub notifying : Bool
  pub submitted : ℕ
  pub sent_count : ℕ
  pub dropped_count : ℕ
  pub unknown_count : ℕ
  pub batches : ℕ
  pub handed : List (List AudrRecord)
  pub failures : List FailedRecord
  pub deliveries : List (List AudrRecord)
  pub entered : List AudrRecord
  pub abandoned : List AudrRecord
  pub sink_closed : Bool

unfoldable pub fresh : PipelineOptions → Pipeline
fresh options = record {
  options = options;
  queue = [];
  items = [];
  running = idle;
  linger_timer = false;
  drainers = 0;
  stopping = open_for_records;
  idle_waiters = 0;
  aborted = false;
  notifying = false;
  submitted = 0;
  sent_count = 0;
  dropped_count = 0;
  unknown_count = 0;
  batches = 0;
  handed = [];
  failures = [];
  deliveries = [];
  entered = [];
  abandoned = [];
  sink_closed = false;
}

-- `#depth`
abbrev pub depth : Pipeline → ℕ
depth p = length p.queue + length p.items

-- `#batchDue`
abbrev pub batch_due : Pipeline → Bool
batch_due p = leb p.batch_max_size (length p.queue) || ltb 0 p.drainers || is_stopping p.stopping

-- `DeliveryStats`, without the capacity, which is `max_queue_size`.
pub record DeliveryStats : Type 0 where
  pub submitted : ℕ
  pub sent : ℕ
  pub dropped : ℕ
  pub unknown : ℕ
  pub batches : ℕ
  pub queue_depth : ℕ

unfoldable pub stats : Pipeline → DeliveryStats
stats p = record {
  submitted = p.submitted;
  sent = p.sent_count;
  dropped = p.dropped_count;
  unknown = p.unknown_count;
  batches = p.batches;
  queue_depth = depth p;
}

abbrev pub taken : AudrRecord → InFlight
taken r = record { item = r; state = in_flight }

-- `#deliver`, up to its call of the sink, whose promise is pending. `batch` is what `splice` took.
unfoldable pub begin_delivery : Pipeline → Pipeline
begin_delivery p =
    let batch = take p.batch_max_size p.queue in
    record p {
      queue = drop p.batch_max_size p.queue;
      items = p.items ++ map taken batch;
      running = awaiting_sink;
      handed = p.handed ++ batch ∷ [];
    }

-- The `finally` of `#run` on an empty queue.
unfoldable pub wake_idle : Pipeline → Pipeline
wake_idle p = record p { running = idle; idle_waiters = 0 }

-- `#run`, up to its first `await`. The queue is empty if the first batch is, as a batch may hold at
-- least one record; its `finally` then has nothing to schedule.
unfoldable pub start_run : Pipeline → Pipeline
unfolding begin_delivery wake_idle
start_run p =
    if delivering p.running
    then p
    else (let p' = record p { linger_timer = false } in
        if is_empty (take p'.batch_max_size p'.queue) then wake_idle p' else begin_delivery p')

-- `#schedule`
unfoldable pub schedule : Pipeline → Pipeline
unfolding start_run
schedule p =
    if delivering p.running || is_empty p.queue
    then p
    else if batch_due p
    then start_run p
    else record p { linger_timer = true }

-- `#run`, from the end of `#deliver` to the next `await` or to its own end.
unfoldable pub resume_run : Pipeline → Pipeline
unfolding schedule
resume_run p =
    if batch_due p && not (is_empty (take p.batch_max_size p.queue))
    then begin_delivery p
    else if is_empty p.queue
    then wake_idle p
    else schedule (record p { running = idle })
