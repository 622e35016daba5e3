-- ===== src/Lago/Sink.antt =====
-- sinks/lago/typescript/src/sink.ts: `deliver` and the requests that it makes. The network is a
-- parameter: what each request comes to, in the order in which they are made. Delays, diagnostics and
-- the `catch` of `deliver`, for an error that none of these operations throws, are left out.
use Prim.Native.String
use audr.Base.{
  ℕ, zero, suc, ◌-◌, Bool, true, false, ◌||◌, List, [], ◌∷◌, ◌++◌, Option, none, some, String, ◌==◌,
  if◌then◌else◌, length, take, drop, is_empty,
}
use audr.Base.Text.{decimal}
use audr.Record.{Json, undefined, RejectedRecord, BatchResult}
use audr.Lago.Event.{LagoEvent}
use audr.Lago.Tally.{Stop, Tally, start, confirm, reject, refuse, halt, stopped, result}
use audr.Lago.Response.{
  StatusClass, classify_status, ValidationVerdict, InvalidEvent, parse_validation_errors,
  exceeds_batch_limit,
}

abbrev pub max_events_per_request : ℕ
max_events_per_request = 100

abbrev pub max_salvage_passes : ℕ
max_salvage_passes = 3

-- What `transport.post` comes to: `ClosedError`, `AbortedError`, any other error by the name that
-- `nameOf` gives it, or a response with its body as JSON (`undefined` if it is none).
pub data Reply : Type 0 where
  closed_error aborted_error : Reply
  network_error : String → Reply
  response : ℕ → Json → Reply

-- What request number `n` comes to, and what `#interruption` sees after it.
pub record World : Type 0 where
  pub reply : ℕ → Reply
  pub interruption : ℕ → Option Stop
  pub max_attempts : ℕ

-- A request: its events, whether a `422` to it may still be acted on, and what `transport.post` came to. The code does not read
-- them; the list of all of them says what was sent and what Lago answered.
pub record Post : Type 0 where
  pub events : List LagoEvent
  pub may_salvage : Bool
  pub reply : Reply

pub data Exchange : Type 0 where
  accepted : Exchange
  invalid : Json → Exchange
  stop : Stop → Exchange

-- One round of the loop of `#exchange`: its `return`, or the failure that a retry may mend.
pub data Attempt : Type 0 where
  done : Exchange → Attempt
  retry : Stop → Attempt

abbrev http : ℕ → String
http status = String.◌++◌ "http_" (decimal status)

abbrev pub is_undefined : Json → Bool
is_undefined undefined = true
is_undefined _ = false

abbrev pub or_invalid : Option Stop → Json → Exchange
or_invalid none body = invalid body
or_invalid (some s) body = stop s

-- The status classes of `#exchange`.
unfoldable pub respond : StatusClass → ℕ → Json → Option Stop → Attempt
unfolding decimal
respond StatusClass.invalid status body interruption =
    done (if is_undefined body then or_invalid interruption body else invalid body)
respond StatusClass.accepted status body interruption = done accepted
respond StatusClass.unconfirmed status body interruption = done (stop Stop.unconfirmed)
respond StatusClass.transient status body interruption = retry (Stop.failed true (http status))
respond StatusClass.credential status body interruption = done (stop (Stop.failed false "auth"))
respond StatusClass.forbidden status body interruption = done (stop (Stop.failed false "forbidden"))
respond StatusClass.too_large status body interruption =
    done (stop (Stop.failed false "payload_too_large"))
respond StatusClass.permanent status body interruption =
    done (stop (Stop.failed false (http status)))

unfoldable pub attempt : Reply → Option Stop → Attempt
unfolding respond classify_status
attempt closed_error interruption = done (stop Stop.closed)
attempt aborted_error interruption = done (stop Stop.aborted)
attempt (network_error name) interruption = retry (Stop.failed true name)
attempt (response status body) interruption =
    respond (classify_status status) status body interruption

module _ (world : World) (may_salvage : Bool) (events : List LagoEvent) where
  -- `transport.post`, after the requests that were made before it.
  abbrev pub post : List Post → List Post
  post posts =
      posts
      ++ record { events = events; may_salvage = may_salvage; reply = world.reply (length posts) }
        ∷ []

  -- The loop of `#exchange`, with `left` attempts after this one; with the requests made.
  unfoldable pub exchange_from : ℕ → List Post → Exchange × List Post
  unfolding attempt
  exchange_from zero posts =
      elim (attempt (world.reply (length posts)) (world.interruption (length posts))) [
        | done e ↦ (e, post posts)
        | retry s ↦ (stop s, post posts)
      ]
  exchange_from (suc left) posts =
      elim (attempt (world.reply (length posts)) (world.interruption (length posts))) [
        | done e ↦ (e, post posts)
        | retry s ↦ elim (world.interruption (length posts)) [
          | some interrupted ↦ (stop interrupted, post posts)
          | none ↦ exchange_from left (post posts)
        ]
      ]

  -- `#exchange`
  unfoldable pub exchange : List Post → Exchange × List Post
  unfolding exchange_from
  exchange posts = exchange_from (world.max_attempts - 1) posts

abbrev pub mentions : List ℕ → ℕ → Bool
mentions [] i = false
mentions (j ∷ js) i = j == i || mentions js i

-- `refusals.get(index)`; the indices are the keys of one object, so none occurs twice.
abbrev pub refusal_at : List InvalidEvent → ℕ → Option String
refusal_at [] i = none
refusal_at (r ∷ rs) i = let later = refusal_at rs i in if r.index == i then some r.detail else later

-- The body of the loop over `pending.entries()`.
unfoldable pub settle_event : Option String → Bool → LagoEvent → Tally → Tally × List LagoEvent
unfolding reject confirm
settle_event (some detail) is_duplicate event t = (reject t event.transaction_id detail, [])
settle_event none true event t = (confirm t (event ∷ []), [])
settle_event none false event t = (t, event ∷ [])

-- That loop, from position `i`; with the survivors.
unfoldable pub salvage : ValidationVerdict → ℕ → List LagoEvent → Tally → Tally × List LagoEvent
unfolding settle_event
salvage v i [] t = (t, [])
salvage v i (event ∷ events) t =
    let (t', kept) = settle_event (refusal_at v.invalid i) (mentions v.duplicates i) event t in
    let (t'', survivors) = salvage v (suc i) events t' in (t'', kept ++ survivors)

-- Why sending stopped, if it did, what is known then, and the requests made.
pub record Sent : Type 0 where
  pub halted : Option Stop
  pub tally : Tally
  pub posts : List Post

-- The end of the case of a `422` in `#deliverChunk`; `again` sends the survivors.
unfoldable pub act_on :
    (List LagoEvent → Tally → List Post → Sent)
    → Option ValidationVerdict
    → List LagoEvent
    → Tally
    → List Post
    → Sent
unfolding salvage refuse
act_on again none pending t posts = record {
  halted = some (Stop.failed false "http_422");
  tally = refuse t pending "http_422";
  posts = posts;
}
act_on again (some v) pending t posts =
    let (t', survivors) = salvage v 0 pending t in again survivors t' posts

-- The case of a `422`; `resend` is `none` once `MAX_SALVAGE_PASSES` responses were acted on.
unfoldable pub on_invalid :
    Option (List LagoEvent → Tally → List Post → Sent)
    → Json
    → List LagoEvent
    → Tally
    → List Post
    → Sent
unfolding act_on exceeds_batch_limit parse_validation_errors
on_invalid resend body pending t posts =
    if exceeds_batch_limit body
    then record {
      halted = some (Stop.failed false "too_many_events");
      tally = refuse t pending "too_many_events";
      posts = posts;
    }
    else elim resend [
      | none ↦ record { halted = some (Stop.failed false "http_422"); tally = t; posts = posts }
      | some again ↦ act_on again (parse_validation_errors body (length pending)) pending t posts
    ]

-- The `switch` of `#deliverChunk`.
unfoldable pub on_exchange :
    Option (List LagoEvent → Tally → List Post → Sent)
    → Exchange
    → List LagoEvent
    → Tally
    → List Post
    → Sent
unfolding on_invalid confirm refuse
on_exchange resend accepted pending t posts = record {
  halted = none;
  tally = confirm t pending;
  posts = posts;
}
on_exchange resend (invalid body) pending t posts = on_invalid resend body pending t posts
on_exchange resend (stop (Stop.failed false detail)) pending t posts = record {
  halted = some (Stop.failed false detail);
  tally = refuse t pending detail;
  posts = posts;
}
on_exchange resend (stop s) pending t posts = record { halted = some s; tally = t; posts = posts }

abbrev pub halt_by : Option Stop → Tally → Tally
halt_by none t = t
halt_by (some s) t = halt t s

module _ (world : World) where
  -- `#deliverChunk`, with `left` salvage passes to go and the requests made before.
  unfoldable pub deliver_chunk : ℕ → List LagoEvent → Tally → List Post → Sent
  unfolding exchange on_exchange
  deliver_chunk left [] t posts = record { halted = none; tally = t; posts = posts }
  deliver_chunk zero (e ∷ es) t posts =
      let (x, posts') = exchange world false (e ∷ es) posts in on_exchange none x (e ∷ es) t posts'
  deliver_chunk (suc left) (e ∷ es) t posts =
      let (x, posts') = exchange world true (e ∷ es) posts in
      on_exchange (some (deliver_chunk left)) x (e ∷ es) t posts'

  -- The loop of `#deliver` over the requests; each round takes an event at least.
  unfoldable pub deliver_from : ℕ → List LagoEvent → Tally → List Post → Tally × List Post
  unfolding deliver_chunk halt
  deliver_from zero events t posts = (t, posts)
  deliver_from (suc fuel) events t posts =
      let sent = deliver_chunk max_salvage_passes (take max_events_per_request events) t posts in
      let rest =
        deliver_from fuel (drop max_events_per_request events) (halt_by sent.halted sent.tally)
          sent.posts in
      if is_empty events || stopped t then (t, posts) else rest

  -- `#deliver`, of the events and the rejected records that `preflight` gives.
  unfoldable pub deliver : Bool → List LagoEvent → List RejectedRecord → BatchResult
  unfolding deliver_from start result
  deliver is_closed events rejected =
      if is_closed
      then BatchResult.closed
      else result (deliver_from (length events) events (start events rejected) []).0
