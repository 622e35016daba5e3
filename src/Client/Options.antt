-- ===== src/Client/Options.antt =====
-- adapters/core/typescript/src/client.ts: what the constructor and `checkTimeout` accept. A
-- `ConfigurationError` is its message.
use Prim.Native.String
use audr.Base.{
  ℕ, suc, ◌*◌, ◌%◌, ◌/◌, Bool, true, false, not, ◌&&◌, ◌||◌, List, [], ◌∷◌, Option, none, some,
  String, ltb, leb, ◌==◌, if◌then◌else◌,
}
use audr.Base.Result.{Result, ok, error, join}
use audr.Record.{AudrRecord, FailedRecord, Json}
use audr.Pipeline.State.{Pipeline, fresh}

-- A number of JavaScript: NaN, an infinity, or `n / (d + 1)` with its sign.
pub data Number : Type 0 where
  nan : Number
  infinite : Bool → Number
  finite : Bool → ℕ → ℕ → Number

abbrev whole : ℕ → Number
whole n = finite false n 0

-- The integer that a number is, if it is one and not below 0.
abbrev pub natural : Number → Option ℕ
natural (finite false n d) = if n % suc d == 0 then some (n / suc d) else none
natural (finite true n d) = if n == 0 then some 0 else none
natural _ = none

-- `x >= 0`
abbrev pub is_nonnegative : Number → Bool
is_nonnegative nan = false
is_nonnegative (infinite negative) = not negative
is_nonnegative (finite negative n d) = not negative || n == 0

abbrev pub max_batch_size : ℕ
max_batch_size = 500

abbrev pub max_timer_ms : ℕ
max_timer_ms = 2147483647

-- `checkTimeout`, of a number.
unfoldable pub check_timeout : Number → Option String
check_timeout t = if is_nonnegative t then none else some "timeoutMs must be a number >= 0"

-- The check of `lingerMs`.
abbrev pub is_linger : Number → Bool
is_linger (finite negative n d) = (not negative || n == 0) && leb n (max_timer_ms * suc d)
is_linger _ = false

abbrev pub between : ℕ → Option ℕ → Option ℕ → Option ℕ
between low high none = none
between low none (some n) = if ltb n low then none else some n
between low (some high) (some n) = if ltb n low || ltb high n then none else some n

-- An option that is left out is `none`; `emitter` is what `validate` finds wrong with it.
pub record ClientOptions : Type 0 where
  pub max_queue_size : Option Number
  pub batch_max_size : Option Number
  pub linger_ms : Option Number
  pub owns_sink : Option Bool
  pub emitter : Option Json
  pub on_failure : Option (FailedRecord → List AudrRecord)
  pub on_delivered : Option (List AudrRecord → List AudrRecord)

abbrev given {ℓ} : {A : Type ℓ} → Option A → A → A
given none default = default
given (some a) default = a

unfoldable pub checked :
    Option ℕ → Option ℕ → Bool → Option String → ClientOptions → Result Pipeline
unfolding fresh
checked none batch linger found o = error "maxQueueSize must be an integer >= 1"
checked (some queue) none linger found o = error "batchMaxSize must be an integer from 1 to 500"
checked (some queue) (some batch) false found o =
    error "lingerMs must be a number from 0 to 2147483647"
checked (some queue) (some batch) true (some summary) o =
    error (String.◌++◌ "emitter is invalid: " summary)
checked (some queue) (some batch) true none o = ok (
    fresh (record {
      max_queue_size = queue;
      batch_max_size = batch;
      owns_sink = given o.owns_sink true;
      on_failure = o.on_failure;
      on_delivered = o.on_delivered;
    }))

-- The summary of what `validate` finds of the emitter, `none` if it finds nothing.
abbrev pub summary_of : (Json → List String) → Option Json → Option String
summary_of validate none = none
summary_of validate (some emitter) = elim (validate emitter) [
  | [] ↦ none
  | issue ∷ issues ↦ some (join "; " (issue ∷ issues))
]

-- `maxQueueSize` and `batchMaxSize`, with their defaults, if they are integers not below 0.
abbrev pub queue_size : ClientOptions → Option ℕ
queue_size o = natural (given o.max_queue_size (whole 1000))

abbrev pub batch_size : ClientOptions → Option ℕ
batch_size o = natural (given o.batch_max_size (whole 50))

-- The constructor, with a sink that has its two methods. `validate` gives the `code at path` of each issue
-- of the emitter.
unfoldable pub create : (Json → List String) → ClientOptions → Result Pipeline
unfolding checked join
create validate o =
    checked (between 1 none (queue_size o)) (between 1 (some max_batch_size) (batch_size o))
      (is_linger (given o.linger_ms (whole 5000))) (summary_of validate o.emitter) o
