-- ===== src/Chargebee/Retry.antt =====
-- sinks/chargebee/typescript/src/retry.ts: the delay that `Retry-After` asks for. `Date.parse` is a parameter.
use Prim.Native.Char.{code}
use audr.Base.{ℕ, ◌*◌, Option, none, some, String, ◌==◌, if◌then◌else◌}
use audr.Record.{Instant}
use audr.Retrying.Policy.{Floats, RetryPolicy, delay_ms}
use audr.Lago.Retry.{trim_start, trim_end, delay_seconds, from_now}

-- A number with its sign, in milliseconds and not below 0.
unfoldable pub signed_ms : String → Option ℕ
unfolding delay_seconds
signed_ms String.[] = none
signed_ms (String.◌∷◌ c s) =
    if code c == b'-'
    then elim (delay_seconds s) [ some n ↦ some 0 | none ↦ none ]
    else if code c == b'+'
    then elim (delay_seconds s) [ some n ↦ some (n * 1000) | none ↦ none ]
    else elim (delay_seconds (String.◌∷◌ c s)) [ some n ↦ some (n * 1000) | none ↦ none ]

-- `parseRetryAfterMs`
unfoldable pub parse_retry_after : (String → Instant) → ℕ → Option String → Option ℕ
unfolding signed_ms trim_start trim_end
parse_retry_after parse_date now none = none
parse_retry_after parse_date now (some value) = elim (signed_ms (trim_end (trim_start value))) [
  | some ms ↦ some ms
  | none ↦ from_now now (parse_date value)
]

abbrev as_float : {W : Type 0} ⦃f : Floats W⦄ → Option ℕ → Option W
as_float none = none
as_float ⦃f⦄ (some n) = some (f.of_nat n)

-- `delayMs`, whose hint is the `Retry-After` of the response.
unfoldable pub delay_ms_after :
    {W : Type 0} ⦃f : Floats W⦄ → (String → Instant) → ℕ → W → RetryPolicy W → W → Option String → W
unfolding parse_retry_after delay_ms
delay_ms_after parse_date now random p attempt retry_after =
    delay_ms random p attempt (as_float (parse_retry_after parse_date now retry_after))
