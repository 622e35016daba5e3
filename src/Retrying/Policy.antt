-- ===== src/Retrying/Policy.antt =====
-- sinks/lago/typescript/src/retry.ts: the class `RetryPolicy`; that of sinks/chargebee/typescript/src/retry.ts is the same, but that its
-- `delayMs` reads `Retry-After` itself. The numbers of JavaScript are a parameter, and so is what `Math.random()` gives.
use audr.Base.{ℕ, Bool, true, false, not, Option, none, some, String}
use audr.Base.Result.{Result, ok, error, or_else}

-- `below a b` is `a < b`.
pub record Floats (W : Type 0) : Type 0 where
  pub of_nat : ℕ → W
  pub is_integer : W → Bool
  pub is_finite : W → Bool
  pub below : W → W → Bool
  pub minimum : W → W → W
  pub maximum : W → W → W
  pub times : W → W → W
  pub power : W → W → W
  pub minus_one : W → W

pub record RetryOptions (W : Type 0) : Type 0 where
  pub max_attempts : Option W
  pub initial_backoff_ms : Option W
  pub max_backoff_ms : Option W
  pub multiplier : Option W

pub record RetryPolicy (W : Type 0) : Type 0 where
  pub max_attempts : W
  pub initial_backoff_ms : W
  pub max_backoff_ms : W
  pub multiplier : W

abbrev pub max_delay_ms : ℕ
max_delay_ms = 2147483647

abbrev pub fault_if : Bool → String → Option String
fault_if true message = some message
fault_if false message = none

module _ {W : Type 0} ⦃f : Floats W⦄ where
  abbrev pub or_default : Option W → ℕ → W
  or_default none n = f.of_nat n
  or_default (some w) n = w

  -- `finite`; a message without the name and the bound.
  unfoldable pub finite : W → ℕ → Option String
  finite w least =
      or_else (fault_if (not (f.is_finite w)) "must be a finite number")
        (fault_if (f.below w (f.of_nat least)) "must be at least")

  abbrev pub defaulted : RetryOptions W → RetryPolicy W
  defaulted options = record {
    max_attempts = or_default options.max_attempts 3;
    initial_backoff_ms = or_default options.initial_backoff_ms 500;
    max_backoff_ms = or_default options.max_backoff_ms 30000;
    multiplier = or_default options.multiplier 2;
  }

  -- The first test that fails.
  unfoldable pub fault_of : RetryPolicy W → Option String
  unfolding finite
  fault_of p =
      or_else (fault_if (not (f.is_integer p.max_attempts)) "maxAttempts must be an integer") (
        or_else (fault_if (f.below p.max_attempts (f.of_nat 1)) "maxAttempts must be at least 1") (
          or_else (finite p.initial_backoff_ms 0) (
            or_else (finite p.max_backoff_ms 0) (
              or_else (finite p.multiplier 1) (
                fault_if (f.below (f.of_nat max_delay_ms) p.max_backoff_ms)
                  "maxBackoffMs must be at most 2147483647")))))

  abbrev pub unless_fault : Option String → RetryPolicy W → Result (RetryPolicy W)
  unless_fault none p = ok p
  unless_fault (some message) p = error message

  -- The constructor.
  unfoldable pub create_policy : RetryOptions W → Result (RetryPolicy W)
  unfolding fault_of
  create_policy options = unless_fault (fault_of (defaulted options)) (defaulted options)

  -- The backoff of an attempt before it is capped.
  abbrev pub backoff : RetryPolicy W → W → W
  backoff p attempt = f.times p.initial_backoff_ms (f.power p.multiplier (f.minus_one attempt))

  -- The argument of `Math.random()` times the ceiling.
  abbrev pub jittered : W → RetryPolicy W → W → W
  jittered random p attempt = f.times random (f.minimum p.max_backoff_ms (backoff p attempt))

  abbrev pub hinted : RetryPolicy W → W → Option W → W
  hinted p jitter none = jitter
  hinted p jitter (some hint) = f.minimum p.max_backoff_ms (f.maximum jitter hint)

  -- `delayMs`
  unfoldable pub delay_ms : W → RetryPolicy W → W → Option W → W
  delay_ms random p attempt hint = hinted p (jittered random p attempt) hint
