-- ===== src/OpenRouter/Lookup.antt =====
-- adapters/openrouter/typescript/src/lookup.ts: the lookup of a generation within its budget. The clock and the answers
-- of `getGeneration` are parameters; times are whole numbers of some unit.
use audr.Base.{
  ℕ, zero, suc, ◌+◌, ◌*◌, min, Bool, not, ◌&&◌, ◌||◌, List, [], ◌∷◌, Option, none, some, String,
  leb, ltb, ◌==◌, if◌then◌else◌, names,
}
use audr.Base.Text.{is_digit}
use audr.Base.Result.{every, code_points}
use audr.Validate.Issues.{starts_with}
use audr.Adapters.Numbers.{Double}
use audr.Record.{Json}
use audr.OpenRouter.Mapping.{Facts, read_facts}

pub record LookupOptions : Type 0 where
  pub max_wait : ℕ
  pub initial_delay : ℕ
  pub max_delay : ℕ

pub data LookupFailureReason : Type 0 where
  disabled no_id rejected exhausted : LookupFailureReason

pub data LookupOutcome (W : Type 0) : Type 0 where
  found : Facts W → LookupOutcome W
  failed : LookupFailureReason → LookupOutcome W

-- What `retryable` reads of an error: its `statusCode`, if that is a number, whether it is an `Error`, and its name.
pub record Failure : Type 0 where
  pub status_code : Option ℕ
  pub is_error : Bool
  pub name : String

pub data Answer : Type 0 where
  answered : Json → Answer
  threw : Failure → Answer

abbrev pub retryable_status : ℕ → Bool
retryable_status status = status == 404 || status == 408 || status == 429

abbrev pub permanent_errors : List String
permanent_errors = "InvalidRequestError" ∷ "SDKValidationError" ∷ []

-- `retryable`
unfoldable pub retryable : Failure → Bool
unfolding names
retryable error = elim error.status_code [
  | some status ↦ retryable_status status || leb 500 status
  | none ↦ not (error.is_error && names permanent_errors error.name)
]

abbrev is_id_part : ℕ → Bool
is_id_part c = is_digit c || (leb b'A' c && leb c b'Z') || (leb b'a' c && leb c b'z') || c == b'-'

-- `isGenerationId`
unfoldable pub is_generation_id : String → Bool
unfolding every code_points starts_with
is_generation_id id =
    starts_with id "gen-"
    && every is_id_part id
    && ltb 4 (code_points id)
    && leb (code_points id) 128

-- The clock when `find` starts, and before and after request number `n`; and what that request comes to.
pub record Service : Type 0 where
  pub started : ℕ
  pub before : ℕ → ℕ
  pub after : ℕ → ℕ
  pub request : ℕ → Answer

-- What one round of the loop comes to, after its request: `later` is the next round.
unfoldable pub on_answer {ℓ} :
    {W : Type 0} {L : Type ℓ} ⦃d : Double W⦄ → (LookupOutcome W → L) → Bool → Answer → L → L
unfolding retryable read_facts
on_answer return is_over (answered response) later = return (found (read_facts response))
on_answer return is_over (threw error) later =
    if not (retryable error)
    then return (failed rejected)
    else if is_over
    then return (failed exhausted)
    else later

module _ {W : Type 0} ⦃d : Double W⦄ (s : Service) (o : LookupOptions) where
  -- The loop of `find`, with `n` requests made; with the number of requests made in the end. `none` is a loop
  -- that is not over within the fuel.
  unfoldable pub find_from : ℕ → ℕ → ℕ → Option (LookupOutcome W) × ℕ
  unfolding on_answer
  find_from zero delay n = (none, n)
  find_from (suc fuel) delay n =
      let later = find_from fuel (delay * 2) (n + 1) in
      let deadline = s.started + o.max_wait in
      if leb deadline (s.before n)
      then (some (failed exhausted), n)
      else on_answer (λ outcome. (some outcome, n + 1))
          (leb deadline (s.after n + min delay o.max_delay)) (s.request n) later

  -- `find`
  unfoldable pub find : ℕ → Option (LookupOutcome W) × ℕ
  unfolding find_from
  find fuel =
      if o.max_wait == 0 then (some (failed disabled), 0) else find_from fuel o.initial_delay 0
