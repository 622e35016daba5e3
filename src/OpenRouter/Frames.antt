-- ===== src/OpenRouter/Frames.antt =====
-- adapters/openrouter/typescript/src/openrouter.ts: how the frames of a stream are inspected, and of mapping.ts there
-- `isTerminalType` and `terminalErrorCode`. The time that a call took is a parameter.
use audr.Base.{Bool, true, false, not, ◌||◌, [], Option, none, some, String, str_eq, if◌then◌else◌}
use audr.Record.{Json, undefined, null, str, get}
use audr.Adapters.Numbers.{Double}
use audr.Adapters.Scope.{first_of}
use audr.OpenRouter.Mapping.{
  Router, Observation, read_router, is_record, chat_observation, responses_observation,
  chat_failed_code, response_failed_code, response_incomplete_code,
}
use audr.OpenRouter.Meter.{Host, Call, record_observed}
use audr.OpenRouter.Stream.{Verdict, continue, recorded, no_usage, error, Inspection}

-- What `#inspectChat` keeps.
pub record ChatState : Type 0 where
  pub router : Option Router
  pub failed : Bool

abbrev pub chat_start : ChatState
chat_start = record { router = none; failed = false }

-- `value == null`
abbrev pub is_nullish : Json → Bool
is_nullish undefined = true
is_nullish null = true
is_nullish _ = false

-- A terminal type of a Responses event, with its error code: `isTerminalType` and `terminalErrorCode`.
unfoldable pub terminal_code : Json → Option (Option String)
terminal_code (str s) =
    if str_eq s "response.completed"
    then some none
    else if str_eq s "response.failed"
    then some (some response_failed_code)
    else if str_eq s "response.incomplete"
    then some (some response_incomplete_code)
    else none
terminal_code _ = none

abbrev pub is_error_type : Json → Bool
is_error_type (str s) = str_eq s "error"
is_error_type _ = false

module _ {W : Type 0} ⦃d : Double W⦄ (host : Host W) (call : Call) (duration : W) where
  abbrev pub passing : {S : Type 0} → S → Verdict → Inspection S W
  passing s verdict = record { state = s; verdict = verdict; effects = [] }

  abbrev pub note_router : Json → ChatState → ChatState
  note_router frame s = record {
    router = first_of (read_router (get frame "openrouterMetadata")) s.router;
    failed = s.failed || not (is_nullish (get frame "error"));
  }

  abbrev pub recording : {S : Type 0} → S → Option (Observation W) → Inspection S W
  recording s observed = record {
    state = s;
    verdict = recorded;
    effects = record_observed host call duration observed;
  }

  -- `#inspectChat`
  unfoldable pub inspect_chat : ChatState → Json → Inspection ChatState W
  unfolding record_observed read_router chat_observation get
  inspect_chat s frame =
      let noted = note_router frame s in
      if not (is_record frame)
      then passing s continue
      else if not (is_record (get frame "usage"))
      then passing noted (if is_nullish (get frame "error") then continue else error)
      else recording noted (
          chat_observation frame call.declared noted.router
            (if noted.failed then some chat_failed_code else none))

  abbrev pub on_response : Option (Observation W) → Inspection Unit W
  on_response none = passing tt no_usage
  on_response (some observed) = recording tt (some observed)

  abbrev pub on_terminal : Json → Option (Option String) → Inspection Unit W
  on_terminal frame none = passing tt continue
  on_terminal frame (some code) =
      on_response (responses_observation (get frame "response") call.declared code)

  -- `#inspectResponses`
  unfoldable pub inspect_responses : Unit {0} → Json → Inspection Unit W
  unfolding record_observed responses_observation terminal_code get
  inspect_responses s frame =
      let type_ = get frame "type" in
      if not (is_record frame)
      then passing tt continue
      else if is_error_type type_
      then passing tt error
      else on_terminal frame (terminal_code type_)
