-- ===== src/OpenRouter/Stream.antt =====
-- adapters/openrouter/typescript/src/proxy.ts: `meterStream`, as a machine that what happens around it drives. The
-- stream is iterated once; its frames and its end are the native stream's. `inspect` is a parameter, with a state of its own.
use audr.Base.{Bool, true, false, List, [], ◌∷◌, ◌++◌, if◌then◌else◌}
use audr.Record.{Json}
use audr.OpenRouter.Meter.{
  Diagnostic, IncompleteReason, error_frame, ended, failed_stream, abandoned, closed,
  no_usage as no_usage_reason, stream_incomplete, Effect, warns,
}

pub data Verdict : Type 0 where
  continue recorded no_usage error : Verdict

-- What one call of `inspect` comes to.
pub record Inspection (S W : Type 0) : Type 0 where
  pub state : S
  pub verdict : Verdict
  pub effects : List (Effect Diagnostic W)

-- Where the generator is: not started, at the native stream's next frame, in `inspect`, at `yield`, or over;
-- `dropped` when it was returned before it started, so that no line of it runs.
pub data Phase : Type 0 where
  fresh waiting yielding over dropped : Phase
  inspecting : Json → Phase

-- `seen` is what the native stream gave, `yielded` what the caller was given.
pub record Metering (S W : Type 0) : Type 0 where
  pub is_open : Bool
  pub failure : Bool
  pub phase : Phase
  pub inspector : S
  pub effects : List (Effect Diagnostic W)
  pub seen : List Json
  pub yielded : List Json

-- How the caller leaves the generator, and how the native stream comes to its end.
pub data Exit : Type 0 where
  returns throws_in : Exit

pub data Finish : Type 0 where
  ends breaks : Finish

-- The caller asks for the next frame, leaves, or cancels the stream; the native stream gives a frame or finishes;
-- `inspect` settles.
pub data Event : Type 0 where
  asks settles cancels : Event
  exits : Exit → Event
  finishes : Finish → Event
  arrives : Json → Event

abbrev pub exit_reason : Exit → IncompleteReason
exit_reason returns = abandoned
exit_reason throws_in = failed_stream

abbrev pub finish_reason : Finish → Bool → IncompleteReason
finish_reason breaks failure = failed_stream
finish_reason ends true = error_frame
finish_reason ends false = ended

module _ {S W : Type 0} where
  unfoldable pub metering : S → Metering S W
  metering s = record {
    is_open = true;
    failure = false;
    phase = fresh;
    inspector = s;
    effects = [];
    seen = [];
    yielded = [];
  }

  -- `end`
  unfoldable pub end_stream : IncompleteReason → Metering S W → Metering S W
  end_stream reason m =
      if m.is_open
      then record m {
        is_open = false;
        effects = m.effects ++ (warns (stream_incomplete reason) ∷ []);
      }
      else m

  abbrev pub finish : Metering S W → Metering S W
  finish m = record m { phase = over }

  -- What leaves the generator with `reason` also passes `finally`.
  unfoldable pub leave : IncompleteReason → Metering S W → Metering S W
  unfolding end_stream
  leave reason m = finish (end_stream abandoned (end_stream reason m))

  unfoldable pub yield_frame : Json → Metering S W → Metering S W
  yield_frame frame m = record m { phase = yielding; yielded = m.yielded ++ (frame ∷ []) }

  unfoldable pub judge : Verdict → Metering S W → Metering S W
  unfolding end_stream
  judge continue m = m
  judge recorded m = record m { is_open = false }
  judge no_usage m = end_stream no_usage_reason m
  judge error m = record m { failure = true }

  abbrev pub see : Json → Metering S W → Metering S W
  see frame m = record m { seen = m.seen ++ (frame ∷ []) }

  -- A frame that arrives is inspected while the stream is open, and else yielded at once.
  unfoldable pub take_frame : Json → Metering S W → Metering S W
  unfolding yield_frame
  take_frame frame m =
      if m.is_open then record m { phase = inspecting frame } else yield_frame frame m

  abbrev pub add_inspection : Inspection S W → Metering S W → Metering S W
  add_inspection i m = record m { inspector = i.state; effects = m.effects ++ i.effects }

  module _ (inspect : S → Json → Inspection S W) where
    -- `inspect` settles; the frame is yielded whatever the verdict.
    unfoldable pub settle : Json → Metering S W → Metering S W
    unfolding judge yield_frame
    settle frame m =
        let i = inspect m.inspector frame in
        yield_frame frame (judge i.verdict (add_inspection i m))

    -- What resumes the generator.
    unfoldable pub resume : Phase → Event → Metering S W → Metering S W
    unfolding take_frame settle leave
    resume fresh asks m = record m { phase = waiting }
    resume fresh (exits exit) m = record m { phase = dropped }
    resume waiting (arrives frame) m = take_frame frame (see frame m)
    resume waiting (finishes how) m = leave (finish_reason how m.failure) m
    resume (inspecting frame) settles m = settle frame m
    resume yielding asks m = record m { phase = waiting }
    resume yielding (exits exit) m = leave (exit_reason exit) m
    resume phase event m = m

    -- `cancel` needs no generator.
    unfoldable pub step : Event → Metering S W → Metering S W
    unfolding resume end_stream
    step cancels m = end_stream closed m
    step event m = resume m.phase event m

    unfoldable pub run : List Event → Metering S W → Metering S W
    unfolding step
    run [] m = m
    run (event ∷ events) m = run events (step event m)
