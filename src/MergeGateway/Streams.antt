-- ===== src/MergeGateway/Streams.antt =====
-- adapters/merge-gateway/typescript/src/gateway.ts: `#meterStream`, as a machine that what happens around it drives. The
-- stream is iterated once; its frames and its end are the native stream's. A caller that leaves leaves it `abandoned`: the
-- native iterator's own `return` is taken not to throw.
use audr.Base.{Bool, true, false, List, [], ◌∷◌, ◌++◌, str_eq, if◌then◌else◌}
use audr.Record.{Json, str, get}
use audr.Adapters.Numbers.{Double}
use audr.Adapters.Effects.{Effect, warns}
use audr.MergeGateway.Meter.{
  Diagnostic, IncompleteReason, error_frame, ended, failed, abandoned, closed, stream_incomplete,
  Host, Call, record_result,
}

-- Where the generator is: not started, at the native stream's next frame, at `yield`, or over; `dropped` when it was
-- returned before it started, so that no line of it runs.
pub data Phase : Type 0 where
  fresh waiting yielding over dropped : Phase

-- `seen` is what the native stream gave, `yielded` what the caller was given.
pub record Metering (W : Type 0) : Type 0 where
  pub is_open : Bool
  pub phase : Phase
  pub effects : List (Effect Diagnostic W)
  pub seen : List Json
  pub yielded : List Json

-- The caller asks for a frame, leaves by `return` or by `throw`, or calls `close`; the native stream gives a frame,
-- ends or throws.
pub data Event : Type 0 where
  asks returns throws_in closes ends breaks : Event
  arrives : Json → Event

-- What `iterate` is at a frame: the end of the stream or an error.
pub data FrameKind : Type 0 where
  done error other : FrameKind

-- `frame?.object`, compared.
unfoldable pub kind_of : Json → FrameKind
unfolding get
kind_of frame = elim (get frame "object") [
  | str s ↦
      if str_eq s "response.done" then done else if str_eq s "response.error" then error else other
  | _ ↦ other
]

module _ {W : Type 0} where
  unfoldable pub metering : Metering W
  metering = record { is_open = true; phase = fresh; effects = []; seen = []; yielded = [] }

  -- `incomplete`
  unfoldable pub incomplete : IncompleteReason → Metering W → Metering W
  incomplete reason m =
      if m.is_open
      then record m {
        is_open = false;
        effects = m.effects ++ (warns (stream_incomplete reason) ∷ []);
      }
      else m

  -- What leaves the generator with `reason` also passes `finally`.
  unfoldable pub leave : IncompleteReason → Metering W → Metering W
  unfolding incomplete
  leave reason m = let n = incomplete abandoned (incomplete reason m) in record n { phase = over }

module _ {W : Type 0} ⦃d : Double W⦄ (host : Host W) (call : Call) (duration : W) where
  unfoldable pub on_kind : FrameKind → Json → Metering W → Metering W
  unfolding incomplete record_result
  on_kind done frame m = record m {
    is_open = false;
    effects = m.effects ++ record_result host call duration frame;
  }
  on_kind error frame m = incomplete error_frame m
  on_kind other frame m = m

  -- `observe`
  unfoldable pub observe : Json → Metering W → Metering W
  unfolding on_kind kind_of
  observe frame m = if m.is_open then on_kind (kind_of frame) frame m else m

  -- A frame is observed, then yielded.
  unfoldable pub take_frame : Json → Metering W → Metering W
  unfolding observe
  take_frame frame m =
      let n = observe frame m in
      record n {
        phase = yielding;
        seen = n.seen ++ (frame ∷ []);
        yielded = n.yielded ++ (frame ∷ []);
      }

  -- What resumes the generator.
  unfoldable pub resume : Phase → Event → Metering W → Metering W
  unfolding take_frame leave
  resume fresh asks m = record m { phase = waiting }
  resume fresh returns m = record m { phase = dropped }
  resume fresh throws_in m = record m { phase = dropped }
  resume waiting (arrives frame) m = take_frame frame m
  resume waiting ends m = leave ended m
  resume waiting breaks m = leave failed m
  resume yielding asks m = record m { phase = waiting }
  resume yielding returns m = leave abandoned m
  resume yielding throws_in m = leave failed m
  resume phase event m = m

  -- `close` needs no generator.
  unfoldable pub step : Event → Metering W → Metering W
  unfolding resume incomplete
  step closes m = incomplete closed m
  step event m = resume m.phase event m

  unfoldable pub run : List Event → Metering W → Metering W
  unfolding step
  run [] m = m
  run (event ∷ events) m = run events (step event m)
