-- ===== src/MergeGateway/Outcomes.antt =====
-- What a metered stream comes to: `#meterStream` of adapters/merge-gateway/typescript/src/gateway.ts.
use audr.Base.{
  ◌+◌, ◌≡◌, refl, ap, if-case, if◌then◌else◌, Bool, true, false, List, [], ◌∷◌, ◌++◌, arith,
}
use audr.Record.{Json}
use audr.Adapters.Numbers.{Double}
use audr.Adapters.Effects.{warns, record_count, reason_count, outcome_count, outcome_count-append}
use audr.MergeGateway.Meter.{
  gateway_reasons, IncompleteReason, stream_incomplete, closed, error_frame, ended, failed,
  abandoned, Host, Call, record_result,
}
use audr.MergeGateway.Streams.{
  Phase, fresh, waiting, yielding, over, dropped, Metering, Event, asks, returns, throws_in, closes,
  ends, breaks, arrives, FrameKind, done, error, other, metering, incomplete, leave, on_kind,
  kind_of, observe, take_frame, resume, step, run,
}
use audr.MergeGateway.Recorded.{outcome_count-record_result}

abbrev pub is_open_when_over : Phase → Bool → Bool
is_open_when_over over is_open = is_open
is_open_when_over _ is_open = false

closed_when_over : (phase : Phase) (b : Bool) → b ≡ false → is_open_when_over phase b ≡ false
closed_when_over over b e = e
closed_when_over fresh b e = refl
closed_when_over waiting b e = refl
closed_when_over yielding b e = refl
closed_when_over dropped b e = refl

module _ {W : Type 0} where
  abbrev Counts : Metering W → Type 0
  Counts m = (m.yielded ≡ m.seen) × (outcome_count m.effects ≡ (if m.is_open then 0 else 1))

  abbrev Settled : Metering W → Type 0
  Settled m = Counts m × (is_open_when_over m.phase m.is_open ≡ false)

  Closed : Metering W → Type 0
  Closed m = Counts m × (m.is_open ≡ false)

  Closed-Settled : (m : Metering W) → Closed m → Settled m
  unfolding Closed
  Closed-Settled m h = (h.0, closed_when_over m.phase m.is_open h.1)

  incomplete-Closed :
      (reason : IncompleteReason) (m : Metering W) → Counts m → Closed (incomplete reason m)
  unfolding incomplete Closed outcome_count record_count reason_count
  incomplete-Closed reason m h =
      if-case Closed m.is_open _ m
        (λ e. (
          (
            h.0,
            ground (arith, outcome_count-append m.effects (warns (stream_incomplete reason) ∷ [])),
          ),
          refl,
        ))
        (λ e. (h, e))

  leave-Settled : (reason : IncompleteReason) (m : Metering W) → Counts m → Settled (leave reason m)
  unfolding leave Closed
  leave-Settled reason m h =
      incomplete-Closed abandoned (incomplete reason m) (incomplete-Closed reason m h).0

module _ {W : Type 0} ⦃d : Double W⦄ (host : Host W) (call : Call) (duration : W) where
  on_kind-Counts :
      (kind : FrameKind) (frame : Json) (m : Metering W)
      → m.is_open ≡ true
      → Counts m
      → Counts (on_kind host call duration kind frame m)
  unfolding on_kind Closed outcome_count record_count reason_count
  on_kind-Counts done frame m e h = (
    h.0,
    ground (
      arith,
      outcome_count-append m.effects (record_result host call duration frame),
      outcome_count-record_result host call duration frame,
    ),
  )
  on_kind-Counts error frame m e h = (incomplete-Closed error_frame m h).0
  on_kind-Counts other frame m e h = h

  observe-Counts :
      (frame : Json) (m : Metering W) → Counts m → Counts (observe host call duration frame m)
  unfolding observe
  observe-Counts frame m h =
      if-case Counts m.is_open (on_kind host call duration (kind_of frame) frame m) m
        (λ e. on_kind-Counts (kind_of frame) frame m e h) (λ e. h)

  resume-Settled :
      (phase : Phase) (event : Event) (m : Metering W)
      → m.phase ≡ phase
      → Settled m
      → Settled (resume host call duration phase event m)
  unfolding resume take_frame
  resume-Settled fresh asks m e h = (h.0, refl)
  resume-Settled fresh returns m e h = (h.0, refl)
  resume-Settled fresh throws_in m e h = (h.0, refl)
  resume-Settled fresh closes m e h = h
  resume-Settled fresh ends m e h = h
  resume-Settled fresh breaks m e h = h
  resume-Settled fresh (arrives frame) m e h = h
  resume-Settled waiting (arrives frame) m e h =
      let g = observe-Counts frame m h.0 in ((ap (◌++ (frame ∷ [])) g.0, g.1), refl)
  resume-Settled waiting ends m e h = leave-Settled ended m h.0
  resume-Settled waiting breaks m e h = leave-Settled failed m h.0
  resume-Settled waiting asks m e h = h
  resume-Settled waiting returns m e h = h
  resume-Settled waiting throws_in m e h = h
  resume-Settled waiting closes m e h = h
  resume-Settled yielding asks m e h = (h.0, refl)
  resume-Settled yielding returns m e h = leave-Settled abandoned m h.0
  resume-Settled yielding throws_in m e h = leave-Settled failed m h.0
  resume-Settled yielding closes m e h = h
  resume-Settled yielding ends m e h = h
  resume-Settled yielding breaks m e h = h
  resume-Settled yielding (arrives frame) m e h = h
  resume-Settled over event m e h = h
  resume-Settled dropped event m e h = h

  step-Settled :
      (event : Event) (m : Metering W) → Settled m → Settled (step host call duration event m)
  unfolding step
  step-Settled closes m h = Closed-Settled (incomplete closed m) (incomplete-Closed closed m h.0)
  step-Settled asks m h = resume-Settled m.phase asks m refl h
  step-Settled returns m h = resume-Settled m.phase returns m refl h
  step-Settled throws_in m h = resume-Settled m.phase throws_in m refl h
  step-Settled ends m h = resume-Settled m.phase ends m refl h
  step-Settled breaks m h = resume-Settled m.phase breaks m refl h
  step-Settled (arrives frame) m h = resume-Settled m.phase (arrives frame) m refl h

  run-Settled :
      (events : List Event) (m : Metering W) → Settled m → Settled (run host call duration events m)
  unfolding run
  run-Settled [] m h = h
  run-Settled (event ∷ events) m h =
      run-Settled events (step host call duration event m) (step-Settled event m h)

  -- Whatever happens around a metered stream, the caller was given the frames that the native stream gave, in their
  -- order; while the stream is open nothing was recorded and nothing reported; once it is not, the call was recorded
  -- once or reported once with why it was not, never both; and once its iteration is over it is not open.
  pub stream-once :
      (events : List Event)
      → let m : Metering W = run host call duration events metering in
        (m.yielded ≡ m.seen)
        × (record_count m.effects + reason_count m.effects ≡ (if m.is_open then 0 else 1))
        × (is_open_when_over m.phase m.is_open ≡ false)
  unfolding metering outcome_count record_count reason_count
  stream-once events =
      let h = run-Settled events metering ((refl, refl), refl) in (h.0.0, h.0.1, h.1)
