-- ===== src/OpenRouter/Passing.antt =====
-- The frames of a metered stream: `meterStream` of adapters/openrouter/typescript/src/proxy.ts.
use audr.Base.{if-case, ◌≡◌, refl, sym, append-nil, ap, ◌∙◌, true, false, List, [], ◌∷◌, ◌++◌}
use audr.Record.{Json}
use audr.OpenRouter.Meter.{IncompleteReason, closed, abandoned, stream_incomplete, warns}
use audr.OpenRouter.Stream.{
  Verdict, continue, recorded, no_usage, error, Inspection, inspecting, Metering, metering, Event,
  judge, end_stream, leave, take_frame, see, settle, run, yield_frame, add_inspection,
}
use audr.OpenRouter.Resuming.{held, IsKept, step-IsKept}

module _ {S W : Type 0} where
  -- What the caller was given, and the frame that is inspected, are what the native stream gave.
  abbrev pub Passes : Metering S W → Type 0
  Passes m = m.yielded ++ held m.phase ≡ m.seen

  abbrev Rests : Metering S W → Type 0
  Rests m = (held m.phase ≡ []) × (m.yielded ≡ m.seen)

  rests : (m : Metering S W) → held m.phase ≡ [] → Passes m → Rests m
  rests m e h = (e, sym (append-nil m.yielded) ∙ ap (m.yielded ++◌) (sym e) ∙ h)

  pub end_stream-case :
      (P : Metering S W → Type 0) (reason : IncompleteReason) (m : Metering S W)
      → (m.is_open ≡ true
          → P (record m {
            is_open = false;
            effects = m.effects ++ (warns (stream_incomplete reason) ∷ []);
          }))
      → (m.is_open ≡ false → P m)
      → P (end_stream reason m)
  unfolding end_stream
  end_stream-case P reason m g h = if-case P m.is_open _ m g h

  end_stream-keeps :
      (P : Metering S W → Type 0) (reason : IncompleteReason) (m : Metering S W)
      → P m
      → P (record m {
        is_open = false;
        effects = m.effects ++ (warns (stream_incomplete reason) ∷ []);
      })
      → P (end_stream reason m)
  end_stream-keeps P reason m h g = end_stream-case P reason m (λ e. g) (λ e. h)

  leave-Passes :
      (reason : IncompleteReason) (m : Metering S W)
      → held m.phase ≡ []
      → Passes m
      → Passes (leave reason m)
  unfolding leave
  leave-Passes reason m e h =
      let r = rests m e h in
      let once = end_stream-keeps Rests reason m r r in
      let twice = end_stream-keeps Rests abandoned (end_stream reason m) once once in
      append-nil _ ∙ twice.1

  take_frame-Passes :
      (frame : Json) (m : Metering S W)
      → held m.phase ≡ []
      → Passes m
      → Passes (take_frame frame (see frame m))
  unfolding take_frame yield_frame
  take_frame-Passes frame m e h =
      let g = ap (◌++ (frame ∷ [])) (rests m e h).1 in
      if-case Passes m.is_open _ _ (λ e. g) (λ e. append-nil (m.yielded ++ (frame ∷ [])) ∙ g)

  judge-Passes :
      (v : Verdict) (m : Metering S W) (frame : Json)
      → m.yielded ++ (frame ∷ []) ≡ m.seen
      → (judge v m).yielded ++ (frame ∷ []) ≡ (judge v m).seen
  unfolding judge
  judge-Passes continue m frame h = h
  judge-Passes recorded m frame h = h
  judge-Passes no_usage m frame h =
      end_stream-keeps (λ m. m.yielded ++ (frame ∷ []) ≡ m.seen) _ m h h
  judge-Passes error m frame h = h

module _ {S W : Type 0} (inspect : S → Json → Inspection S W) where
  settle-Passes :
      (frame : Json) (m : Metering S W)
      → m.phase ≡ inspecting frame
      → Passes m
      → Passes (settle inspect frame m)
  unfolding settle yield_frame
  settle-Passes frame m e h =
      append-nil _
      ∙ judge-Passes _ (add_inspection (inspect m.inspector frame) m) frame
          (ap (λ p. m.yielded ++ held p) (sym e) ∙ h)

  Passes-IsKept : IsKept inspect Passes
  Passes-IsKept = record {
    waits = λ m e h. append-nil m.yielded ∙ (rests m e h).1;
    drops = λ m e h. append-nil m.yielded ∙ (rests m e h).1;
    takes = take_frame-Passes;
    leaves = leave-Passes;
    settles = settle-Passes;
  }

  run-Passes-from :
      (events : List Event) (m : Metering S W) → Passes m → Passes (run inspect events m)
  unfolding run
  run-Passes-from [] m h = h
  run-Passes-from (event ∷ events) m h = run-Passes-from events _ (
      step-IsKept inspect Passes Passes-IsKept event m (λ c. end_stream-keeps Passes closed m h h)
        h)

  -- Metering passes a stream on: at any moment, whatever the inspection comes to and however the caller stops, the
  -- caller was given the native stream's frames, unchanged and in order, all but the one that is being inspected.
  pub run-Passes :
      (events : List Event) (s : S)
      → let m = run inspect events (metering s) in m.yielded ++ held m.phase ≡ m.seen
  unfolding metering
  run-Passes events s = run-Passes-from events (metering s) refl
