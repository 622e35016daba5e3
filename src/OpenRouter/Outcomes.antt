-- ===== src/OpenRouter/Outcomes.antt =====
-- What a metered stream comes to: `meterStream` of adapters/openrouter/typescript/src/proxy.ts with the inspections
-- of openrouter.ts there.
use audr.Base.{
  if-case, ℕ, ◌+◌, ◌≡◌, refl, subst, if◌then◌else◌, Bool, true, false, not, ◌&&◌, List, [], ◌∷◌,
  ◌++◌, Option, none, some, String, arith,
}
use audr.Record.{Json, get}
use audr.Adapters.Numbers.{Double}
use audr.OpenRouter.Mapping.{
  is_record, chat_failed_code, responses_observation, chat_observation, Observation,
}
use audr.OpenRouter.Meter.{
  Diagnostic, IncompleteReason, closed, abandoned, stream_incomplete, Effect, warns, Host, Call,
}
use audr.OpenRouter.Stream.{
  Verdict, continue, recorded, no_usage, error, Inspection, Phase, inspecting, yielding, waiting,
  dropped, over, fresh, Metering, metering, Event, judge, end_stream, leave, take_frame, see,
  settle, step, run, yield_frame, add_inspection,
}
use audr.OpenRouter.Frames.{
  chat_start, is_nullish, inspect_chat, inspect_responses, on_terminal, on_response, passing,
  recording, terminal_code, is_error_type, note_router,
}
use audr.OpenRouter.Resuming.{held, is_calm, is_cancel, IsKept, step-IsKept}
use audr.OpenRouter.Recorded.{
  openrouter_reasons, outcome_count, record_count, reason_count, outcome_count-append,
  record_observed-once,
}
use audr.OpenRouter.Passing.{end_stream-case}

abbrev pub bit : Bool → ℕ
bit true = 1
bit false = 0

abbrev pub is_recorded : Verdict → Bool
is_recorded recorded = true
is_recorded _ = false

-- A frame under inspection was taken while the stream was open; at the end it is not.
abbrev Looks : Phase → Bool → Type 0
Looks (inspecting frame) b = b ≡ true
Looks over b = b ≡ false
Looks _ b = Unit

Looks-closed : (phase : Phase) → held phase ≡ [] → Looks phase false
Looks-closed (inspecting frame) e = absurd (ground arith)
Looks-closed fresh e = tt
Looks-closed waiting e = tt
Looks-closed yielding e = tt
Looks-closed over e = refl
Looks-closed dropped e = tt

outcome_count-report :
    {W : Type 0} (es : List (Effect Diagnostic W)) (reason : IncompleteReason)
    → outcome_count (es ++ (warns (stream_incomplete reason) ∷ [])) ≡ outcome_count es + 1
unfolding outcome_count record_count reason_count
outcome_count-report es reason = outcome_count-append es (warns (stream_incomplete reason) ∷ [])

module _ {S W : Type 0} where
  abbrev Counts : Metering S W → Type 0
  Counts m = outcome_count m.effects + bit m.is_open ≡ 1

  abbrev Settled : Metering S W → Type 0
  Settled m = Counts m × Looks m.phase m.is_open

  end_stream-is_open :
      (reason : IncompleteReason) (m : Metering S W) → (end_stream reason m).is_open ≡ false
  end_stream-is_open reason m =
      end_stream-case (λ n. n.is_open ≡ false) reason m (λ e. refl) (λ e. e)

  end_stream-Counts :
      (reason : IncompleteReason) (m : Metering S W) → Counts m → Counts (end_stream reason m)
  end_stream-Counts reason m h =
      end_stream-case Counts reason m (λ e. ground (arith, outcome_count-report m.effects reason))
        (λ e. h)

  leave-Settled :
      (reason : IncompleteReason) (m : Metering S W)
      → held m.phase ≡ []
      → Settled m
      → Settled (leave reason m)
  unfolding leave
  leave-Settled reason m e h = (
    end_stream-Counts abandoned (end_stream reason m) (end_stream-Counts reason m h.0),
    end_stream-is_open abandoned (end_stream reason m),
  )

  take_frame-Settled :
      (frame : Json) (m : Metering S W)
      → held m.phase ≡ []
      → Settled m
      → Settled (take_frame frame (see frame m))
  unfolding take_frame yield_frame
  take_frame-Settled frame m e h = if-case Settled m.is_open _ _ (λ o. (h.0, o)) (λ o. (h.0, tt))

  cancel-Settled :
      (m : Metering S W) → held m.phase ≡ [] → Settled m → Settled (end_stream closed m)
  cancel-Settled m e h =
      end_stream-case Settled closed m
        (λ o. (ground (arith, outcome_count-report m.effects closed), Looks-closed m.phase e))
        (λ o. h)

  judge-Counts :
      (v : Verdict) (m : Metering S W)
      → outcome_count m.effects ≡ bit (is_recorded v)
      → m.is_open ≡ true
      → Counts (judge v m)
  unfolding judge
  judge-Counts continue m h o = ground arith
  judge-Counts recorded m h o = ground arith
  judge-Counts no_usage m h o = end_stream-Counts _ m (ground arith)
  judge-Counts error m h o = ground arith

-- An inspection records, or gives its reason, when its verdict is `recorded`, and has no other effect.
abbrev Right : {S W : Type 0} → Inspection S W → Type 0
Right i = outcome_count i.effects ≡ bit (is_recorded i.verdict)

abbrev pub IsInspector : {S W : Type 0} → (S → Json → Inspection S W) → Type 0
IsInspector {S} inspect = (s : S) (frame : Json) → Right (inspect s frame)

unheld :
    (phase : Phase) (event : Event)
    → is_cancel event ≡ true
    → is_calm phase event ≡ true
    → held phase ≡ []
unheld (inspecting frame) event c e = absurd (ground arith)
unheld fresh event c e = refl
unheld waiting event c e = refl
unheld yielding event c e = refl
unheld over event c e = refl
unheld dropped event c e = refl

module _ {S W : Type 0} (inspect : S → Json → Inspection S W) where
  -- No frame's inspection is cancelled.
  unfoldable pub is_calm_run : List Event → Metering S W → Bool
  unfolding step
  is_calm_run [] m = true
  is_calm_run (event ∷ events) m =
      is_calm m.phase event && is_calm_run events (step inspect event m)

module _ {S W : Type 0} (inspect : S → Json → Inspection S W) (inspects : IsInspector inspect) where
  settle-Settled :
      (frame : Json) (m : Metering S W)
      → m.phase ≡ inspecting frame
      → Settled m
      → Settled (settle inspect frame m)
  unfolding settle yield_frame
  settle-Settled frame m e h =
      let o : m.is_open ≡ true = subst (λ p. Looks p m.is_open) e h.1 in
      let i = inspect m.inspector frame in
      (
        judge-Counts i.verdict (add_inspection i m)
            (ground (arith, outcome_count-append m.effects i.effects, inspects m.inspector frame))
            o,
        tt,
      )

  Settled-IsKept : IsKept inspect Settled
  Settled-IsKept = record {
    waits = λ m e h. (h.0, tt);
    drops = λ m e h. (h.0, tt);
    takes = take_frame-Settled;
    leaves = leave-Settled;
    settles = settle-Settled;
  }

  run-Settled :
      (events : List Event) (m : Metering S W)
      → is_calm_run inspect events m ≡ true
      → Settled m
      → Settled (run inspect events m)
  unfolding run is_calm_run
  run-Settled [] m calm h = h
  run-Settled (event ∷ events) m calm h =
      let now : is_calm m.phase event ≡ true = ground (arith, calm) in
      let later : is_calm_run inspect events (step inspect event m) ≡ true = ground (arith, calm) in
      run-Settled events (step inspect event m) later (
        step-IsKept inspect Settled Settled-IsKept event m
          (λ c. cancel-Settled m (unheld m.phase event c now) h) h)

  run-once :
      (events : List Event) (s : S)
      → is_calm_run inspect events (metering s) ≡ true
      → (run inspect events (metering s)).phase ≡ over
      → outcome_count (run inspect events (metering s)).effects ≡ 1
  unfolding metering outcome_count record_count reason_count
  run-once events s calm e =
      let settled = run-Settled events (metering s) calm (refl, tt) in
      let shut : (run inspect events (metering s)).is_open ≡ false =
        subst (λ p. Looks p (run inspect events (metering s)).is_open) e settled.1 in
      ground (arith, settled.0, shut)

module _ {W : Type 0} ⦃d : Double W⦄ (host : Host W) (call : Call) (duration : W) where
  passing-Right :
      {S : Type 0} (s : S) (v : Verdict)
      → is_recorded v ≡ false
      → Right (passing host call duration s v)
  unfolding outcome_count record_count reason_count
  passing-Right s v h = rw h refl

  continue_or_error-Right :
      {S : Type 0} (s : S) (b : Bool)
      → Right (passing host call duration s (if b then continue else error))
  continue_or_error-Right s true = passing-Right s continue refl
  continue_or_error-Right s false = passing-Right s error refl

  recording-Right :
      {S : Type 0} (s : S) (o : Option (Observation W)) → Right (recording host call duration s o)
  unfolding outcome_count record_count reason_count
  recording-Right s o = record_observed-once host call duration o

  inspect_chat-IsInspector : IsInspector (inspect_chat host call duration)
  unfolding inspect_chat
  inspect_chat-IsInspector s frame =
      let noted = note_router host call duration frame s in
      if-case Right (not (is_record frame)) _ _ (λ e. passing-Right s continue refl)
        (λ e.
          if-case Right (not (is_record (get frame "usage"))) _ _
            (λ f. continue_or_error-Right noted (is_nullish (get frame "error")))
            (λ f. recording-Right noted (
              chat_observation frame call.declared noted.router
                (if noted.failed then some chat_failed_code else none))))

  on_response-Right : (o : Option (Observation W)) → Right (on_response host call duration o)
  on_response-Right none = passing-Right tt no_usage refl
  on_response-Right (some observed) = recording-Right tt (some observed)

  on_terminal-Right :
      (frame : Json) (code : Option (Option String))
      → Right (on_terminal host call duration frame code)
  on_terminal-Right frame none = passing-Right tt continue refl
  on_terminal-Right frame (some code) =
      on_response-Right (responses_observation (get frame "response") call.declared code)

  inspect_responses-IsInspector : IsInspector (inspect_responses host call duration)
  unfolding inspect_responses
  inspect_responses-IsInspector s frame =
      if-case Right (not (is_record frame)) _ _ (λ e. passing-Right tt continue refl)
        (λ e.
          if-case Right (is_error_type (get frame "type")) _ _ (λ f. passing-Right tt error refl)
            (λ f. on_terminal-Right frame (terminal_code (get frame "type"))))

  -- A chat stream whose iteration is over was recorded once or reported once with why it was not, never both, whatever
  -- the frames are and however it ends, when it was not cancelled while a frame was inspected.
  pub chat_stream-once :
      (events : List Event)
      → is_calm_run (inspect_chat host call duration) events (metering chat_start) ≡ true
      → (run (inspect_chat host call duration) events (metering chat_start)).phase ≡ over
      → let effects =
          (run (inspect_chat host call duration) events (metering chat_start)).effects in
        record_count effects + reason_count effects ≡ 1
  unfolding outcome_count record_count reason_count
  chat_stream-once events calm e =
      run-once (inspect_chat host call duration) inspect_chat-IsInspector events chat_start calm e

  -- The same of a Responses stream.
  pub response_stream-once :
      (events : List Event)
      → is_calm_run (inspect_responses host call duration) events (metering tt) ≡ true
      → (run (inspect_responses host call duration) events (metering tt)).phase ≡ over
      → let effects = (run (inspect_responses host call duration) events (metering tt)).effects in
        record_count effects + reason_count effects ≡ 1
  unfolding outcome_count record_count reason_count
  response_stream-once events calm e =
      run-once (inspect_responses host call duration) inspect_responses-IsInspector events tt calm e
