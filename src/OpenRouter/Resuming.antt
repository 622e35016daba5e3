-- ===== src/OpenRouter/Resuming.antt =====
-- What every step of the machine of OpenRouter/Stream.antt keeps, from what its moves keep.
use audr.Base.{◌≡◌, refl, ap, Bool, true, false, not, ◌||◌, is_empty, List, [], ◌∷◌}
use audr.Record.{Json}
use audr.OpenRouter.Meter.{IncompleteReason, closed}
use audr.OpenRouter.Stream.{
  Inspection, Phase, fresh, waiting, yielding, over, dropped, inspecting, Metering, Event, asks,
  settles, cancels, exits, finishes, arrives, end_stream, leave, take_frame, see, settle, resume,
  step,
}

-- The frame that was taken and not yielded yet.
abbrev pub held : Phase → List Json
held (inspecting frame) = frame ∷ []
held _ = []

abbrev pub is_cancel : Event → Bool
is_cancel cancels = true
is_cancel event = false

-- A frame's inspection is not cancelled.
abbrev pub is_calm : Phase → Event → Bool
is_calm phase event = not (is_cancel event) || is_empty (held phase)

module _ {S W : Type 0} (inspect : S → Json → Inspection S W) where
  pub record IsKept (P : Metering S W → Type 0) : Type 0 where
    pub waits : (m : Metering S W) → held m.phase ≡ [] → P m → P (record m { phase = waiting })
    pub drops : (m : Metering S W) → held m.phase ≡ [] → P m → P (record m { phase = dropped })
    pub takes :
        (frame : Json) (m : Metering S W)
        → held m.phase ≡ []
        → P m
        → P (take_frame frame (see frame m))
    pub leaves :
        (reason : IncompleteReason) (m : Metering S W)
        → held m.phase ≡ []
        → P m
        → P (leave reason m)
    pub settles :
        (frame : Json) (m : Metering S W)
        → m.phase ≡ inspecting frame
        → P m
        → P (settle inspect frame m)

  resume-IsKept :
      (P : Metering S W → Type 0) (k : IsKept P) (phase : Phase) (event : Event) (m : Metering S W)
      → m.phase ≡ phase
      → P m
      → P (resume inspect phase event m)
  unfolding resume
  resume-IsKept P k fresh asks m e h = k.waits m (ap held e) h
  resume-IsKept P k fresh (exits exit) m e h = k.drops m (ap held e) h
  resume-IsKept P k fresh settles m e h = h
  resume-IsKept P k fresh cancels m e h = h
  resume-IsKept P k fresh (finishes how) m e h = h
  resume-IsKept P k fresh (arrives frame) m e h = h
  resume-IsKept P k waiting (arrives frame) m e h = k.takes frame m (ap held e) h
  resume-IsKept P k waiting (finishes how) m e h = k.leaves _ m (ap held e) h
  resume-IsKept P k waiting asks m e h = h
  resume-IsKept P k waiting settles m e h = h
  resume-IsKept P k waiting cancels m e h = h
  resume-IsKept P k waiting (exits exit) m e h = h
  resume-IsKept P k (inspecting frame) settles m e h = k.settles frame m e h
  resume-IsKept P k (inspecting frame) asks m e h = h
  resume-IsKept P k (inspecting frame) cancels m e h = h
  resume-IsKept P k (inspecting frame) (exits exit) m e h = h
  resume-IsKept P k (inspecting frame) (finishes how) m e h = h
  resume-IsKept P k (inspecting frame) (arrives next) m e h = h
  resume-IsKept P k yielding asks m e h = k.waits m (ap held e) h
  resume-IsKept P k yielding (exits exit) m e h = k.leaves _ m (ap held e) h
  resume-IsKept P k yielding settles m e h = h
  resume-IsKept P k yielding cancels m e h = h
  resume-IsKept P k yielding (finishes how) m e h = h
  resume-IsKept P k yielding (arrives frame) m e h = h
  resume-IsKept P k over event m e h = h
  resume-IsKept P k dropped event m e h = h

  pub step-IsKept :
      (P : Metering S W → Type 0) (k : IsKept P) (event : Event) (m : Metering S W)
      → (is_cancel event ≡ true → P (end_stream closed m))
      → P m
      → P (step inspect event m)
  unfolding step
  step-IsKept P k cancels m cancel h = cancel refl
  step-IsKept P k asks m cancel h = resume-IsKept P k m.phase asks m refl h
  step-IsKept P k settles m cancel h = resume-IsKept P k m.phase settles m refl h
  step-IsKept P k (exits exit) m cancel h = resume-IsKept P k m.phase (exits exit) m refl h
  step-IsKept P k (finishes how) m cancel h = resume-IsKept P k m.phase (finishes how) m refl h
  step-IsKept P k (arrives frame) m cancel h = resume-IsKept P k m.phase (arrives frame) m refl h
