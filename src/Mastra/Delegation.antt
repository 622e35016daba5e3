-- ===== src/Mastra/Delegation.antt =====
-- Which tool calls of Mastra delegate: `#openToolSpans` and `#delegationToolSpans` of
-- adapters/mastra/typescript/src/exporter.ts, against a state machine for each span.
use audr.Base.{
  ◌≡◌, refl, sym, str_eq_iff, ap, ◌∙◌, Bool, true, false, ◌&&◌, ◌||◌, List, [], ◌∷◌, Option, none,
  some, String, str_eq, if◌then◌else◌, names, arith, Bool-cases, inl, inr,
}
use audr.Adapters.Numbers.{Double}
use audr.Adapters.Reading.{non_empty}
use audr.Adapters.Sets.{names-add_id, names-delete_id}
use audr.Mastra.Exporter.{
  Span, AudrExporter, TracingEvent, span_started, span_ended, span_updated, shut_down, fresh, step,
  run, track_started, track_delegation_child, finish_tool, is_tool_call, delegation_span_types,
  delegate_to, open_tool, close_tool,
}

-- A tool call from outside: not running, running, or running and known to delegate.
pub data Watch : Type 0 where
  idle running delegating : Watch

abbrev pub is_running : Watch → Bool
is_running idle = false
is_running _ = true

abbrev pub is_delegating : Watch → Bool
is_delegating delegating = true
is_delegating _ = false

abbrev begin : Watch → Watch
begin idle = running
begin w = w

abbrev pub delegate : Watch → Watch
delegate running = delegating
delegate w = w

abbrev names_span : Option String → String → Bool
names_span none id = false
names_span (some parent) id = str_eq parent id

module _ {W : Type 0} where
  -- The span is an agent's or a workflow's, under the tool call `id`.
  unfoldable pub is_child_of : String → Span W → Bool
  unfolding names non_empty
  is_child_of id span =
      names delegation_span_types span.span_type && names_span (non_empty span.parent_span_id) id

  unfoldable pub is_call : String → Span W → Bool
  is_call id span = str_eq span.span_type "tool_call" && str_eq span.id id

  -- What an event makes of the tool call `id`.
  unfoldable pub watch : String → TracingEvent W → Watch → Watch
  unfolding is_child_of is_call
  watch id (span_started span) w =
      let begun = if is_call id span then begin w else w in
      if is_child_of id span then delegate begun else begun
  watch id (span_ended span) w =
      if is_call id span then idle else if is_child_of id span then delegate w else w
  watch id (span_updated span) w = w
  watch id shut_down w = idle

  unfoldable pub watch_all : String → List (TracingEvent W) → Watch → Watch
  unfolding watch
  watch_all id [] w = w
  watch_all id (event ∷ events) w = watch_all id events (watch id event w)

-- The exporter's sets agree with the state machine of one span.
pub record Agrees (id : String) (e : AudrExporter) (w : Watch) : Type 0 where
  pub runs : names e.open_tool_spans id ≡ is_running w
  pub delegates : names e.delegation_tool_spans id ≡ is_delegating w

delegate_to-open :
    (parent : Option String) (e : AudrExporter)
    → (delegate_to parent e).open_tool_spans ≡ e.open_tool_spans
unfolding delegate_to
delegate_to-open none e = refl
delegate_to-open (some parent) e = elim (Bool-cases (names e.open_tool_spans parent)) [
  | inl b ↦ simp b refl
  | inr b ↦ simp b refl
]

delegate_to-delegation :
    (parent : String) (e : AudrExporter) (id : String)
    → names (delegate_to (some parent) e).delegation_tool_spans id
      ≡ (names e.delegation_tool_spans id || (names e.open_tool_spans parent && str_eq parent id))
unfolding delegate_to
delegate_to-delegation parent e id = elim (Bool-cases (names e.open_tool_spans parent)) [
  | inl b ↦ simp b (names-add_id parent e.delegation_tool_spans id)
  | inr b ↦ simp b (ground arith)
]

is_running-delegate :
    (b : Bool) (w : Watch) → is_running (if b then delegate w else w) ≡ is_running w
is_running-delegate false w = refl
is_running-delegate true idle = refl
is_running-delegate true running = refl
is_running-delegate true delegating = refl

is_delegating-delegate :
    (b : Bool) (w : Watch)
    → is_delegating (if b then delegate w else w) ≡ (is_delegating w || (is_running w && b))
is_delegating-delegate false idle = refl
is_delegating-delegate false running = refl
is_delegating-delegate false delegating = refl
is_delegating-delegate true idle = refl
is_delegating-delegate true running = refl
is_delegating-delegate true delegating = refl

-- A set is asked for one of two names that are the same.
names-same :
    (ids : List String) (x y : String) → (names ids x && str_eq x y) ≡ (names ids y && str_eq x y)
names-same ids x y = elim (Bool-cases (str_eq x y)) [
  | inl e ↦ ap (λ z. names ids z && str_eq x y) ((str_eq_iff x y).0 e)
  | inr e ↦ ground arith
]

delegate_to-none :
    (e : AudrExporter) (w : Watch) (id : String) → Agrees id e w → Agrees id (delegate_to none e) w
unfolding delegate_to
delegate_to-none e w id h = h

delegate_to-Agrees :
    (parent : Option String) (e : AudrExporter) (w : Watch) (id : String)
    → Agrees id e w
    → Agrees id (delegate_to parent e) (if names_span parent id then delegate w else w)
delegate_to-Agrees none e w id h = delegate_to-none e w id h
delegate_to-Agrees (some parent) e w id h = record {
  runs =
      ap (λ ids. names ids id) (delegate_to-open (some parent) e)
      ∙ h.runs
      ∙ sym (is_running-delegate (str_eq parent id) w);
  delegates = ground (
    arith,
    delegate_to-delegation parent e id,
    names-same e.open_tool_spans parent id,
    is_delegating-delegate (str_eq parent id) w,
    h.runs,
    h.delegates,
  );
}

is_running-begin :
    (b : Bool) (w : Watch) → is_running (if b then begin w else w) ≡ (is_running w || b)
is_running-begin false w = ground arith
is_running-begin true idle = refl
is_running-begin true running = refl
is_running-begin true delegating = refl

is_delegating-begin :
    (b : Bool) (w : Watch) → is_delegating (if b then begin w else w) ≡ is_delegating w
is_delegating-begin false w = refl
is_delegating-begin true idle = refl
is_delegating-begin true running = refl
is_delegating-begin true delegating = refl

open_tool-Agrees :
    (x : String) (e : AudrExporter) (w : Watch) (id : String)
    → Agrees id e w
    → Agrees id (open_tool x e) (if str_eq x id then begin w else w)
open_tool-Agrees x e w id h = record {
  runs =
      ground (arith, names-add_id x e.open_tool_spans id, h.runs, is_running-begin (str_eq x id) w);
  delegates = h.delegates ∙ sym (is_delegating-begin (str_eq x id) w);
}

close_tool-Agrees :
    (x : String) (e : AudrExporter) (w : Watch) (id : String)
    → Agrees id e w
    → Agrees id (close_tool x e) (if str_eq x id then idle else w)
unfolding close_tool
close_tool-Agrees x e w id h = elim (Bool-cases (str_eq x id)) [
  | inl b ↦ record {
    runs = ground (arith, names-delete_id x e.open_tool_spans id);
    delegates = ground (arith, names-delete_id x e.delegation_tool_spans id);
  }
  | inr b ↦ record {
    runs = ground (arith, names-delete_id x e.open_tool_spans id, h.runs);
    delegates = ground (arith, names-delete_id x e.delegation_tool_spans id, h.delegates);
  }
]

module _ {W : Type 0} ⦃d : Double W⦄ (id : String) where
  pub track_delegation_child-Agrees :
      (span : Span W) (e : AudrExporter) (w : Watch)
      → Agrees id e w
      → Agrees id (track_delegation_child span e) (if is_child_of id span then delegate w else w)
  unfolding track_delegation_child is_child_of
  track_delegation_child-Agrees span e w h =
      elim (Bool-cases (names delegation_span_types span.span_type)) [
        | inl b ↦ simp b (delegate_to-Agrees (non_empty span.parent_span_id) e w id h)
        | inr b ↦ simp b h
      ]

  step-Agrees :
      (event : TracingEvent W) (e : AudrExporter) (w : Watch)
      → Agrees id e w
      → Agrees id (step event e) (watch id event w)
  unfolding step track_started finish_tool watch is_call
  step-Agrees (span_started span) e w h = elim (Bool-cases (is_tool_call span)) [
    | inl b ↦ simp b (
        track_delegation_child-Agrees span (open_tool span.id e)
          (if str_eq span.id id then begin w else w) (open_tool-Agrees span.id e w id h))
    | inr b ↦ simp b (track_delegation_child-Agrees span e w h)
  ]
  step-Agrees (span_ended span) e w h = elim (Bool-cases (is_tool_call span)) [
    | inl b ↦ simp b (
        close_tool-Agrees span.id (track_delegation_child span e)
          (if is_child_of id span then delegate w else w) id
          (track_delegation_child-Agrees span e w h))
    | inr b ↦ simp b (track_delegation_child-Agrees span e w h)
  ]
  step-Agrees (span_updated span) e w h = h
  step-Agrees shut_down e w h = record { runs = refl; delegates = refl }

  run-Agrees-from :
      (events : List (TracingEvent W)) (e : AudrExporter) (w : Watch)
      → Agrees id e w
      → Agrees id (run events e) (watch_all id events w)
  unfolding run watch_all
  run-Agrees-from [] e w h = h
  run-Agrees-from (event ∷ events) e w h = run-Agrees-from events _ _ (step-Agrees event e w h)

  -- After any events, in any order, the exporter's two sets say of the tool call `id` what a state machine of that one
  -- call says: it runs from its start to its end or to the shutdown, and delegates from when a span of an agent or of a workflow
  -- under it starts or ends.
  pub run-Agrees :
      (events : List (TracingEvent W)) → Agrees id (run events fresh) (watch_all id events idle)
  unfolding names
  run-Agrees events = run-Agrees-from events fresh idle (record { runs = refl; delegates = refl })
