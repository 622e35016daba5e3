-- ===== src/Runs/Steps.antt =====
-- The `run.step` of the records of adapters/vercel-ai/typescript/src/telemetry.ts.
use audr.Base.{
  ℕ, zero, suc, ◌<◌, ◌≡◌, refl, sym, ap, ap₂, ◌∙◌, Bool, true, false, List, [], ◌∷◌, ◌++◌,
  append-nil, Option, none, some, String, ◌==◌, if◌then◌else◌, length, All, All-append,
  length-append, arith, Bool-cases, inl, inr,
}
use audr.Adapters.Numbers.{Double}
use audr.Record.{Json}
use audr.Adapters.Scope.{Attribution}
use audr.Adapters.Reading.{resolve_attribution}
use audr.Adapters.Recording.{Resource, generation, embedding, reranking}
use audr.Runs.Tracker.{
  TrackedCall, ToolSpan, RootCall, add, call_at, find, start_root, start_child, add_child, end_call,
  update_at, open_tool_span, tool_span_for, close_tool_span, open_if,
}
use audr.Runs.Lineage.{All-map, All-update_at, All-call_at, OnSome}
use audr.Runs.Telemetry.{
  Action, warns, records, Diagnostic, record_not_queued, Host, AudrTelemetry, RecordParts,
  counter_at, bump, fresh, warn, track, write_call, record_call, record_input, count_step,
}
use audr.Runs.Hooks.{
  get_call, Resolved, resolves, fails, on_tracked, on_resolved, model_resource, record_generation,
  record_embedding, record_reranking, model_calls_up, rerank_calls_up, start_call, start_resolved,
  on_start, warn_unsupported_once, on_language_model_call_end, on_tool_execution_start,
  on_tool_execution_end, on_embed_end, on_rerank_end, execute_tool, Hook, starts, model_ends,
  tool_starts, executes, tool_ends, embed_ends, rerank_ends, ends, call_hook, call_hooks,
}

-- `0, 1, …`, up to and without `n`.
unfoldable pub upto : ℕ → List (Option ℕ)
upto zero = []
upto (suc n) = upto n ++ (some n ∷ [])

-- The steps of the records that count with a counter, in the order in which they are made.
unfoldable pub steps_of : {W : Type 0} → ℕ → List (Action W) → List (Option ℕ)
steps_of k [] = []
steps_of k (warns d ∷ log) = steps_of k log
steps_of k (records j input ∷ log) =
    let later = steps_of k log in if j == k then input.run.step ∷ later else later

counter_at-append : (ns : List ℕ) (k : ℕ) → counter_at (ns ++ (0 ∷ [])) k ≡ counter_at ns k
unfolding counter_at
counter_at-append [] zero = refl
counter_at-append [] (suc k) = refl
counter_at-append (n ∷ ns) zero = refl
counter_at-append (n ∷ ns) (suc k) = counter_at-append ns k

counter_at-bump :
    (j : ℕ) (ns : List ℕ) (k : ℕ)
    → j < length ns
    → counter_at (bump j ns) k ≡ (if j == k then suc (counter_at ns k) else counter_at ns k)
unfolding counter_at bump
counter_at-bump j [] k h = absurd (omega (arith, h))
counter_at-bump zero (n ∷ ns) zero h = ground arith
counter_at-bump zero (n ∷ ns) (suc k) h = ground arith
counter_at-bump (suc j) (n ∷ ns) zero h = ground arith
counter_at-bump (suc j) (n ∷ ns) (suc k) h = ground (arith, counter_at-bump j ns k)

length-bump : (j : ℕ) (ns : List ℕ) → length (bump j ns) ≡ length ns
unfolding bump
length-bump j [] = refl
length-bump zero (n ∷ ns) = refl
length-bump (suc j) (n ∷ ns) = ap suc (length-bump j ns)

count_on :
    (b : Bool) (here now : ℕ) (l : List (Option ℕ))
    → (b ≡ true → here ≡ now)
    → l ≡ upto now
    → l ++ (if b then some here ∷ [] else []) ≡ upto (if b then suc now else now)
unfolding upto
count_on true here now l same h = ap₂ (λ l n. l ++ (some n ∷ [])) h (same refl)
count_on false here now l same h = append-nil l ∙ h

step_added :
    (ns : List ℕ) (j k : ℕ) (l : List (Option ℕ))
    → j < length ns
    → l ≡ upto (counter_at ns k)
    → l ++ (if j == k then some (counter_at ns j) ∷ [] else []) ≡ upto (counter_at (bump j ns) k)
step_added ns j k l g h =
    count_on (j == k) (counter_at ns j) (counter_at ns k) l
      (λ e. ap (counter_at ns) (ground (arith, e))) h
    ∙ ap upto (sym (counter_at-bump j ns k g))

abbrev Known : ℕ → TrackedCall → Type 0
Known n call = call.steps < n

module _ {W : Type 0} where
  steps_of-append :
      (k : ℕ) (one two : List (Action W))
      → steps_of k (one ++ two) ≡ steps_of k one ++ steps_of k two
  unfolding steps_of
  steps_of-append k [] two = refl
  steps_of-append k (warns d ∷ one) two = steps_of-append k one two
  steps_of-append k (records j input ∷ one) two = elim (Bool-cases (j == k)) [
    | inl e ↦ simp e (ap (λ l. input.run.step ∷ l) (steps_of-append k one two))
    | inr e ↦ simp e (steps_of-append k one two)
  ]

  pub record IsCounted (s : AudrTelemetry W) : Type 0 where
    pub counted : (k : ℕ) → steps_of k s.log ≡ upto (counter_at s.tracker.counters k)
    pub known : All (Known (length s.tracker.counters)) s.tracker.store

  warn-IsCounted : (d : Diagnostic) (s : AudrTelemetry W) → IsCounted s → IsCounted (warn d s)
  unfolding steps_of
  warn-IsCounted d s h = record {
    counted = λ k. steps_of-append k s.log (warns d ∷ []) ∙ append-nil _ ∙ h.counted k;
    known = h.known;
  }

  start_root-IsCounted :
      (root : RootCall) (s : AudrTelemetry W) → IsCounted s → IsCounted (track (start_root root) s)
  unfolding start_root add
  start_root-IsCounted root s h = record {
    counted = λ k. h.counted k ∙ ap upto (sym (counter_at-append s.tracker.counters k));
    known =
        All-append (Known (length (s.tracker.counters ++ (0 ∷ [])))) s.tracker.store _
          (All-map (Known (length s.tracker.counters)) _ s.tracker.store
            (λ c g. omega (arith, g, length-append s.tracker.counters (0 ∷ []))) h.known)
          (omega (arith, length-append s.tracker.counters (0 ∷ [])), tt);
  }

  write_call-IsCounted :
      (n : ℕ) (f : TrackedCall → TrackedCall) (s : AudrTelemetry W)
      → ((c : TrackedCall) → (f c).steps ≡ c.steps)
      → IsCounted s
      → IsCounted (track (write_call n f) s)
  unfolding update_at
  write_call-IsCounted n f s same h = record {
    counted = h.counted;
    known =
        All-update_at (Known (length s.tracker.counters)) n f s.tracker.store
          (λ c g. omega (arith, g, same c)) h.known;
  }

  count_step-IsCounted :
      (call : TrackedCall) (parts : RecordParts W) (s : AudrTelemetry W)
      → call.steps < length s.tracker.counters
      → IsCounted s
      → IsCounted
          (count_step call (record_input call (counter_at s.tracker.counters call.steps) parts) s)
  unfolding steps_of
  count_step-IsCounted call parts s g h = record {
    counted = λ k.
        steps_of-append k s.log _
        ∙ step_added s.tracker.counters call.steps k (steps_of k s.log) g (h.counted k);
    known =
        All-map (Known (length s.tracker.counters)) _ s.tracker.store
          (λ c b. omega (arith, b, length-bump call.steps s.tracker.counters)) h.known;
  }

  if-IsCounted :
      (b : Bool) (x y : AudrTelemetry W)
      → IsCounted x
      → IsCounted y
      → IsCounted (if b then x else y)
  if-IsCounted true x y hx hy = hx
  if-IsCounted false x y hx hy = hy

  record_call-IsCounted :
      (host : Host W) (call : TrackedCall) (parts : RecordParts W) (s : AudrTelemetry W)
      → call.steps < length s.tracker.counters
      → IsCounted s
      → IsCounted (record_call host call parts s)
  unfolding record_call
  record_call-IsCounted host call parts s g h =
      let counted = count_step-IsCounted call parts s g h in
      if-IsCounted _ _ _ counted (warn-IsCounted (record_not_queued call.operation_id) _ counted)

  start_child-IsCounted :
      (call_id operation_id : String) (span : ToolSpan) (s : AudrTelemetry W)
      → IsCounted s
      → IsCounted (track (start_child call_id operation_id span) s)
  unfolding start_child add
  start_child-IsCounted call_id operation_id span s h =
      go (call_at s.tracker.store span.call)
        (All-call_at (Known (length s.tracker.counters)) s.tracker.store span.call h.known)
    where
      go :
          (parent : Option TrackedCall)
          → OnSome (Known (length s.tracker.counters)) parent
          → IsCounted (track (add_child call_id operation_id span.span_id parent) s)
      go none g = h
      go (some parent) g = record {
        counted = h.counted;
        known = All-append (Known (length s.tracker.counters)) s.tracker.store _ h.known (g, tt);
      }

  on_tracked-IsCounted :
      (host : Host W) (call_id : String)
      (body : ℕ → TrackedCall → AudrTelemetry W → AudrTelemetry W) (s : AudrTelemetry W)
      → ((n : ℕ) (call : TrackedCall)
          → call.steps < length s.tracker.counters
          → IsCounted (body n call s))
      → IsCounted s
      → IsCounted (on_tracked host (get_call call_id s.tracker) body s)
  unfolding get_call
  on_tracked-IsCounted host call_id body s k h = at_key (find call_id s.tracker.calls)
    where
      at_reference :
          (n : ℕ) (o : Option TrackedCall)
          → OnSome (Known (length s.tracker.counters)) o
          → IsCounted (on_tracked host (elim o [ none ↦ none | some call ↦ some (n, call) ]) body s)
      at_reference n none g = h
      at_reference n (some call) g = k n call g

      at_key :
          (o : Option ℕ)
          → IsCounted (
              on_tracked host
                (elim o [
                  | none ↦ none
                  | some n ↦ elim (call_at s.tracker.store n) [
                    | none ↦ none
                    | some call ↦ some (n, call)
                  ]
                ])
                body
                s)
      at_key none = h
      at_key (some n) =
          at_reference n (call_at s.tracker.store n)
            (All-call_at (Known (length s.tracker.counters)) s.tracker.store n h.known)

  on_resolved-IsCounted :
      (host : Host W) (r : Resolved) (body : Resource → AudrTelemetry W → AudrTelemetry W)
      (s : AudrTelemetry W)
      → ((resource : Resource) → IsCounted (body resource s))
      → IsCounted s
      → IsCounted (on_resolved host r body s)
  unfolding on_resolved
  on_resolved-IsCounted host (fails d) body s k h = warn-IsCounted d s h
  on_resolved-IsCounted host (resolves resource) body s k h = k resource

  start_resolved-IsCounted :
      (host : Host W) (call_id operation_id : String) (name : Option String)
      (a : Option Attribution) (s : AudrTelemetry W)
      → IsCounted s
      → IsCounted (start_resolved host call_id operation_id name a s)
  start_resolved-IsCounted host call_id operation_id name none s h = warn-IsCounted _ s h
  start_resolved-IsCounted host call_id operation_id name (some a) s h = start_root-IsCounted _ s h

  start_call-IsCounted :
      (host : Host W) (span : Option ToolSpan) (call_id operation_id : String)
      (name : Option String) (context : Json) (s : AudrTelemetry W)
      → IsCounted s
      → IsCounted (start_call host span call_id operation_id name context s)
  start_call-IsCounted host (some span) call_id operation_id name context s h =
      start_child-IsCounted call_id operation_id span s h
  start_call-IsCounted host none call_id operation_id name context s h =
      start_resolved-IsCounted host call_id operation_id name
        (resolve_attribution context host.defaults) s h

open_if-steps :
    (span : Option String) (tool : String) (c : TrackedCall) → (open_if span tool c).steps ≡ c.steps
unfolding open_tool_span
open_if-steps none tool c = refl
open_if-steps (some span) tool c = refl

tool_span_for-steps : (tool : String) (c : TrackedCall) → (tool_span_for tool c).steps ≡ c.steps
unfolding tool_span_for
tool_span_for-steps tool c = open_if-steps (find tool c.open_tool_spans) tool c

close_tool_span-steps : (tool : String) (c : TrackedCall) → (close_tool_span tool c).steps ≡ c.steps
unfolding close_tool_span
close_tool_span-steps tool c = tool_span_for-steps tool c

open_tool_span-steps : (tool : String) (c : TrackedCall) → (open_tool_span tool c).steps ≡ c.steps
unfolding open_tool_span
open_tool_span-steps tool c = refl

module _ {W : Type 0} ⦃d : Double W⦄ (host : Host W) where
  call_hook-IsCounted :
      (hook : Hook W) (s : AudrTelemetry W) → IsCounted s → IsCounted (call_hook host hook s)
  unfolding call_hook on_start warn_unsupported_once on_language_model_call_end
      on_tool_execution_start on_tool_execution_end on_embed_end on_rerank_end execute_tool end_call
      record_generation record_embedding record_reranking
  call_hook-IsCounted (starts span call_id operation_id name context) s h =
      if-IsCounted _ _ _
        (if-IsCounted _ _ _ h (
          warn-IsCounted _
            (record s { warned_unsupported = s.warned_unsupported ++ (operation_id ∷ []) })
            (record { counted = h.counted; known = h.known })))
        (start_call-IsCounted host span call_id operation_id _ context s h)
  call_hook-IsCounted (model_ends call_id provider model_id time usage) s h =
      on_tracked-IsCounted host call_id _ s
        (λ n call g.
          on_resolved-IsCounted host (model_resource host call provider model_id generation)
            (record_generation host call_id time usage n call) s
            (λ resource.
              record_call-IsCounted host call _ (track (write_call n model_calls_up) s) g
                (write_call-IsCounted n model_calls_up s (λ c. refl) h))
            h)
        h
  call_hook-IsCounted (tool_starts call_id tool_call_id) s h =
      on_tracked-IsCounted host call_id _ s
        (λ n call g. write_call-IsCounted n _ s (open_tool_span-steps tool_call_id) h) h
  call_hook-IsCounted (executes call_id tool_call_id) s h =
      on_tracked-IsCounted host call_id _ s
        (λ n call g. write_call-IsCounted n _ s (tool_span_for-steps tool_call_id) h) h
  call_hook-IsCounted (tool_ends call_id tool_call_id name time is_error) s h =
      on_tracked-IsCounted host call_id _ s
        (λ n call g.
          record_call-IsCounted host call _ _ g
            (write_call-IsCounted n _ s (close_tool_span-steps tool_call_id) h))
        h
  call_hook-IsCounted (embed_ends call_id embed_call_id provider model_id elapsed tokens) s h =
      on_tracked-IsCounted host call_id _ s
        (λ n call g.
          on_resolved-IsCounted host (model_resource host call provider model_id embedding)
            (record_embedding host embed_call_id elapsed tokens call) s
            (λ resource. record_call-IsCounted host call _ s g h) h)
        h
  call_hook-IsCounted (rerank_ends call_id provider model_id elapsed) s h =
      on_tracked-IsCounted host call_id _ s
        (λ n call g.
          on_resolved-IsCounted host (model_resource host call provider model_id reranking)
            (record_reranking host call_id elapsed n call) s
            (λ resource.
              record_call-IsCounted host call _ (track (write_call n rerank_calls_up) s) g
                (write_call-IsCounted n rerank_calls_up s (λ c. refl) h))
            h)
        h
  call_hook-IsCounted (ends call_id) s h = record { counted = h.counted; known = h.known }

  call_hooks-IsCounted :
      (hooks : List (Hook W)) (s : AudrTelemetry W)
      → IsCounted s
      → IsCounted (call_hooks host hooks s)
  unfolding call_hooks
  call_hooks-IsCounted [] s h = h
  call_hooks-IsCounted (hook ∷ hooks) s h =
      call_hooks-IsCounted hooks _ (call_hook-IsCounted hook s h)

  -- Whatever hooks the AI SDK calls, in any order: the records of the calls that share a step counter, a root with all of
  -- its children, have the steps 0, 1, 2 and so on, in the order in which they are recorded.
  pub call_hooks-steps :
      (hooks : List (Hook W)) (k : ℕ)
      → let s = call_hooks host hooks fresh in
        steps_of k s.log ≡ upto (counter_at s.tracker.counters k)
  unfolding steps_of upto counter_at
  call_hooks-steps hooks k =
      (call_hooks-IsCounted hooks fresh (record { counted = λ k. refl; known = tt })).counted k
