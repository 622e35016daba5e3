-- ===== src/Runs/Tracker.antt =====
-- adapters/vercel-ai/typescript/src/runs.ts: the class `CallTracker` and the tool spans. Calls are objects that
-- spans share, so they live in a store, where a reference is a position; `steps` is a reference to a counter.
-- The `AsyncLocalStorage` that finds the current span is left out.
use Prim.Native.String
use audr.Base.{
  ℕ, zero, suc, ◌+◌, not, List, [], ◌∷◌, ◌++◌, Option, none, some, String, str_eq, if◌then◌else◌,
  length, filter_by,
}
use audr.Base.Text.{decimal}
use audr.Adapters.Scope.{Attribution}
use audr.Adapters.Recording.{RunType}

-- `TrackedCall`, without the times of embeddings and rerankings.
pub record TrackedCall : Type 0 where
  pub call_id : String
  pub run_id : String
  pub operation_id : String
  pub parent_span_id : Option String
  pub attribution : Attribution
  pub run_type : RunType
  pub name : Option String
  pub steps : ℕ
  pub model_calls : ℕ
  pub rerank_calls : ℕ
  pub tool_calls : ℕ
  pub open_tool_spans : List (String × String)

-- `ToolSpan`, with the call as a reference.
pub record ToolSpan : Type 0 where
  pub call : ℕ
  pub span_id : String

pub record RootCall : Type 0 where
  pub call_id : String
  pub operation_id : String
  pub attribution : Attribution
  pub run_type : RunType
  pub name : Option String

-- The calls that were ever made, the counters, and the map `#calls`.
pub record CallTracker : Type 0 where
  pub store : List TrackedCall
  pub counters : List ℕ
  pub calls : List (String × ℕ)

unfoldable pub call_at : List TrackedCall → ℕ → Option TrackedCall
call_at [] n = none
call_at (c ∷ cs) zero = some c
call_at (c ∷ cs) (suc n) = call_at cs n

-- `Map.set`, which keeps the place of a key that is there.
unfoldable pub set {ℓ} : {A : Type ℓ} → String → A → List (String × A) → List (String × A)
set key a [] = (key, a) ∷ []
set key a ((k, b) ∷ rest) =
    let later = set key a rest in if str_eq k key then (k, a) ∷ rest else (k, b) ∷ later

unfoldable pub find {ℓ} : {A : Type ℓ} → String → List (String × A) → Option A
find key [] = none
find key ((k, a) ∷ rest) = let later = find key rest in if str_eq k key then some a else later

unfoldable pub delete {ℓ} : {A : Type ℓ} → String → List (String × A) → List (String × A)
delete key entries = filter_by (λ e. not (str_eq e.0 key)) entries

-- `#add`: a new object.
unfoldable pub add : TrackedCall → CallTracker → CallTracker
unfolding set
add call t = record t {
  store = t.store ++ call ∷ [];
  calls = set call.call_id (length t.store) t.calls;
}

abbrev pub root_call : ℕ → RootCall → TrackedCall
root_call steps root = record {
  call_id = root.call_id;
  run_id = root.call_id;
  operation_id = root.operation_id;
  parent_span_id = none;
  attribution = root.attribution;
  run_type = root.run_type;
  name = root.name;
  steps = steps;
  model_calls = 0;
  rerank_calls = 0;
  tool_calls = 0;
  open_tool_spans = [];
}

-- `startRoot`
unfoldable pub start_root : RootCall → CallTracker → CallTracker
unfolding add
start_root root t =
    add (root_call (length t.counters) root) (record t { counters = t.counters ++ 0 ∷ [] })

abbrev pub child_call : String → String → String → TrackedCall → TrackedCall
child_call call_id operation_id span_id parent = record {
  call_id = call_id;
  run_id = parent.run_id;
  operation_id = operation_id;
  parent_span_id = some span_id;
  attribution = parent.attribution;
  run_type = parent.run_type;
  name = parent.name;
  steps = parent.steps;
  model_calls = 0;
  rerank_calls = 0;
  tool_calls = 0;
  open_tool_spans = [];
}

abbrev pub add_child : String → String → String → Option TrackedCall → CallTracker → CallTracker
add_child call_id operation_id span_id none t = t
add_child call_id operation_id span_id (some parent) t =
    add (child_call call_id operation_id span_id parent) t

-- `startChild`; a reference is always to an object.
unfoldable pub start_child : String → String → ToolSpan → CallTracker → CallTracker
unfolding add call_at
start_child call_id operation_id span t =
    add_child call_id operation_id span.span_id (call_at t.store span.call) t

-- `end`
unfoldable pub end_call : String → CallTracker → CallTracker
unfolding delete
end_call call_id t = record t { calls = delete call_id t.calls }

-- Writing to an object.
unfoldable pub update_at : ℕ → (TrackedCall → TrackedCall) → List TrackedCall → List TrackedCall
update_at n f [] = []
update_at zero f (c ∷ cs) = f c ∷ cs
update_at (suc n) f (c ∷ cs) = c ∷ update_at n f cs

-- `toolSpanId` of mapping.ts.
unfoldable pub tool_span_id : String → ℕ → String → String
unfolding decimal
tool_span_id call_id index tool_call_id = String.◌++◌ "tool:" (
    String.◌++◌ call_id
      (String.◌++◌ ":" (String.◌++◌ (decimal index) (String.◌++◌ ":" tool_call_id))))

-- `openToolSpan`
unfoldable pub open_tool_span : String → TrackedCall → TrackedCall
unfolding set tool_span_id
open_tool_span tool_call_id call = record call {
  tool_calls = call.tool_calls + 1;
  open_tool_spans =
      set tool_call_id (tool_span_id call.call_id call.tool_calls tool_call_id)
        call.open_tool_spans;
}

abbrev pub open_if : Option String → String → TrackedCall → TrackedCall
open_if (some span) tool_call_id call = call
open_if none tool_call_id call = open_tool_span tool_call_id call

-- `toolSpanFor`: the call after it; its answer is the span that is open then.
unfoldable pub tool_span_for : String → TrackedCall → TrackedCall
unfolding open_tool_span find
tool_span_for tool_call_id call = open_if (find tool_call_id call.open_tool_spans) tool_call_id call

-- `closeToolSpan`
unfoldable pub close_tool_span : String → TrackedCall → TrackedCall
unfolding tool_span_for delete
close_tool_span tool_call_id call =
    let c = tool_span_for tool_call_id call in
    record c { open_tool_spans = delete tool_call_id c.open_tool_spans }
