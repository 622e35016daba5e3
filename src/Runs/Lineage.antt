-- ===== src/Runs/Lineage.antt =====
-- Who shares a run.
use audr.Base.{
  ℕ, zero, suc, ◌<◌, ◌≡◌, sym, ap, subst, ◌∙◌, if◌then◌else◌, ◌==◌, List, [], ◌∷◌, ◌++◌, Option,
  none, some, String, arith, length, All, All-append, length-append,
}
use audr.Adapters.Scope.{Attribution, no_attribution}
use audr.Adapters.Recording.{RunType, single_call}
use audr.Runs.Tracker.{
  TrackedCall, ToolSpan, RootCall, CallTracker, call_at, add, start_root, start_child, root_call,
  add_child, open_if, find, end_call, update_at, open_tool_span, tool_span_for, close_tool_span,
}

-- What happens to a tracker; the last two name a call by its reference.
pub data Event : Type 0 where
  starts_root : RootCall → Event
  starts_child : String → String → ToolSpan → Event
  ends : String → Event
  opens_span closes_span : ℕ → String → Event

unfoldable pub step : CallTracker → Event → CallTracker
unfolding start_root start_child end_call open_tool_span close_tool_span update_at
step t (starts_root root) = start_root root t
step t (starts_child call_id operation_id span) = start_child call_id operation_id span t
step t (ends call_id) = end_call call_id t
step t (opens_span n tool) = record t { store = update_at n (open_tool_span tool) t.store }
step t (closes_span n tool) = record t { store = update_at n (close_tool_span tool) t.store }

unfoldable pub run : CallTracker → List Event → CallTracker
unfolding step
run t [] = t
run t (e ∷ es) = run (step t e) es

abbrev pub empty : CallTracker
empty = record { store = []; counters = []; calls = [] }

-- What the calls of one run have in common.
pub record Lineage : Type 0 where
  pub run_id : String
  pub attribution : Attribution
  pub run_type : RunType
  pub name : Option String

abbrev pub lineage : TrackedCall → Lineage
lineage c = record {
  run_id = c.run_id;
  attribution = c.attribution;
  run_type = c.run_type;
  name = c.name;
}

-- The run that a step counter belongs to settles the lineage of every call that counts with it.
record Follows (f : ℕ → Lineage) (n : ℕ) (c : TrackedCall) : Type 0 where
  known : c.steps < n
  same : lineage c ≡ f c.steps

IsConsistent : CallTracker → Type 0
IsConsistent t = (f : ℕ → Lineage) × All (Follows f (length t.counters)) t.store

pub All-map :
    {A : Type 0} (P Q : A → Type 0) (xs : List A) → ((x : A) → P x → Q x) → All P xs → All Q xs
All-map P Q [] g h = tt
All-map P Q (x ∷ xs) g h = (g x h.0, All-map P Q xs g h.1)

pub All-update_at :
    (P : TrackedCall → Type 0) (n : ℕ) (g : TrackedCall → TrackedCall) (cs : List TrackedCall)
    → ((c : TrackedCall) → P c → P (g c))
    → All P cs
    → All P (update_at n g cs)
unfolding update_at
All-update_at P n g [] k h = tt
All-update_at P zero g (c ∷ cs) k h = (k c h.0, h.1)
All-update_at P (suc n) g (c ∷ cs) k h = (h.0, All-update_at P n g cs k h.1)

abbrev pub OnSome : (TrackedCall → Type 0) → Option TrackedCall → Type 0
OnSome P none = Unit
OnSome P (some c) = P c

pub All-call_at :
    (P : TrackedCall → Type 0) (cs : List TrackedCall) (n : ℕ) → All P cs → OnSome P (call_at cs n)
unfolding call_at
All-call_at P [] n h = tt
All-call_at P (c ∷ cs) zero h = h.0
All-call_at P (c ∷ cs) (suc n) h = All-call_at P cs n h.1

-- A new counter belongs to the run that it is made for.
abbrev extend : (ℕ → Lineage) → ℕ → Lineage → ℕ → Lineage
extend f n l k = if k == n then l else f k

start_root-IsConsistent :
    (root : RootCall) (t : CallTracker) → IsConsistent t → IsConsistent (start_root root t)
unfolding start_root add IsConsistent
start_root-IsConsistent root t (f, h) =
    let n = length t.counters in
    let l = lineage (root_call n root) in
    (
      extend f n l,
      All-append (Follows (extend f n l) (length (t.counters ++ 0 ∷ []))) t.store _
          (All-map (Follows f n) _ t.store
            (λ c s. record {
              known = omega (arith, s.known, length-append t.counters (0 ∷ []));
              same = ground (arith, s.known, s.same);
            })
            h)
          (
            record {
              known = omega (arith, length-append t.counters (0 ∷ []));
              same = ground arith;
            },
            tt,
          ),
    )

start_child-IsConsistent :
    (call_id operation_id : String) (span : ToolSpan) (t : CallTracker)
    → IsConsistent t
    → IsConsistent (start_child call_id operation_id span t)
unfolding start_child add IsConsistent
start_child-IsConsistent call_id operation_id span t (f, h) =
    go (call_at t.store span.call) (All-call_at (Follows f (length t.counters)) t.store span.call h)
  where
    go :
        (parent : Option TrackedCall)
        → OnSome (Follows f (length t.counters)) parent
        → IsConsistent (add_child call_id operation_id span.span_id parent t)
    go none s = (f, h)
    go (some parent) s = (
      f,
      All-append (Follows f (length t.counters)) t.store _ h
          (record { known = s.known; same = s.same }, tt),
    )

open_if-Follows :
    (f : ℕ → Lineage) (n : ℕ) (span : Option String) (tool : String) (c : TrackedCall)
    → Follows f n c
    → Follows f n (open_if span tool c)
unfolding open_tool_span
open_if-Follows f n (some span) tool c s = s
open_if-Follows f n none tool c s = record { known = s.known; same = s.same }

tool_span-Follows :
    (f : ℕ → Lineage) (n : ℕ) (tool : String) (c : TrackedCall)
    → Follows f n c
    → Follows f n (open_tool_span tool c) × Follows f n (close_tool_span tool c)
unfolding open_tool_span close_tool_span tool_span_for
tool_span-Follows f n tool c s =
    let closed = open_if-Follows f n (find tool c.open_tool_spans) tool c s in
    (record { known = s.known; same = s.same }, record { known = closed.known; same = closed.same })

step-IsConsistent : (t : CallTracker) (e : Event) → IsConsistent t → IsConsistent (step t e)
unfolding step end_call IsConsistent
step-IsConsistent t (starts_root root) h = start_root-IsConsistent root t h
step-IsConsistent t (starts_child call_id operation_id span) h =
    start_child-IsConsistent call_id operation_id span t h
step-IsConsistent t (ends call_id) h = h
step-IsConsistent t (opens_span n tool) (f, h) = (
  f,
  All-update_at _ n (open_tool_span tool) t.store
      (λ c s. (tool_span-Follows f (length t.counters) tool c s).0) h,
)
step-IsConsistent t (closes_span n tool) (f, h) = (
  f,
  All-update_at _ n (close_tool_span tool) t.store
      (λ c s. (tool_span-Follows f (length t.counters) tool c s).1) h,
)

run-IsConsistent : (t : CallTracker) (es : List Event) → IsConsistent t → IsConsistent (run t es)
unfolding run
run-IsConsistent t [] h = h
run-IsConsistent t (e ∷ es) h = run-IsConsistent (step t e) es (step-IsConsistent t e h)

-- Whatever roots and children start and end, and whatever spans open and close meanwhile: any two calls that were
-- ever tracked and share a step counter have the same run, attribution, run type and name.
pub run-lineage :
    (es : List Event) (i j : ℕ) {c d : TrackedCall}
    → call_at (run empty es).store i ≡ some c
    → call_at (run empty es).store j ≡ some d
    → c.steps ≡ d.steps
    → lineage c ≡ lineage d
unfolding IsConsistent
run-lineage es i j {c} {d} ec ed e =
    let (f, h) = run-IsConsistent empty es (f₀, tt) in
    let P = Follows f (length (run empty es).counters) in
    let sc = subst (OnSome P) ec (All-call_at P (run empty es).store i h) in
    let sd = subst (OnSome P) ed (All-call_at P (run empty es).store j h) in
    sc.same ∙ ap f e ∙ sym sd.same
  where
    f₀ : ℕ → Lineage
    f₀ n = record { run_id = ""; attribution = no_attribution; run_type = single_call; name = none }
