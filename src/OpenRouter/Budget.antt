-- ===== src/OpenRouter/Budget.antt =====
-- The lookup ends within its budget.
use audr.Base.{ℕ, ◌+◌, ◌≤◌, ◌<◌, ◌≡◌, Bool, true, false, Option, none, some}
use audr.OpenRouter.Lookup.{Service, LookupOptions, LookupOutcome}

-- The clock does not run backwards, and a sleep takes its time.
pub record IsClock (s : Service) (o : LookupOptions) : Type 0 where
  pub start : s.started ≤ s.before 0
  pub request : (n : ℕ) → s.before n ≤ s.after n
  pub sleep : (n wait : ℕ) → wait ≤ o.max_delay → s.after n + wait ≤ s.before (n + 1)

abbrev ends {ℓ} : {A : Type ℓ} → Option A → Bool
ends none = false
ends (some _) = true

pub record IsBudgeted {W : Type 0} (s : Service) (o : LookupOptions) (n : ℕ)
    (r : Option (LookupOutcome W) × ℕ) : Type 0 where
  pub over : ends r.0 ≡ true
  pub requests : (i : ℕ) → n ≤ i → i < r.1 → s.before i < s.started + o.max_wait
