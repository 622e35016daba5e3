-- ===== src/Adapters/Effects.antt =====
-- What a step of an adapter does, in order: it records, or it writes a diagnostic; and how much of either.
use audr.Base.{ℕ, suc, ◌+◌, ◌≡◌, refl, Bool, true, false, List, [], ◌∷◌, ◌++◌, if◌then◌else◌, arith}
use audr.Adapters.Recording.{RecordInput}

pub data Effect (D W : Type 0) : Type 0 where
  warns : D → Effect D W
  records : RecordInput W → Effect D W

-- Which diagnostics say why a call is not recorded.
pub record Reasons (D : Type 0) : Type 0 where
  pub is_reason : D → Bool

-- `if (…) warn(…)`
unfoldable pub warn_if : {D W : Type 0} → Bool → D → List (Effect D W)
warn_if true d = warns d ∷ []
warn_if false d = []

unfoldable pub record_count : {D W : Type 0} → List (Effect D W) → ℕ
record_count [] = 0
record_count (warns d ∷ es) = record_count es
record_count (records r ∷ es) = suc (record_count es)

module _ {D W : Type 0} ⦃r : Reasons D⦄ where
  unfoldable pub reason_count : List (Effect D W) → ℕ
  reason_count [] = 0
  reason_count (warns d ∷ es) =
      let later = reason_count es in if r.is_reason d then suc later else later
  reason_count (records r ∷ es) = reason_count es

  unfoldable pub outcome_count : List (Effect D W) → ℕ
  unfolding record_count reason_count
  outcome_count es = record_count es + reason_count es

  pub outcome_count-append :
      (es fs : List (Effect D W)) → outcome_count (es ++ fs) ≡ outcome_count es + outcome_count fs
  unfolding outcome_count record_count reason_count
  outcome_count-append [] fs = omega arith
  outcome_count-append (warns d ∷ es) fs = ground (arith, outcome_count-append es fs)
  outcome_count-append (records r ∷ es) fs = omega (arith, outcome_count-append es fs)

  pub outcome_count-skip :
      (es fs : List (Effect D W))
      → outcome_count es ≡ 0
      → outcome_count fs ≡ 1
      → outcome_count (es ++ fs) ≡ 1
  outcome_count-skip es fs h g = omega (arith, outcome_count-append es fs)

pub outcome_count-warn_if :
    {D : Type 0} ⦃r : Reasons D⦄ (W : Type 0) (b : Bool) (d : D)
    → r.is_reason d ≡ false
    → outcome_count (warn_if {W = W} b d) ≡ 0
unfolding warn_if outcome_count record_count reason_count
outcome_count-warn_if W true d h = rw h refl
outcome_count-warn_if W false d h = refl
