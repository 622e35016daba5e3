-- ===== src/Retrying/Delays.antt =====
-- The delays of `RetryPolicy`, retry.ts of sinks/lago/typescript/src.
use audr.Base.{◌≡◌, refl, ap, subst, Bool, true, false, Option, none, some, String, arith}
use audr.Base.Result.{Result, ok, error}
use audr.Retrying.Policy.{
  Floats, RetryOptions, RetryPolicy, max_delay_ms, finite, defaulted, fault_of, unless_fault,
  create_policy, backoff, jittered, hinted, delay_ms,
}

-- What holds of the numbers of JavaScript; a comparison with NaN is false. `is_number` says that a number is not NaN.
pub record IsOrdered (W : Type 0) ⦃f : Floats W⦄ : Type 0 where
  pub is_number : W → Bool
  pub finite_number : (a : W) → f.is_finite a ≡ true → is_number a ≡ true
  pub below_trans :
      (a b c : W)
      → is_number b ≡ true
      → f.below a b ≡ false
      → f.below b c ≡ false
      → f.below a c ≡ false
  pub minimum_number :
      (a b : W) → is_number a ≡ true → is_number b ≡ true → is_number (f.minimum a b) ≡ true
  pub minimum_left : (a b : W) → f.below a (f.minimum a b) ≡ false
  pub minimum_mono :
      (a b c : W) → f.below b c ≡ false → f.below (f.minimum a b) (f.minimum a c) ≡ false
  pub minimum_positive :
      (a b : W)
      → f.below a (f.of_nat 0) ≡ false
      → f.below b (f.of_nat 0) ≡ false
      → f.below (f.minimum a b) (f.of_nat 0) ≡ false
  pub maximum_right : (a b : W) → f.below (f.maximum a b) b ≡ false
  pub times_positive :
      (a b : W)
      → f.below a (f.of_nat 0) ≡ false
      → f.below b (f.of_nat 0) ≡ false
      → f.below (f.times a b) (f.of_nat 0) ≡ false
  pub power_positive :
      (a b : W) → f.below a (f.of_nat 1) ≡ false → f.below (f.power a b) (f.of_nat 0) ≡ false
  pub times_share :
      (a b : W)
      → f.below a (f.of_nat 1) ≡ true
      → f.below b (f.of_nat 0) ≡ false
      → f.below b (f.times a b) ≡ false

abbrev given : {A : Type 0} → A → Result A → A
given a (ok b) = b
given a (error message) = a

ok-injective : {A : Type 0} {a b : A} → ok a ≡ ok b → a ≡ b
ok-injective {a} h = ap (given a) h

module _ {W : Type 0} ⦃f : Floats W⦄ where
  -- What the constructor has tested.
  record IsChecked (p : RetryPolicy W) : Type 0 where
    attempts : f.below p.max_attempts (f.of_nat 1) ≡ false
    initial : f.below p.initial_backoff_ms (f.of_nat 0) ≡ false
    finite_max : f.is_finite p.max_backoff_ms ≡ true
    positive_max : f.below p.max_backoff_ms (f.of_nat 0) ≡ false
    grows : f.below p.multiplier (f.of_nat 1) ≡ false
    honoured : f.below (f.of_nat max_delay_ms) p.max_backoff_ms ≡ false

  fault_of-IsChecked : (p : RetryPolicy W) → fault_of p ≡ none → IsChecked p
  unfolding fault_of finite
  fault_of-IsChecked p h = record {
    attempts = ground (arith, h);
    initial = ground (arith, h);
    finite_max = ground (arith, h);
    positive_max = ground (arith, h);
    grows = ground (arith, h);
    honoured = ground (arith, h);
  }

  created :
      (q p : RetryPolicy W) (o : Option String)
      → fault_of q ≡ o
      → unless_fault o q ≡ ok p
      → IsChecked p
  created q p none e h = subst IsChecked (ok-injective h) (fault_of-IsChecked q e)
  created q p (some message) e h = absurd (ground (arith, h))

  create_policy-IsChecked :
      (options : RetryOptions W) (p : RetryPolicy W) → create_policy options ≡ ok p → IsChecked p
  unfolding create_policy
  create_policy-IsChecked options p h =
      created (defaulted options) p (fault_of (defaulted options)) refl h

  -- A delay is not shorter than its hint, where the hint is not above the cap.
  abbrev pub Waits : RetryPolicy W → W → Option W → Type 0
  Waits p delay none = Unit
  Waits p delay (some hint) = f.below delay (f.minimum p.max_backoff_ms hint) ≡ false

  jittered-capped :
      (o : IsOrdered W) (p : RetryPolicy W) (random attempt : W)
      → IsChecked p
      → f.below random (f.of_nat 1) ≡ true
      → o.is_number (backoff p attempt) ≡ true
      → f.below p.max_backoff_ms (jittered random p attempt) ≡ false
  jittered-capped o p random attempt c r n =
      let cap = p.max_backoff_ms in
      let ceiling = f.minimum cap (backoff p attempt) in
      let raised = o.power_positive p.multiplier (f.minus_one attempt) c.grows in
      let positive = o.minimum_positive cap (backoff p attempt) c.positive_max (
        o.times_positive p.initial_backoff_ms (f.power p.multiplier (f.minus_one attempt)) c.initial
          raised) in
      o.below_trans cap ceiling (jittered random p attempt)
        (o.minimum_number cap (backoff p attempt) (o.finite_number cap c.finite_max) n)
        (o.minimum_left cap (backoff p attempt)) (o.times_share random ceiling r positive)

  hinted-bounded :
      (o : IsOrdered W) (p : RetryPolicy W) (jitter : W) (hint : Option W)
      → f.below p.max_backoff_ms jitter ≡ false
      → (f.below p.max_backoff_ms (hinted p jitter hint) ≡ false)
        × Waits p (hinted p jitter hint) hint
  hinted-bounded o p jitter none h = (h, tt)
  hinted-bounded o p jitter (some hint) h = (
    o.minimum_left p.max_backoff_ms (f.maximum jitter hint),
    o.minimum_mono p.max_backoff_ms (f.maximum jitter hint) hint (o.maximum_right jitter hint),
  )

  -- Under a policy that the constructor accepts, at least one attempt is made, and a delay is neither above `maxBackoffMs` nor above what
  -- `setTimeout` honours, nor shorter than a hint that is not above `maxBackoffMs`; when the backoff of the attempt is not NaN
  -- and what `Math.random()` gives is below 1.
  pub delay_ms-bounded :
      (o : IsOrdered W) (options : RetryOptions W) (p : RetryPolicy W) (random attempt : W)
      (hint : Option W)
      → create_policy options ≡ ok p
      → f.below random (f.of_nat 1) ≡ true
      → o.is_number (backoff p attempt) ≡ true
      → let delay = delay_ms random p attempt hint in
        (f.below p.max_attempts (f.of_nat 1) ≡ false)
        × (f.below p.max_backoff_ms delay ≡ false)
        × (f.below (f.of_nat max_delay_ms) delay ≡ false)
        × Waits p delay hint
  unfolding delay_ms
  delay_ms-bounded o options p random attempt hint h r n =
      let c = create_policy-IsChecked options p h in
      let b =
        hinted-bounded o p (jittered random p attempt) hint
          (jittered-capped o p random attempt c r n) in
      (
        c.attempts,
        b.0,
        o.below_trans (f.of_nat max_delay_ms) p.max_backoff_ms
            (hinted p (jittered random p attempt) hint)
            (o.finite_number p.max_backoff_ms c.finite_max) c.honoured b.0,
        b.1,
      )
