-- ===== src/Retrying/Tests.antt =====
-- Whole numbers stand for those of JavaScript.
use audr.Base.{
  ℕ, zero, suc, ◌-◌, ◌*◌, ◌^◌, ◌≡◌, refl, true, false, none, some, ltb, min, max, arith,
}
use audr.Base.Result.{ok, error}
use audr.Retrying.Policy.{Floats, RetryOptions, RetryPolicy, max_delay_ms, create_policy, delay_ms}
use audr.Retrying.Delays.{IsOrdered, Waits, delay_ms-bounded}

instance abbrev whole : Floats ℕ
whole = record {
  of_nat = λ n. n;
  is_integer = λ n. true;
  is_finite = λ n. true;
  below = ltb;
  minimum = min;
  maximum = max;
  times = λ a b. a * b;
  power = λ a b. a ^ b;
  minus_one = λ a. a - 1;
}

no_share : (a b : ℕ) → ltb a 1 ≡ true → ltb b 0 ≡ false → ltb b (a * b) ≡ false
no_share zero b h g = ground arith
no_share (suc a) b h g = absurd (ground (arith, h))

whole_numbers : IsOrdered ℕ
whole_numbers = record {
  is_number = λ n. true;
  finite_number = λ a h. refl;
  below_trans = λ a b c n h g. ground (arith, h, g);
  minimum_number = λ a b h g. refl;
  minimum_left = λ a b. ground arith;
  minimum_mono = λ a b c h. ground (arith, h);
  minimum_positive = λ a b h g. ground arith;
  maximum_right = λ a b. ground arith;
  times_positive = λ a b h g. ground arith;
  power_positive = λ a b h. ground arith;
  times_share = no_share;
}

abbrev none_given : RetryOptions ℕ
none_given = record {
  max_attempts = none;
  initial_backoff_ms = none;
  max_backoff_ms = none;
  multiplier = none;
}

abbrev by_default : RetryPolicy ℕ
by_default = record {
  max_attempts = 3;
  initial_backoff_ms = 500;
  max_backoff_ms = 30000;
  multiplier = 2;
}

is_default : create_policy none_given ≡ ok by_default
unfolding create_policy
is_default = refl

no_attempts :
    create_policy (record none_given { max_attempts = some 0 })
    ≡ error "maxAttempts must be at least 1"
unfolding create_policy
no_attempts = refl

capped : delay_ms 0 by_default 2 (some 60000) ≡ 30000
unfolding delay_ms
capped = refl

delay_ms-bounded_example :
    let delay = delay_ms 0 by_default 2 (some 7000) in
    (ltb 3 1 ≡ false)
    × (ltb 30000 delay ≡ false)
    × (ltb max_delay_ms delay ≡ false)
    × Waits by_default delay (some 7000)
unfolding whole_numbers
delay_ms-bounded_example =
    delay_ms-bounded whole_numbers none_given by_default 0 2 (some 7000) is_default refl refl
