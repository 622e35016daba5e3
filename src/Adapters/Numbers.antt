-- ===== src/Adapters/Numbers.antt =====
-- The numbers of JavaScript, as far as the adapters compute with them, and the token counters that they make
-- of usage: `exclusive` of adapters/openrouter/typescript/src/mapping.ts.
use audr.Base.{
  ℕ, ◌+◌, ◌-◌, ◌≤◌, ◌<◌, ◌^◌, ◌≡◌, refl, sym, ap, ap₂, ◌∙◌, max, Bool, true, Option, none, some,
  String, ltb, leb, arith,
}
use audr.Base.Text.{digits_from}
use audr.Record.{Json, num, non_finite}

-- The numbers are a parameter: they round. `is_counter` is `Number.isInteger(x) && x >= 0`.
pub record Double {ℓ} (W : Type ℓ) : Type ℓ where
  pub nought : W
  pub of_text : String → W
  pub not_finite : W
  pub add : W → W → W
  pub subtract : W → W → W
  pub greater : W → W → W
  pub positive : W → Bool
  pub at_most : W → W → Bool
  pub is_counter : W → Bool
  pub round : W → W

-- Whole numbers below 2 ^ 53 are exact.
pub record IsExact {ℓ} (W : Type ℓ) ⦃d : Double W⦄ : Type ℓ where
  pub count : ℕ → W
  pub count_zero : count 0 ≡ d.nought
  pub count_add : (a b : ℕ) → a + b < 2 ^ 53 → d.add (count a) (count b) ≡ count (a + b)
  pub count_subtract :
      (a b : ℕ)
      → a < 2 ^ 53
      → b < 2 ^ 53
      → d.greater (d.subtract (count a) (count b)) d.nought ≡ count (a - b)
  pub count_counter : (a : ℕ) → a < 2 ^ 53 → d.is_counter (count a) ≡ true

-- The laws can be met: whole numbers that stop at 0.
abbrev digits : Option ℕ → ℕ
digits none = 0
digits (some n) = n

instance abbrev pub nat_double : Double ℕ
nat_double = record {
  nought = 0;
  of_text = λ s. digits (digits_from 0 s);
  not_finite = 0;
  add = ◌+◌;
  subtract = ◌-◌;
  greater = max;
  positive = λ n. ltb 0 n;
  at_most = leb;
  is_counter = λ n. true;
  round = λ n. n;
}

abbrev pub nat_exact : IsExact ℕ
nat_exact = record {
  count = λ n. n;
  count_zero = refl;
  count_add = λ a b h. refl;
  count_subtract = λ a b g h. omega arith;
  count_counter = λ a h. refl;
}

pub record LlmUsage {ℓ} (W : Type ℓ) : Type ℓ where
  pub input_tokens : Option W
  pub output_tokens : Option W
  pub cache_read_tokens : Option W
  pub cache_write_tokens : Option W
  pub reasoning_tokens : Option W
  pub requests : ℕ

-- `value ?? default`
abbrev pub given {ℓ} : {A : Type ℓ} → A → Option A → A
given default none = default
given default (some a) = a

module _ {W : Type 0} ⦃d : Double W⦄ where
  -- `num`: a number, and nothing of any other value.
  unfoldable pub number : Json → Option W
  number (num n) = some (d.of_text n)
  number non_finite = some d.not_finite
  number _ = none

  -- `exclusive`
  unfoldable pub exclusive : Option W → W → Option W
  exclusive none part = none
  exclusive (some total) part = some (d.greater (d.subtract total part) d.nought)

  abbrev pub or_nought : Option W → W
  or_nought = given d.nought

-- A counter that may be missing, as a number, and missing counted as zero.
abbrev pub optional {ℓ} : {W : Type ℓ} → (ℕ → W) → Option ℕ → Option W
optional count none = none
optional count (some n) = some (count n)

abbrev pub total_of : Option ℕ → ℕ
total_of = given 0

module _ {W : Type 0} ⦃d : Double W⦄ (e : IsExact W) where
  pub or_nought-optional : (n : Option ℕ) → or_nought (optional e.count n) ≡ e.count (total_of n)
  or_nought-optional none = sym e.count_zero
  or_nought-optional (some n) = refl

  -- Taking the parts off the whole: what is left and the parts are the whole.
  pub exclusive-optional :
      (total : ℕ) (part other : Option ℕ)
      → total < 2 ^ 53
      → total_of part + total_of other ≤ total
      → exclusive
          (some (e.count total))
          (d.add (or_nought (optional e.count part)) (or_nought (optional e.count other)))
        ≡ some (e.count (total - (total_of part + total_of other)))
  unfolding exclusive
  exclusive-optional total part other h g =
      ap (λ x. some (d.greater (d.subtract (e.count total) x) d.nought))
        (ap₂ d.add (or_nought-optional part) (or_nought-optional other)
          ∙ e.count_add (total_of part) (total_of other) (omega arith))
      ∙ ap some (e.count_subtract total (total_of part + total_of other) h (omega arith))

  pub exclusive-one :
      (total : ℕ) (part : Option ℕ)
      → total < 2 ^ 53
      → total_of part ≤ total
      → exclusive (some (e.count total)) (or_nought (optional e.count part))
        ≡ some (e.count (total - total_of part))
  unfolding exclusive
  exclusive-one total part h g =
      ap (λ x. some (d.greater (d.subtract (e.count total) x) d.nought)) (or_nought-optional part)
      ∙ ap some (e.count_subtract total (total_of part) h (omega arith))

-- The counters of a usage object, in whole numbers: a total and the parts that AUDR counts apart.
pub record IsReported {W : Type 0} ⦃d : Double W⦄ (e : IsExact W) (total : ℕ)
    (part other : Option ℕ) (whole first second : Json) : Type 0 where
  pub whole_total : number whole ≡ some (e.count total)
  pub first_part : number first ≡ optional e.count part
  pub second_part : number second ≡ optional e.count other
  pub bound : total < 2 ^ 53
  pub parts : total_of part + total_of other ≤ total
