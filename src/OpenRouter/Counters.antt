-- ===== src/OpenRouter/Counters.antt =====
-- What the OpenRouter adapter counts: `token_usage` of its mapping.ts.
use audr.Base.{ℕ, ◌+◌, ◌-◌, ◌≡◌, ap, ap₂, ◌∙◌, Option, some, String, arith}
use audr.Record.{Json, get}
use audr.Adapters.Numbers.{
  Double, IsExact, LlmUsage, exclusive, or_nought, optional, total_of, exclusive-optional,
  IsReported,
}
use audr.OpenRouter.Mapping.{token_usage}

module _ {W : Type 0} ⦃d : Double W⦄ where
  -- The input that is recorded, and the cache reads and writes, add up to the prompt that OpenRouter reports, when its
  -- numbers are whole, below 2 ^ 53, and the parts are no more than the whole.
  pub token_usage-conserves :
      (e : IsExact W) (usage input output : Json) (input_name output_name : String) (total : ℕ)
      (read write : Option ℕ)
      → IsReported e total read write
          (get usage input_name)
          (get input "cachedTokens")
          (get input "cacheWriteTokens")
      → let u : LlmUsage W = token_usage usage input_name input output_name output in
        (n : ℕ) × (u.input_tokens ≡ some (e.count n))
        × (u.cache_read_tokens ≡ optional e.count read)
        × (u.cache_write_tokens ≡ optional e.count write)
        × (n + total_of read + total_of write ≡ total)
  unfolding token_usage
  token_usage-conserves e usage input output input_name output_name total read write r = (
    total - (total_of read + total_of write),
    ap₂ exclusive r.whole_total (ap₂ d.add (ap or_nought r.first_part) (ap or_nought r.second_part))
        ∙ exclusive-optional e total read write r.bound r.parts,
    r.first_part,
    r.second_part,
    omega (arith, r.parts),
  )
