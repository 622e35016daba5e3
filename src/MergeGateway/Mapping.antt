-- ===== src/MergeGateway/Mapping.antt =====
-- adapters/merge-gateway/typescript/src/mapping.ts: the counters and the cost of a usage object, whose fields are numbers, null
-- or missing.
use audr.Base.{
  ℕ, ◌+◌, ◌-◌, ◌≡◌, ap, ap₂, ◌∙◌, Bool, true, false, Option, none, some, if◌then◌else◌, arith,
}
use audr.Record.{Json, undefined, null, get}
use audr.Adapters.Numbers.{
  Double, IsExact, LlmUsage, IsReported, number, exclusive, or_nought, optional, total_of,
  exclusive-optional, exclusive-one,
}

abbrev pub is_null : Json → Bool
is_null null = true
is_null _ = false

module _ {W : Type 0} ⦃d : Double W⦄ where
  -- `responseUsage`
  unfoldable pub response_usage : Json → LlmUsage W
  unfolding number exclusive get
  response_usage usage =
      let cache_read = get usage "cache_read_input_tokens" in
      let cache_write = get usage "cache_creation_input_tokens" in
      let reasoning = get usage "reasoning_output_tokens" in
      record {
        input_tokens =
            (if is_null cache_read
              then none
              else exclusive (number (get usage "input_tokens"))
                  (d.add (or_nought (number cache_read)) (or_nought (number cache_write))));
        output_tokens =
            exclusive (number (get usage "output_tokens")) (or_nought (number reasoning));
        cache_read_tokens = number cache_read;
        cache_write_tokens = number cache_write;
        reasoning_tokens = number reasoning;
        requests = 1;
      }

  -- `embeddingUsage`
  unfoldable pub embedding_usage : Json → LlmUsage W
  unfolding number get
  embedding_usage usage = record {
    input_tokens = number (get usage "prompt_tokens");
    output_tokens = none;
    cache_read_tokens = none;
    cache_write_tokens = none;
    reasoning_tokens = none;
    requests = 1;
  }

  -- `toCost`, in USD.
  unfoldable pub to_cost : Json → Option W
  unfolding number get
  to_cost usage = number (get usage "cost")

  -- When the numbers of Gateway are whole, below 2 ^ 53, and the parts are no more than the whole: the counters of cache
  -- reads, cache writes and reasoning are those that it gives; input, cache reads and cache writes add up to the prompt
  -- that it reports, and output and reasoning to its completion; but where Gateway could not count the cache reads, and says
  -- null, no input is recorded.
  pub response_usage-conserves :
      (e : IsExact W) (usage : Json) (prompt completion : ℕ) (read write reasoning : Option ℕ)
      → IsReported e prompt read write
          (get usage "input_tokens")
          (get usage "cache_read_input_tokens")
          (get usage "cache_creation_input_tokens")
      → IsReported e completion reasoning none
          (get usage "output_tokens")
          (get usage "reasoning_output_tokens")
          undefined
      → let u : LlmUsage W = response_usage usage in
        (n m : ℕ) × (u.input_tokens
          ≡ (if is_null (get usage "cache_read_input_tokens") then none else some (e.count n)))
        × (u.output_tokens ≡ some (e.count m))
        × (u.cache_read_tokens ≡ optional e.count read)
        × (u.cache_write_tokens ≡ optional e.count write)
        × (u.reasoning_tokens ≡ optional e.count reasoning)
        × (n + total_of read + total_of write ≡ prompt)
        × (m + total_of reasoning ≡ completion)
  unfolding response_usage
  response_usage-conserves e usage prompt completion read write reasoning r s = (
    prompt - (total_of read + total_of write),
    completion - total_of reasoning,
    ap (λ o. if is_null (get usage "cache_read_input_tokens") then none else o)
        (ap₂ exclusive r.whole_total
            (ap₂ d.add (ap or_nought r.first_part) (ap or_nought r.second_part))
          ∙ exclusive-optional e prompt read write r.bound r.parts),
    ap₂ exclusive s.whole_total (ap or_nought s.first_part)
        ∙ exclusive-one e completion reasoning s.bound (omega (arith, s.parts)),
    r.first_part,
    r.second_part,
    s.first_part,
    omega (arith, r.parts),
    omega (arith, s.parts),
  )
