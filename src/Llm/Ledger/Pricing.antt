-- ===== src/Llm/Ledger/Pricing.antt =====
-- What a call costs is at most what is reserved for it.
use pr_review.Prelude.{
  ℕ, ◌+◌, ◌*◌, ◌≤◌, String, ◌≡◌, ◌≢◌, Bool-cases, Option-cases, inl, inr, eq_iff, some, arith, get,
  ◌==◌,
}
use pr_review.Llm.Ledger.{
  Price, Completion, Request, Settings, cache_write, round_usd, cost_of, cost, tokens_of, worst_of,
  worst_case,
}

round_usd_mono : (m n : ℕ) → m ≤ n → round_usd m ≤ round_usd n
unfolding round_usd
round_usd_mono m n h = ground arith

mul-le : (a b c : ℕ) → a ≤ b → a * c ≤ b * c
mul-le a b c h = grind arith

cost_of-le-worst_of :
    (p : Price) (ttl : String) (c : Completion) (r : Request)
    → c.input_tokens + c.cache_write_tokens + c.cache_read_tokens ≤ tokens_of r
    → c.output_tokens ≤ r.max_tokens
    → cost_of p (cache_write ttl) c ≤ worst_of p (cache_write ttl) r
unfolding cost_of worst_of cache_write
cost_of-le-worst_of p ttl c r i o = elim (Bool-cases (ttl == "1h")) [
  | inl hour ↦ rw hour (omega (arith, tokens, output))
  | inr other ↦ rw other (omega (arith, tokens, output))
]
  where
    tokens :
        (c.input_tokens + c.cache_write_tokens + c.cache_read_tokens) * p.input
        ≤ tokens_of r * p.input
    tokens = mul-le _ _ p.input i

    output : c.output_tokens * p.output ≤ r.max_tokens * p.output
    output = mul-le _ _ p.output o

-- The price of a finished call, as the provider measured it, is at most what `worst_case` reserved,
-- if the call used no more input than the estimate and no more output than it was allowed.
pub cost-le-worst_case :
    (cfg : Settings) (r : Request) (c : Completion) (needed : ℕ)
    → r.model ≢ ""
    → worst_case cfg r ≡ some needed
    → c.input_tokens + c.cache_write_tokens + c.cache_read_tokens ≤ tokens_of r
    → c.output_tokens ≤ r.max_tokens
    → cost cfg c (some r.model) ≤ needed
unfolding cost worst_case
cost-le-worst_case cfg r c needed named e i o = elim (Option-cases (get cfg.prices r.model)) [
  | inl unpriced ↦ ground arith
  | inr (p, priced) ↦ ground (
    arith,
    eq_iff r.model "",
    round_usd_mono (cost_of p (cache_write cfg.ttl) c) (worst_of p (cache_write cfg.ttl) r)
        (cost_of-le-worst_of p cfg.ttl c r i o),
  )
]
