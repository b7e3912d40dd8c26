-- ===== src/Inference/Pricing/Tests.antt =====
-- A plan with prices in cents: 2 dollars and 6 dollars for a million tokens, at least 1 cent a call.
use liki.Common.{ℕ, [], some, none, true, false, ◌≡◌, ◌*◌, ◌^◌, refl, arith}
use liki.Common.Int.{pos, ◌+ℤ◌, ◌*ℤ◌, ◌≤ℤ◌, ◌<ℤ◌}
use liki.Inference.Pricing.{
  PricingPlan, PricingTier, Usage, nonretryable_failure, transport_success, is_billable,
  resolved_usage, total_tokens, select_tier, rate, add_token_cost, token_cost, cost_components,
  max_ℤ, round_up, cost,
}
use liki.Inference.Pricing.Charge.{IsCharge, minimum_due, cost-IsCharge, cost_unbilled}

abbrev usage : Usage
usage = record {
  input_tokens = some 30000;
  output_tokens = some 1001;
  reasoning_tokens = none;
  cache_read_tokens = none;
  cache_write_tokens = none;
  token_count_method = "provider_reported";
}

abbrev plan : PricingPlan
plan = record {
  digits = 2;
  price_plan_id = "p";
  effective_at = 0;
  fixed_request_usd = pos 0;
  input_per_million_usd = pos 200;
  output_per_million_usd = pos 600;
  reasoning_per_million_usd = pos 0;
  cache_read_per_million_usd = pos 0;
  cache_write_per_million_usd = pos 0;
  minimum_request_usd = pos 1;
  bill_failed = false;
  bill_timeout = true;
  bill_cancelled = true;
  bill_partial = true;
  pricing_formula_id = "per_request_plus_tokens_v1";
  unknown_usage_reserve = usage;
  tiered_rates = [];
}

-- 0.066006 dollars
cost_of_success : cost plan usage transport_success ≡ pos 66006
unfolding cost cost_components is_billable resolved_usage total_tokens select_tier rate
    add_token_cost token_cost max_ℤ round_up ◌+ℤ◌ ◌*ℤ◌
cost_of_success = refl

cost-IsCharge_example :
    (c : ℕ) × (cost plan usage transport_success ≡ pos c) × IsCharge plan usage transport_success c
cost-IsCharge_example = cost-IsCharge plan usage transport_success (omega arith)

cost_unbilled_example :
    (c : ℕ) × (cost plan usage nonretryable_failure ≡ pos c)
    × (minimum_due plan ≤ℤ pos (c * 10 ^ 2))
    × (pos (c * 10 ^ 2) <ℤ minimum_due plan +ℤ pos (10 ^ 2))
unfolding is_billable
cost_unbilled_example = cost_unbilled plan usage nonretryable_failure refl (omega arith)

abbrev small : PricingTier
small = record {
  up_to_billed_tokens = some 1000;
  input_per_million_usd = some (pos 300);
  output_per_million_usd = none;
  reasoning_per_million_usd = none;
  cache_read_per_million_usd = none;
  cache_write_per_million_usd = none;
}

abbrev large : PricingTier
large = record small { up_to_billed_tokens = none; input_per_million_usd = some (pos 100) }
