-- ===== src/Inference/Pricing.antt =====
-- inference/types.py: what an attempt costs under a plan of prices.
-- A rate, a fixed price or a minimum is the coefficient of a decimal at exponent -digits of the
-- plan, and the cost of tokens is at -(digits + 6): the code divides each product by a million.
mod Charge
mod Tests
use liki.Common.{
  ℕ, suc, ◌+◌, ◌-◌, ◌/◌, ◌^◌, String, string_eq, ◌==◌, List, [], ◌∷◌, Option, none, some, Bool,
  true, false, leb, if◌then◌else◌,
}
use liki.Common.Int.{ℤ, pos, negsuc, ◌+ℤ◌, ◌*ℤ◌, ltb_ℤ}

pub data AttemptStatus : Type 0 where
  created : AttemptStatus
  transport_success : AttemptStatus
  schema_success : AttemptStatus
  semantic_accepted : AttemptStatus
  decision_useful : AttemptStatus
  retryable_failure : AttemptStatus
  nonretryable_failure : AttemptStatus
  hibernated : AttemptStatus

pub record Usage : Type 0 where
  pub input_tokens : Option ℕ
  pub output_tokens : Option ℕ
  pub reasoning_tokens : Option ℕ
  pub cache_read_tokens : Option ℕ
  pub cache_write_tokens : Option ℕ
  pub token_count_method : String

pub record PricingTier : Type 0 where
  pub up_to_billed_tokens : Option ℕ
  pub input_per_million_usd : Option ℤ
  pub output_per_million_usd : Option ℤ
  pub reasoning_per_million_usd : Option ℤ
  pub cache_read_per_million_usd : Option ℤ
  pub cache_write_per_million_usd : Option ℤ

pub record PricingPlan : Type 0 where
  pub digits : ℕ
  pub price_plan_id : String
  pub effective_at : ℕ
  pub fixed_request_usd : ℤ
  pub input_per_million_usd : ℤ
  pub output_per_million_usd : ℤ
  pub reasoning_per_million_usd : ℤ
  pub cache_read_per_million_usd : ℤ
  pub cache_write_per_million_usd : ℤ
  pub minimum_request_usd : ℤ
  pub bill_failed : Bool
  pub bill_timeout : Bool
  pub bill_cancelled : Bool
  pub bill_partial : Bool
  pub pricing_formula_id : String
  pub unknown_usage_reserve : Usage
  pub tiered_rates : List PricingTier

unfoldable pub is_billable : PricingPlan → AttemptStatus → Bool
is_billable p retryable_failure = p.bill_timeout
is_billable p nonretryable_failure = p.bill_failed
is_billable p _ = true

unfoldable pub resolved_usage : PricingPlan → Usage → Usage
resolved_usage p u =
    if u.token_count_method == "unknown_conservative" then p.unknown_usage_reserve else u

-- `value or 0`
abbrev pub count_of : Option ℕ → ℕ
count_of none = 0
count_of (some n) = n

unfoldable pub total_tokens : Usage → ℕ
total_tokens u =
    count_of u.input_tokens
    + count_of u.output_tokens
    + count_of u.reasoning_tokens
    + count_of u.cache_read_tokens
    + count_of u.cache_write_tokens

unfoldable pub within_limit : ℕ → Option ℕ → Bool
within_limit n none = true
within_limit n (some limit) = leb n limit

-- `next(…, None)`
unfoldable pub select_tier : ℕ → List PricingTier → Option PricingTier
unfolding within_limit
select_tier n [] = none
select_tier n (t ∷ tiers) =
    if within_limit n t.up_to_billed_tokens then some t else select_tier n tiers

-- The rate of the tier where there is one that has it, else of the plan.
unfoldable pub rate : Option PricingTier → (PricingTier → Option ℤ) → ℤ → ℤ
rate none field standard = standard
rate (some t) field standard = elim (field t) [ none ↦ standard | some r ↦ r ]

-- `if tokens is not None: token_cost += …`
unfoldable pub add_token_cost : ℤ → Option ℕ → ℤ → ℤ
add_token_cost cost none r = cost
add_token_cost cost (some n) r = cost +ℤ pos n *ℤ r

unfoldable pub token_cost : PricingPlan → Usage → Option PricingTier → ℤ
unfolding add_token_cost rate
token_cost p u tier =
    let c1 =
      add_token_cost (pos 0) u.input_tokens
        (rate tier (λ t. t.input_per_million_usd) p.input_per_million_usd) in
    let c2 =
      add_token_cost c1 u.output_tokens
        (rate tier (λ t. t.output_per_million_usd) p.output_per_million_usd) in
    let c3 =
      add_token_cost c2 u.reasoning_tokens
        (rate tier (λ t. t.reasoning_per_million_usd) p.reasoning_per_million_usd) in
    let c4 =
      add_token_cost c3 u.cache_read_tokens
        (rate tier (λ t. t.cache_read_per_million_usd) p.cache_read_per_million_usd) in
    add_token_cost c4 u.cache_write_tokens
      (rate tier (λ t. t.cache_write_per_million_usd) p.cache_write_per_million_usd)

-- The fixed cost at -digits, the cost of tokens at -(digits + 6), and the number of tokens.
unfoldable pub cost_components : PricingPlan → Usage → AttemptStatus → ℤ × ℤ × ℕ
unfolding is_billable resolved_usage total_tokens select_tier token_cost
cost_components p usage status =
    if is_billable p status
    then (
      p.fixed_request_usd,
      token_cost p (resolved_usage p usage)
          (select_tier (total_tokens (resolved_usage p usage)) p.tiered_rates),
      total_tokens (resolved_usage p usage),
    )
    else (pos 0, pos 0, 0)

unfoldable pub max_ℤ : ℤ → ℤ → ℤ
max_ℤ a b = if ltb_ℤ a b then b else a

-- The quotient by a positive number, rounded away from zero.
unfoldable pub round_up : ℤ → ℕ → ℤ
round_up (pos n) d = pos ((n + (d - 1)) / d)
round_up (negsuc n) d = negsuc ((suc n + (d - 1)) / d - 1)

-- In millionths of a dollar.
unfoldable pub cost : PricingPlan → Usage → AttemptStatus → ℤ
unfolding cost_components max_ℤ round_up
cost p usage status =
    let c = cost_components p usage status in
    round_up (max_ℤ (c.0 *ℤ pos 1000000 +ℤ c.1) (p.minimum_request_usd *ℤ pos 1000000))
      (10 ^ p.digits)
