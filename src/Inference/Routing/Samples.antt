-- ===== src/Inference/Routing/Samples.antt =====
-- Sample routes, a request and a context, for the tests of the routing and of the broker.
use liki.Common.{String, List, [], ◌∷◌, Option, none, some, Bool, true, false}
use liki.Common.Json.{null}
use liki.Common.Int.{ℤ, pos}
use liki.Inference.Pricing.{Usage, PricingPlan}
use liki.Inference.Records.{InferenceRequest}
use liki.Inference.Routing.{confidential, healthy, complete, ProviderRoute, CompiledContext}

abbrev pub few : Usage
few = record {
  input_tokens = some 10;
  output_tokens = some 10;
  reasoning_tokens = some 0;
  cache_read_tokens = some 0;
  cache_write_tokens = some 0;
  token_count_method = "provider_reported";
}

abbrev pub plan : PricingPlan
plan = record {
  digits = 2;
  price_plan_id = "plan";
  effective_at = 0;
  fixed_request_usd = pos 1;
  input_per_million_usd = pos 100;
  output_per_million_usd = pos 300;
  reasoning_per_million_usd = pos 0;
  cache_read_per_million_usd = pos 0;
  cache_write_per_million_usd = pos 0;
  minimum_request_usd = pos 0;
  bill_failed = false;
  bill_timeout = true;
  bill_cancelled = true;
  bill_partial = true;
  pricing_formula_id = "tokens";
  unknown_usage_reserve = few;
  tiered_rates = [];
}

abbrev pub route : String → String → Option Bool → ProviderRoute
route id domain trains = record {
  route_id = id;
  provider_class = "hosted";
  adapter = "openai_chat";
  model_family = "family";
  upstream_correlation_domain = domain;
  egress_clearance = confidential;
  retention_known = true;
  may_train_on_prompts = trains;
  license_approved = true;
  health = healthy;
  capabilities = record {
    context_window = 1000;
    max_output_tokens = 100;
    reasoning_efforts = [];
    tools_supported = false;
    timeout_seconds = 30;
  };
  pricing = plan;
  quality_floor = pos 0;
  reliability_floor = pos 0;
  observed_semantic_acceptance = pos 1;
  observed_reliability = pos 1;
  task_metrics = [];
}

abbrev pub routes : List ProviderRoute
routes =
    route "b" "east" (some false)
    ∷ route "a" "east" (some false)
    ∷ route "c" "west" (some false)
    ∷ route "d" "north" none
    ∷ []

abbrev pub asked : InferenceRequest
asked = record {
  inference_request_id = "q";
  semantic_task_id = "task";
  task_class = "review";
  expected_artifact_schema = null;
  preferred_reasoning_effort = "standard";
  idempotency_key = "0123456789abcdef";
  allowed_provider_classes = [];
  max_call_cost_usd = none;
  max_total_attempt_cost_usd = none;
  max_latency_sec = none;
  min_semantic_acceptance = pos 0;
  min_reliability = pos 0;
  routing_benchmark_id = none;
  requires_tools = false;
}

abbrev pub context : CompiledContext
context = record {
  system_prompt = "Review.";
  user_prompt = "Is it sound?";
  manifest = record { context_manifest_id = "m"; manifest_hash = "sha256:1" };
  completeness_status = complete;
  highest_prompt_accessible_classification = some 2;
  original_may_train_on_prompts = some false;
  tool_capabilities = [];
}

abbrev pub flat : ProviderRoute → Usage → String → ℤ
flat r u t = pos 1
