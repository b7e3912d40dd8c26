-- ===== src/Inference/Routing/Routes.antt =====
-- inference/types.py: routes to providers, and the context that is sent to one.
use Prim.Native.String.{String}
use liki.Common.{ℕ, Bool, List, Option}
use liki.Common.Int.{ℤ}
use liki.Inference.Pricing.{PricingPlan}
use liki.Inference.Records.{ContextManifest}

pub data Classification : Type 0 where
  public : Classification
  internal : Classification
  confidential : Classification
  secret : Classification
  sealed : Classification

abbrev pub classification_rank : Classification → ℕ
classification_rank public = 0
classification_rank internal = 1
classification_rank confidential = 2
classification_rank secret = 3
classification_rank sealed = 4

pub data CompletenessStatus : Type 0 where
  complete : CompletenessStatus
  incomplete_blocking : CompletenessStatus
  declared_noncritical : CompletenessStatus

pub data ProviderHealth : Type 0 where
  healthy : ProviderHealth
  degraded : ProviderHealth
  rate_limited : ProviderHealth
  auth_failed : ProviderHealth
  quota_exhausted : ProviderHealth
  open_circuit : ProviderHealth
  unknown : ProviderHealth

pub record RouteCapabilities : Type 0 where
  pub context_window : ℕ
  pub max_output_tokens : ℕ
  pub reasoning_efforts : List String
  pub tools_supported : Bool
  pub timeout_seconds : ℕ

pub record TaskClassRouteMetrics : Type 0 where
  pub task_class : String
  pub semantic_acceptance : ℤ
  pub reliability : ℤ
  pub sample_count : ℕ
  pub benchmark_id : Option String

pub record ProviderRoute : Type 0 where
  pub route_id : String
  pub provider_class : String
  pub adapter : String
  pub model_family : String
  pub upstream_correlation_domain : String
  pub egress_clearance : Classification
  pub retention_known : Bool
  pub may_train_on_prompts : Option Bool
  pub license_approved : Bool
  pub health : ProviderHealth
  pub capabilities : RouteCapabilities
  pub pricing : PricingPlan
  pub quality_floor : ℤ
  pub reliability_floor : ℤ
  pub observed_semantic_acceptance : ℤ
  pub observed_reliability : ℤ
  pub task_metrics : List TaskClassRouteMetrics

-- Two entries of `egress_decision` are read: a number, or none where it is missing, and a flag, where
-- None and a missing one are the same.
pub record CompiledContext : Type 0 where
  pub system_prompt : String
  pub user_prompt : String
  pub manifest : ContextManifest
  pub completeness_status : CompletenessStatus
  pub highest_prompt_accessible_classification : Option ℕ
  pub original_may_train_on_prompts : Option Bool
  pub tool_capabilities : List String
