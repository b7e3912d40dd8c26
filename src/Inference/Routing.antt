-- ===== src/Inference/Routing.antt =====
-- inference/broker.py: which routes a request may take, and in what order; with the records of
-- inference/types.py that describe a route. A share, which is a float there, is a multiple of one
-- common power of two, so that comparisons are exact; a cost is in millionths of a dollar.
mod Routes
pub mod Suitable
pub mod Eligible
pub mod Diverse
pub mod Order
pub mod Samples
mod Tests
use Prim.Native.String.{String}
use liki.Common.{
  ℕ, suc, ◌+◌, ◌/◌, string_eq, ◌==◌, List, [], ◌∷◌, ◌++◌, map, Option, none, some, Bool, true,
  false, not, ◌&&◌, ◌||◌, any, is_empty, contains, select, ltb, leb, nat_beq, if◌then◌else◌,
}
use liki.Common.Int.{ℤ, pos, ltb_ℤ, beq_ℤ}
use liki.Common.Sorting.{str_leb, sort_by}
use liki.Inference.Pricing.{AttemptStatus, semantic_accepted, Usage, PricingPlan, cost, max_ℤ}
use liki.Inference.Records.{InferenceRequest, ContextManifest}
use liki.Inference.Circuits.{Circuits, circuit_is_open}
use liki.Inference.Backend.Claim.{exceeds}
pub use Routes.*

-- `{route.route_id: route for route in routes}`: a later route takes the place of an earlier one.
unfoldable pub register : ProviderRoute → List ProviderRoute → List ProviderRoute
register r [] = r ∷ []
register r (s ∷ ss) =
    let rest = register r ss in if s.route_id == r.route_id then r ∷ ss else s ∷ rest

unfoldable pub registered : List ProviderRoute → List ProviderRoute → List ProviderRoute
unfolding register
registered known [] = known
registered known (r ∷ rs) = registered (register r known) rs

unfoldable pub metrics_in :
    ProviderRoute → String → List TaskClassRouteMetrics → TaskClassRouteMetrics
metrics_in route task_class [] = record {
  task_class = task_class;
  semantic_acceptance = route.observed_semantic_acceptance;
  reliability = route.observed_reliability;
  sample_count = 0;
  benchmark_id = none;
}
metrics_in route task_class (m ∷ ms) =
    let rest = metrics_in route task_class ms in if m.task_class == task_class then m else rest

unfoldable pub metrics : ProviderRoute → String → TaskClassRouteMetrics
unfolding metrics_in
metrics route task_class = metrics_in route task_class route.task_metrics

abbrev pub is_benchmark : Option String → String → Bool
is_benchmark none id = false
is_benchmark (some b) id = b == id

unfoldable pub has_required_benchmark : ProviderRoute → String → Option String → Bool
has_required_benchmark route task_class none = true
has_required_benchmark route task_class (some id) =
    any (λ m. m.task_class == task_class && is_benchmark m.benchmark_id id && ltb 0 m.sample_count)
      route.task_metrics

-- `value is False`
abbrev pub is_false : Option Bool → Bool
is_false (some false) = true
is_false _ = false

abbrev pub required_rank : CompiledContext → ℕ
required_rank context = elim context.highest_prompt_accessible_classification [
  | none ↦ 0
  | some n ↦ n
]

unfoldable pub context_safe_for_route : CompiledContext → ProviderRoute → Bool
context_safe_for_route context route =
    if ltb (classification_rank route.egress_clearance) (required_rank context)
    then false
    else if leb (classification_rank confidential) (required_rank context)
    then route.retention_known && is_false route.may_train_on_prompts
    else not (is_false context.original_may_train_on_prompts) || is_false route.may_train_on_prompts

abbrev pub text_length : String → ℕ
text_length String.[] = 0
text_length (String.◌∷◌ c s) = suc (text_length s)

unfoldable pub prompt_tokens : CompiledContext → ℕ
prompt_tokens context =
    let n = (text_length context.system_prompt + text_length context.user_prompt) / 4 in
    if ltb 1 n then n else 1

abbrev pub is_up : ProviderHealth → Bool
is_up healthy = true
is_up degraded = true
is_up _ = false

-- `value if value is not None else reserve`
abbrev pub or_reserve : Option ℕ → Option ℕ → Option ℕ
or_reserve none reserve = reserve
or_reserve (some n) reserve = some n

abbrev pub is_missing : Option ℕ → Bool
is_missing none = true
is_missing (some n) = false

unfoldable pub any_missing : Usage → Bool
any_missing u =
    is_missing u.input_tokens
    || is_missing u.output_tokens
    || is_missing u.reasoning_tokens
    || is_missing u.cache_read_tokens
    || is_missing u.cache_write_tokens

unfoldable pub conservative_usage : ProviderRoute → Usage → Usage
unfolding any_missing
conservative_usage route u =
    let reserve = route.pricing.unknown_usage_reserve in
    if any_missing u
    then record {
      input_tokens = or_reserve u.input_tokens reserve.input_tokens;
      output_tokens = or_reserve u.output_tokens reserve.output_tokens;
      reasoning_tokens = or_reserve u.reasoning_tokens reserve.reasoning_tokens;
      cache_read_tokens = or_reserve u.cache_read_tokens reserve.cache_read_tokens;
      cache_write_tokens = or_reserve u.cache_write_tokens reserve.cache_write_tokens;
      token_count_method = "estimated_with_conservative_defaults";
    }
    else u

unfoldable pub conservative_cost : ProviderRoute → Usage → AttemptStatus → ℤ
unfolding conservative_usage cost
conservative_cost route u status = cost route.pricing (conservative_usage route u) status

-- The tests of the loop of `select_routes`, each of which would `continue`.
unfoldable pub is_suitable :
    Circuits → InferenceRequest → CompiledContext → Usage → ProviderRoute → Bool
unfolding metrics has_required_benchmark context_safe_for_route circuit_is_open prompt_tokens
    conservative_cost max_ℤ
is_suitable circuits request context u route =
    let m = metrics route request.task_class in
    let c = route.capabilities in
    (is_empty request.allowed_provider_classes
      || contains request.allowed_provider_classes route.provider_class)
    && has_required_benchmark route request.task_class request.routing_benchmark_id
    && context_safe_for_route context route
    && route.license_approved
    && is_up route.health
    && not (circuit_is_open route.route_id circuits)
    && leb (prompt_tokens context + c.max_output_tokens) c.context_window
    && contains ("standard" ∷ c.reasoning_efforts) request.preferred_reasoning_effort
    && (not (request.requires_tools || not (is_empty context.tool_capabilities))
        || c.tools_supported)
    && not (ltb_ℤ m.semantic_acceptance (max_ℤ route.quality_floor request.min_semantic_acceptance))
    && not (ltb_ℤ m.reliability (max_ℤ route.reliability_floor request.min_reliability))
    && not (exceeds (conservative_cost route u semantic_accepted) request.max_call_cost_usd)

-- The first route of each domain, in order.
unfoldable pub diverse : List String → List ProviderRoute → List ProviderRoute
diverse seen_domains [] = []
diverse seen_domains (r ∷ rs) =
    let later = diverse (r.upstream_correlation_domain ∷ seen_domains) rs in
    let rest = diverse seen_domains rs in
    if contains seen_domains r.upstream_correlation_domain then rest else r ∷ later

-- `route not in chosen`: the routes of a broker are told apart by their identifiers.
abbrev pub is_chosen : List ProviderRoute → ProviderRoute → Bool
is_chosen chosen r = contains (map (λ c. c.route_id) chosen) r.route_id

-- The expected cost is a quotient of floats, and only its order is used.
module _ (expected_cost : ProviderRoute → Usage → String → ℤ) where
  unfoldable pub cheaper : Usage → String → ProviderRoute → ProviderRoute → Bool
  unfolding str_leb
  cheaper u task_class r s =
      let a = expected_cost r u task_class in
      let b = expected_cost s u task_class in
      if ltb_ℤ a b then true else if beq_ℤ a b then str_leb r.route_id s.route_id else false

  unfoldable pub ordered :
      List ProviderRoute
      → Circuits
      → InferenceRequest
      → CompiledContext
      → Usage
      → List ProviderRoute
  unfolding is_suitable cheaper
  ordered routes circuits request context u =
      sort_by (cheaper u request.task_class)
        (select (is_suitable circuits request context u) routes)

  unfoldable pub select_routes :
      List ProviderRoute
      → Circuits
      → InferenceRequest
      → CompiledContext
      → Usage
      → List ProviderRoute
  unfolding ordered diverse
  select_routes routes circuits request context u =
      let suitable = ordered routes circuits request context u in
      let first = diverse [] suitable in first ++ select (λ r. not (is_chosen first r)) suitable
