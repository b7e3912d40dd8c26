-- ===== src/Inference/Routing/Suitable.antt =====
-- What the tests of the loop of `select_routes` say of a route.
use liki.Common.{
  Among, ◌≢◌, ◌⊎◌, ◌<◌, ◌||◌, ◌&&◌, ◌==◌, string_eq, any, is_empty, ltb, ◌≡◌, arith, inl, inr,
  Bool-cases, ◌≤◌, ◌+◌, String, List, [], ◌∷◌, Option, some, none, refl, Bool, true, false, not,
  contains, leb,
}
use liki.Common.Int.{ℤ, ltb_ℤ, ◌≤ℤ◌}
use liki.Inference.Pricing.{Usage, max_ℤ, semantic_accepted}
use liki.Inference.Records.{InferenceRequest}
use liki.Inference.Backend.Claim.{exceeds}
use liki.Inference.Circuits.{Circuits, circuit_is_open}
use liki.Inference.Routing.{
  TaskClassRouteMetrics, ProviderHealth, healthy, degraded, rate_limited, auth_failed,
  quota_exhausted, open_circuit, unknown, is_up, is_benchmark, has_required_benchmark,
  ProviderRoute, CompiledContext, classification_rank, required_rank, is_suitable,
  context_safe_for_route, metrics, prompt_tokens, conservative_cost,
}

-- A benchmark of a kind of task that was measured on some sample.
pub record IsMeasured (task_class id : String) (m : TaskClassRouteMetrics) : Type 0 where
  pub of_class : m.task_class ≡ task_class
  pub of_benchmark : m.benchmark_id ≡ some id
  pub on_samples : 0 < m.sample_count

-- What makes a route fit for a request, its context and the circuits.
pub record IsPermitted (circuits : Circuits) (request : InferenceRequest)
    (context : CompiledContext) (u : Usage) (r : ProviderRoute) : Type 0 where
  pub class_allowed :
      (request.allowed_provider_classes ≡ [])
      ⊎ (contains request.allowed_provider_classes r.provider_class ≡ true)
  pub measured :
      (id : String)
      → request.routing_benchmark_id ≡ some id
      → Among (IsMeasured request.task_class id) r.task_metrics
  pub cleared : required_rank context ≤ classification_rank r.egress_clearance
  pub confidential :
      2 ≤ required_rank context → (r.retention_known ≡ true) × (r.may_train_on_prompts ≡ some false)
  pub untrained :
      context.original_may_train_on_prompts ≡ some false → r.may_train_on_prompts ≡ some false
  pub licensed : r.license_approved ≡ true
  pub up : (r.health ≡ healthy) ⊎ (r.health ≡ degraded)
  pub closed : circuit_is_open r.route_id circuits ≡ false
  pub fits :
      prompt_tokens context + r.capabilities.max_output_tokens ≤ r.capabilities.context_window
  pub effort :
      (request.preferred_reasoning_effort ≡ "standard")
      ⊎ (contains r.capabilities.reasoning_efforts request.preferred_reasoning_effort ≡ true)
  pub tools :
      (request.requires_tools ≡ true) ⊎ (context.tool_capabilities ≢ [])
      → r.capabilities.tools_supported ≡ true
  pub quality :
      (r.quality_floor ≤ℤ (metrics r request.task_class).semantic_acceptance)
      × (request.min_semantic_acceptance ≤ℤ (metrics r request.task_class).semantic_acceptance)
  pub reliability :
      (r.reliability_floor ≤ℤ (metrics r request.task_class).reliability)
      × (request.min_reliability ≤ℤ (metrics r request.task_class).reliability)
  pub affordable :
      (limit : ℤ)
      → request.max_call_cost_usd ≡ some limit
      → conservative_cost r u semantic_accepted ≤ℤ limit

context_safe_parts :
    (context : CompiledContext) (r : ProviderRoute)
    → context_safe_for_route context r ≡ true
    → (required_rank context ≤ classification_rank r.egress_clearance)
      × (2 ≤ required_rank context
          → (r.retention_known ≡ true) × (r.may_train_on_prompts ≡ some false))
      × (context.original_may_train_on_prompts ≡ some false → r.may_train_on_prompts ≡ some false)
unfolding context_safe_for_route
context_safe_parts context r h =
    (ground arith, λ le. (ground arith, ground arith), λ e. ground arith)

measured_lem :
    (task_class id : String) (ms : List TaskClassRouteMetrics)
    → any
        (λ m. m.task_class == task_class && is_benchmark m.benchmark_id id && ltb 0 m.sample_count)
        ms
      ≡ true
    → Among (IsMeasured task_class id) ms
measured_lem task_class id [] h = absurd (ground arith)
measured_lem task_class id (m ∷ ms) h =
    elim (Bool-cases
      (m.task_class == task_class && is_benchmark m.benchmark_id id && ltb 0 m.sample_count)) [
        | inl here ↦ inl (record {
          of_class = ground (arith, string_eq.same_iff m.task_class task_class);
          of_benchmark = benchmark_lem m.benchmark_id id (ground arith);
          on_samples = ground arith;
        })
        | inr there ↦ inr (measured_lem task_class id ms (ground arith))
      ]
  where
    benchmark_lem : (o : Option String) (id : String) → is_benchmark o id ≡ true → o ≡ some id
    benchmark_lem none id h = absurd (ground arith)
    benchmark_lem (some b) id h = ground (arith, string_eq.same_iff b id)

required_benchmark_lem :
    (r : ProviderRoute) (task_class id : String) (o : Option String)
    → has_required_benchmark r task_class o ≡ true
    → o ≡ some id
    → Among (IsMeasured task_class id) r.task_metrics
unfolding has_required_benchmark
required_benchmark_lem r task_class id none h e = absurd (ground arith)
required_benchmark_lem r task_class id (some b) h e =
    measured_lem task_class id r.task_metrics (ground arith)

class_lem :
    (classes : List String) (c : String)
    → (is_empty classes || contains classes c) ≡ true
    → (classes ≡ []) ⊎ (contains classes c ≡ true)
class_lem [] c h = inl refl
class_lem (d ∷ classes) c h = inr h

up_lem : (h : ProviderHealth) → is_up h ≡ true → (h ≡ healthy) ⊎ (h ≡ degraded)
up_lem healthy h = inl refl
up_lem degraded h = inr refl
up_lem rate_limited h = absurd (ground arith)
up_lem auth_failed h = absurd (ground arith)
up_lem quota_exhausted h = absurd (ground arith)
up_lem open_circuit h = absurd (ground arith)
up_lem unknown h = absurd (ground arith)

effort_lem :
    (efforts : List String) (effort : String)
    → contains ("standard" ∷ efforts) effort ≡ true
    → (effort ≡ "standard") ⊎ (contains efforts effort ≡ true)
effort_lem efforts effort h = elim (Bool-cases (effort == "standard")) [
  | inl same ↦ inl ((string_eq.same_iff effort "standard").0 same)
  | inr other ↦ inr (ground arith)
]

tools_lem :
    (required supported : Bool) (tools : List String)
    → (not (required || not (is_empty tools)) || supported) ≡ true
    → (required ≡ true) ⊎ (tools ≢ [])
    → supported ≡ true
tools_lem required supported [] h (inl e) = ground arith
tools_lem required supported [] h (inr e) = absurd (e refl)
tools_lem required supported (t ∷ tools) h e = ground arith

-- The tests of the loop, one by one.
suitable_parts :
    (circuits : Circuits) (request : InferenceRequest) (context : CompiledContext) (u : Usage)
    (r : ProviderRoute)
    → is_suitable circuits request context u r ≡ true
    → ((is_empty request.allowed_provider_classes
          || contains request.allowed_provider_classes r.provider_class)
        ≡ true)
      × (has_required_benchmark r request.task_class request.routing_benchmark_id ≡ true)
      × (context_safe_for_route context r ≡ true)
      × (r.license_approved ≡ true)
      × (is_up r.health ≡ true)
      × (circuit_is_open r.route_id circuits ≡ false)
      × (leb
            (prompt_tokens context + r.capabilities.max_output_tokens)
            r.capabilities.context_window
          ≡ true)
      × (contains ("standard" ∷ r.capabilities.reasoning_efforts) request.preferred_reasoning_effort
          ≡ true)
      × ((not (request.requires_tools || not (is_empty context.tool_capabilities))
            || r.capabilities.tools_supported)
          ≡ true)
      × (ltb_ℤ
            (metrics r request.task_class).semantic_acceptance
            (max_ℤ r.quality_floor request.min_semantic_acceptance)
          ≡ false)
      × (ltb_ℤ
            (metrics r request.task_class).reliability
            (max_ℤ r.reliability_floor request.min_reliability)
          ≡ false)
      × (exceeds (conservative_cost r u semantic_accepted) request.max_call_cost_usd ≡ false)
unfolding is_suitable
suitable_parts circuits request context u r h = ground arith

not_below_max : (a b c : ℤ) → ltb_ℤ a (max_ℤ b c) ≡ false → (b ≤ℤ a) × (c ≤ℤ a)
unfolding max_ℤ
not_below_max a b c h = (ground arith, ground arith)

not_exceeded :
    (a limit : ℤ) (bound : Option ℤ) → exceeds a bound ≡ false → bound ≡ some limit → a ≤ℤ limit
not_exceeded a limit bound h e = ground arith

pub suitable-IsPermitted :
    (circuits : Circuits) (request : InferenceRequest) (context : CompiledContext) (u : Usage)
    (r : ProviderRoute)
    → is_suitable circuits request context u r ≡ true
    → IsPermitted circuits request context u r
suitable-IsPermitted circuits request context u r h =
    let k = suitable_parts circuits request context u r h in
    let safe = context_safe_parts context r k.2 in
    let m = metrics r request.task_class in
    record {
      class_allowed = class_lem request.allowed_provider_classes r.provider_class k.0;
      measured =
          λ id. required_benchmark_lem r request.task_class id request.routing_benchmark_id k.1;
      cleared = safe.0;
      confidential = safe.1;
      untrained = safe.2;
      licensed = k.3;
      up = up_lem r.health k.4;
      closed = k.5;
      fits = ground (arith, k.6);
      effort = effort_lem r.capabilities.reasoning_efforts request.preferred_reasoning_effort k.7;
      tools =
          tools_lem request.requires_tools r.capabilities.tools_supported context.tool_capabilities
            k.8;
      quality =
          not_below_max m.semantic_acceptance r.quality_floor request.min_semantic_acceptance k.9;
      reliability = not_below_max m.reliability r.reliability_floor request.min_reliability k.10;
      affordable = λ limit.
          not_exceeded (conservative_cost r u semantic_accepted) limit request.max_call_cost_usd
            k.11;
    }
