-- ===== src/Inference/Broker/Rounds.antt =====
-- inference/broker.py: `run`, the loop over routes and the retries of each.
use liki.Common.{
  ℕ, zero, suc, String, string_eq, ◌==◌, List, [], ◌∷◌, Option, none, some, Bool, true, false, not,
  contains, select, if◌then◌else◌, Result, ok, err, ◌>>=◌,
}
use liki.Common.Int.{pos, pos_part, ◌+ℤ◌}
use liki.Inference.Pricing.{AttemptStatus, Usage, retryable_failure, hibernated}
use liki.Inference.Records.{InferenceRequest, InferenceResult, Store, BackendError}
use liki.Inference.Routing.{
  ProviderRoute, CompiledContext, CompletenessStatus, incomplete_blocking, select_routes,
  registered,
}
use liki.Inference.Backend.Admit.{create_or_get, completed_result}
use liki.Inference.Backend.Finish.{is_accepted}
use liki.Inference.Backend.Marks.{hibernate}
use liki.Inference.Broker.{
  BrokerError, context_rejected, raised, World, InferenceBroker, hibernating,
}
use liki.Inference.Broker.Attempt.{attempt}

-- What the retries of a route come to: a result to return, or the next route.
pub data Round : Type 0 where
  returned : InferenceResult → World → Round
  next_route : World → Round

abbrev pub reason_of : Option String → String
reason_of none = "attempt_hibernated"
reason_of (some reason) = if reason == "" then "attempt_hibernated" else reason

abbrev pub is_hibernating : AttemptStatus → Bool
is_hibernating hibernated = true
is_hibernating _ = false

abbrev pub is_retryable : AttemptStatus → Bool
is_retryable retryable_failure = true
is_retryable _ = false

unfoldable pub put_to_sleep : InferenceBroker → String → String → World → World
unfolding hibernate
put_to_sleep b request_id reason w = record w {
  store = hibernate (b.turns w.made).noted_at request_id reason w.store;
}

-- After an attempt: the result, if it is one to return; `more` is what the retries give.
unfoldable pub judge_round :
    InferenceBroker
    → InferenceRequest
    → InferenceResult
    → World
    → Result BackendError Round
    → Result BackendError Round
unfolding is_accepted put_to_sleep
judge_round b request res w more =
    if is_accepted res.status
    then ok (returned res w)
    else if is_hibernating res.status
    then ok (
        returned res (put_to_sleep b request.inference_request_id (reason_of res.failure_reason) w))
    else if is_retryable res.status
    then more
    else ok (next_route w)

-- `for retry_number in range(same_route_retries + 1)`; the rounds are those that are left.
unfoldable pub try_route :
    InferenceBroker
    → InferenceRequest
    → Usage
    → ProviderRoute
    → (rounds : ℕ) → World
    → Result BackendError Round
unfolding attempt judge_round
try_route b request u route zero w = ok (next_route w)
try_route b request u route (suc rounds) w = do
  (res, d) ← attempt b request u route w
  judge_round b request res d (try_route b request u route rounds d)

unfoldable pub after_round :
    (World → Result BackendError (InferenceResult × World))
    → Round
    → Result BackendError (InferenceResult × World)
after_round next (returned res d) = ok (res, d)
after_round next (next_route d) = next d

unfoldable pub try_routes :
    InferenceBroker
    → InferenceRequest
    → Usage
    → (used_domains : List String) → List ProviderRoute
    → World
    → Result BackendError (InferenceResult × World)
unfolding try_route put_to_sleep hibernating after_round
try_routes b request u used_domains [] w = ok (
  hibernating request.inference_request_id "all_independent_routes_failed",
  put_to_sleep b request.inference_request_id "all_independent_routes_failed" w,
)
try_routes b request u used_domains (r ∷ rs) w =
    let domain = r.upstream_correlation_domain in
    let skipped = try_routes b request u used_domains rs w in
    if contains used_domains domain
    then skipped
    else try_route b request u r (pos_part (b.retry_policy.same_route_retries +ℤ pos 1)) w
      >>= after_round (try_routes b request u (domain ∷ used_domains) rs)

-- A request that was sent before: its result, or that it is still under way.
unfoldable pub duplicate_result : String → Store → InferenceResult
unfolding completed_result hibernating
duplicate_result request_id d = elim (completed_result request_id d) [
  | some res ↦ res
  | none ↦ hibernating request_id "semantic_request_already_in_progress_or_hibernated"
]

unfoldable pub eligible :
    InferenceBroker → InferenceRequest → CompiledContext → Usage → World → List ProviderRoute
unfolding select_routes registered
eligible b request context u w =
    select (λ r. contains b.adapters r.adapter)
      (select_routes b.expected_cost (registered [] b.routes) w.circuits request context u)

unfoldable pub start :
    InferenceBroker
    → InferenceRequest
    → Usage
    → List ProviderRoute
    → World
    → Result BackendError (InferenceResult × World)
unfolding try_routes put_to_sleep hibernating
start b request u [] w = ok (
  hibernating request.inference_request_id "no_eligible_route",
  put_to_sleep b request.inference_request_id "no_eligible_route" w,
)
start b request u (r ∷ rs) w = try_routes b request u [] (r ∷ rs) w

unfoldable pub on_admitted :
    InferenceBroker
    → InferenceRequest
    → CompiledContext
    → Usage
    → World
    → Result BackendError (InferenceRequest × Store)
    → Result BackendError (InferenceResult × World)
unfolding duplicate_result start eligible
on_admitted b request context u w (err e) = err e
on_admitted b request context u w (ok (given, d)) =
    if not (given.inference_request_id == request.inference_request_id)
    then ok (duplicate_result given.inference_request_id d, record w { store = d })
    else start b given u (eligible b given context u w) (record w { store = d })

abbrev pub lifted {ℓ} : {A : Type ℓ} → Result BackendError A → Result BrokerError A
lifted (ok a) = ok a
lifted (err e) = err (raised e)

abbrev pub is_blocking : CompletenessStatus → Bool
is_blocking incomplete_blocking = true
is_blocking _ = false

unfoldable pub run :
    InferenceBroker
    → ℕ
    → InferenceRequest
    → CompiledContext
    → Usage
    → World
    → Result BrokerError (InferenceResult × World)
unfolding on_admitted create_or_get
run b now request context estimated_usage w =
    if is_blocking context.completeness_status
    then err context_rejected
    else lifted (
        on_admitted b request context estimated_usage w
          (create_or_get now request context.manifest w.store))
