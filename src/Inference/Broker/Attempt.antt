-- ===== src/Inference/Broker/Attempt.antt =====
-- inference/broker.py: `_attempt`, one attempt of a request at a route.
use liki.Common.{
  none, ℕ, suc, ◌+◌, String, string_eq, [], ◌∷◌, Option, some, Bool, true, false, ltb,
  if◌then◌else◌, Result, ok, err, ◌>>=◌,
}
use liki.Common.Int.{ℤ}
use liki.Common.Json.{Json, object, end}
use liki.Inference.Pricing.{AttemptStatus, Usage, semantic_accepted, hibernated}
use liki.Inference.Records.{
  InferenceRequest, InferenceAttempt, InferenceResult, Store, BackendError, concurrent_modification,
}
use liki.Inference.Circuits.{record_route_outcome}
use liki.Inference.Routing.{ProviderRoute, conservative_cost}
use liki.Inference.Reply.{validate_response}
use liki.Inference.Backend.Claim.{or_zero, claim_attempt, reserve_cost}
use liki.Inference.Backend.Finish.{is_accepted, finish_attempt}
use liki.Inference.Backend.Marks.{append_event}
use liki.Inference.Broker.{
  Reply, answered, timed_out, transport_error, defect, Turn, World, InferenceBroker, status_name,
  hibernating, response_cost, late_result, finish_transport_failure,
}

-- The attempt with what came back, as `model_copy` makes it.
unfoldable pub answered_attempt :
    ProviderRoute
    → Turn
    → InferenceAttempt
    → Usage
    → ℤ
    → AttemptStatus × Option Json × Option String
    → InferenceAttempt
unfolding response_cost
answered_attempt route t attempt u reservation v = record attempt {
  completed_at = some t.completed_at;
  status = v.0;
  error_class = v.2;
  total_cost_usd = response_cost route u v.0 reservation;
  output_artifact = v.1;
}

-- `if artifact`: an object without members is false.
unfoldable pub has_artifact : Option Json → Bool
has_artifact none = false
has_artifact (some (object end)) = false
has_artifact (some _) = true

-- A list in an event is written with commas.
unfoldable pub completed_outcome :
    InferenceBroker
    → ProviderRoute
    → Turn
    → InferenceAttempt
    → Store
    → World
    → InferenceResult × World
unfolding append_event record_route_outcome is_accepted has_artifact
completed_outcome b route t attempt d w = (
  record {
    request_id = attempt.inference_request_id;
    status = attempt.status;
    artifact = attempt.output_artifact;
    failure_reason = attempt.error_class;
    route_id = some route.route_id;
  },
  record w {
    store =
        append_event t.noted_at attempt.inference_request_id "inference_attempt_completed"
          (("attempt_id", attempt.inference_attempt_id)
            ∷ ("final_status", status_name attempt.status)
            ∷ (
              "layers",
              if has_artifact attempt.output_artifact
                  then "TRANSPORT_SUCCESS,SCHEMA_SUCCESS"
                  else "TRANSPORT_SUCCESS",
            )
            ∷ [])
          d;
    circuits =
        record_route_outcome route.route_id (is_accepted attempt.status)
          b.retry_policy.circuit_failure_threshold w.circuits;
  },
)

-- An exception of `finish_attempt` is caught, and the failure is recorded in its place.
unfoldable pub receive :
    InferenceBroker
    → ProviderRoute
    → Turn
    → InferenceAttempt
    → ℤ
    → World
    → Result BackendError (Bool × Store)
    → Result BackendError (InferenceResult × World)
unfolding finish_transport_failure late_result completed_outcome
receive b route t attempt reservation w (err e) =
    finish_transport_failure b route t attempt reservation "adapter_or_validator_failure" false w
receive b route t attempt reservation w (ok (true, d)) =
    ok (completed_outcome b route t attempt d w)
receive b route t attempt reservation w (ok (false, d)) = ok (late_result t attempt d w)

unfoldable pub invoke :
    InferenceBroker
    → InferenceRequest
    → ProviderRoute
    → Turn
    → InferenceAttempt
    → ℤ
    → World
    → Reply
    → Result BackendError (InferenceResult × World)
unfolding answered_attempt receive finish_transport_failure finish_attempt validate_response
invoke b request route t attempt reservation w (answered r) =
    let given =
      answered_attempt route t attempt r.usage reservation
        (validate_response b.lib request r b.semantic_validator) in
    receive b route t given reservation w (finish_attempt t.checked_at t.logged_at given w.store)
invoke b request route t attempt reservation w timed_out =
    finish_transport_failure b route t attempt reservation "caller_timeout" true w
invoke b request route t attempt reservation w (transport_error error_class retryable) =
    finish_transport_failure b route t attempt reservation error_class retryable w
invoke b request route t attempt reservation w defect =
    finish_transport_failure b route t attempt reservation "adapter_or_validator_failure" false w

-- The budget of the request is spent: the attempt is finished before any call.
unfoldable pub denied_attempt : Turn → InferenceAttempt → InferenceAttempt
denied_attempt t attempt = record attempt {
  completed_at = some t.completed_at;
  status = hibernated;
  error_class = some "budget_exhausted";
}

unfoldable pub denied_result :
    ProviderRoute → Turn → InferenceAttempt → Store → World → InferenceResult × World
unfolding append_event hibernating
denied_result route t attempt d w = (
  hibernating attempt.inference_request_id "budget_exhausted",
  record w {
    store =
        append_event t.noted_at attempt.inference_request_id "inference_budget_denied"
          (("route_id", route.route_id) ∷ []) d;
  },
)

unfoldable pub deny :
    ProviderRoute → Turn → InferenceAttempt → World → Result BackendError (InferenceResult × World)
unfolding finish_attempt denied_attempt denied_result
deny route t attempt w = do
  (accepted, d) ← finish_attempt t.checked_at t.logged_at (denied_attempt t attempt) w.store
  ok (denied_result route t attempt d w)

unfoldable pub on_reserved :
    InferenceBroker
    → InferenceRequest
    → ProviderRoute
    → Turn
    → InferenceAttempt
    → ℤ
    → World
    → Bool × Store
    → Result BackendError (InferenceResult × World)
unfolding invoke deny
on_reserved b request route t attempt reservation w (true, d) =
    invoke b request route t attempt reservation (record w { store = d }) (t.reply route)
on_reserved b request route t attempt reservation w (false, d) =
    deny route t attempt (record w { store = d })

-- The fields that the route gives.
unfoldable pub resolved : ProviderRoute → InferenceAttempt → InferenceAttempt
resolved route a = record a { model_family = route.model_family }

-- `except ConcurrentModification`
unfoldable pub on_claim :
    InferenceBroker
    → InferenceRequest
    → ProviderRoute
    → Turn
    → ℤ
    → World
    → Result BackendError (InferenceAttempt × Store)
    → Result BackendError (InferenceResult × World)
unfolding on_reserved reserve_cost hibernating resolved
on_claim b request route t reservation w (err concurrent_modification) =
    ok (hibernating request.inference_request_id "lease_superseded", w)
on_claim b request route t reservation w (err e) = err e
on_claim b request route t reservation w (ok (a, d)) =
    let attempt = resolved route a in
    do
      reserved ←
          reserve_cost request.inference_request_id attempt.inference_attempt_id reservation d
      on_reserved b request route t attempt reservation (record w { store = d }) reserved

-- The lease is the longer of the deadline and the timeout of the route, and five seconds.
unfoldable pub lease_of : InferenceRequest → ProviderRoute → ℕ
lease_of request route =
    let deadline = or_zero request.max_latency_sec in
    let timeout = route.capabilities.timeout_seconds in
    (if ltb deadline timeout then timeout else deadline) + 5000000

unfoldable pub attempt :
    InferenceBroker
    → InferenceRequest
    → Usage
    → ProviderRoute
    → World
    → Result BackendError (InferenceResult × World)
unfolding on_claim claim_attempt conservative_cost lease_of
attempt b request estimated_usage route w =
    let t = b.turns w.made in
    on_claim b request route t (conservative_cost route estimated_usage semantic_accepted)
      (record w { made = suc w.made })
      (claim_attempt t.attempt_id t.claimed_at request.inference_request_id route.route_id
        (lease_of request route) w.store)
