-- ===== src/Inference/Broker.antt =====
-- inference/broker.py: a broker, its world, and how a failure is recorded. What
-- the world does in an attempt is a `Turn`: the name that is drawn, what the clock says at each
-- reading, and what comes back from the adapter of a route. An exception is an `err`, and what the
-- store then holds is not given.
pub mod Attempt
pub mod Rounds
pub mod Made
pub mod Ends
pub mod Settled
pub mod Upkeep
mod Tests
use liki.Common.{
  ℕ, zero, suc, ◌+◌, String, string_eq, ◌==◌, List, [], ◌∷◌, Option, none, some, is_some, is_empty,
  Bool, true, false, not, ◌&&◌, ◌||◌, contains, select, ltb, if◌then◌else◌, Result, ok, err, ◌>>=◌,
  ◌>>◌,
}
use liki.Common.Int.{ℤ, pos, pos_part, ◌+ℤ◌}
use liki.Common.Json.{Json}
use liki.Inference.Pricing.{
  AttemptStatus, Usage, created, transport_success, schema_success, semantic_accepted,
  decision_useful, retryable_failure, nonretryable_failure, hibernated, cost, max_ℤ,
}
use liki.Inference.Records.{
  InferenceRequest, ContextManifest, InferenceAttempt, InferenceResult, Store, BackendError,
  concurrent_modification,
}
use liki.Inference.Circuits.{Circuits, record_route_outcome}
use liki.Inference.Routing.{
  ProviderRoute, CompiledContext, CompletenessStatus, incomplete_blocking, any_missing,
  conservative_cost, select_routes,
}
use liki.Inference.Reply.{RawProviderResponse, Library, validate_response}
use liki.Inference.Backend.Admit.{create_or_get, completed_result}
use liki.Inference.Backend.Claim.{or_zero, claim_attempt, reserve_cost}
use liki.Inference.Backend.Finish.{is_accepted, finish_attempt}
use liki.Inference.Backend.Marks.{append_event, hibernate}

pub data BrokerError : Type 0 where
  context_rejected : BrokerError
  raised : BackendError → BrokerError

pub data Reply : Type 0 where
  answered : RawProviderResponse → Reply
  timed_out : Reply
  transport_error : (error_class : String) (retryable : Bool) → Reply
  defect : Reply

pub record Turn : Type 0 where
  pub attempt_id : String
  pub claimed_at : ℕ
  pub completed_at : ℕ
  pub checked_at : ℕ
  pub logged_at : ℕ
  pub noted_at : ℕ
  pub reply : ProviderRoute → Reply

-- The store, the circuits in it, and how many attempts were begun.
pub record World : Type 0 where
  pub store : Store
  pub circuits : Circuits
  pub made : ℕ

pub record RetryPolicy : Type 0 where
  pub same_route_retries : ℤ
  pub circuit_failure_threshold : ℤ

pub record InferenceBroker : Type 0 where
  pub routes : List ProviderRoute
  pub adapters : List String
  pub retry_policy : RetryPolicy
  pub lib : Library
  pub semantic_validator : Option (Json → InferenceRequest → Bool)
  pub expected_cost : ProviderRoute → Usage → String → ℤ
  pub turns : ℕ → Turn

abbrev pub status_name : AttemptStatus → String
status_name created = "CREATED"
status_name transport_success = "TRANSPORT_SUCCESS"
status_name schema_success = "SCHEMA_SUCCESS"
status_name semantic_accepted = "SEMANTIC_ACCEPTED"
status_name decision_useful = "DECISION_USEFUL"
status_name retryable_failure = "RETRYABLE_FAILURE"
status_name nonretryable_failure = "NONRETRYABLE_FAILURE"
status_name hibernated = "HIBERNATED"

-- A result without an artifact that hibernates the request.
unfoldable pub hibernating : String → String → InferenceResult
hibernating request_id reason = record {
  request_id = request_id;
  status = hibernated;
  artifact = none;
  failure_reason = some reason;
  route_id = none;
}

unfoldable pub unknown_usage : Usage
unknown_usage = record {
  input_tokens = none;
  output_tokens = none;
  reasoning_tokens = none;
  cache_read_tokens = none;
  cache_write_tokens = none;
  token_count_method = "unknown_conservative";
}

unfoldable pub response_cost : ProviderRoute → Usage → AttemptStatus → ℤ → ℤ
unfolding any_missing cost max_ℤ conservative_cost
response_cost route u status reservation =
    if not (any_missing u)
    then cost route.pricing u status
    else max_ℤ reservation (conservative_cost route u status)

-- An attempt names the request that it is of. A result that came too late: the event of the broker, beside the one of the store.
unfoldable pub late_result : Turn → InferenceAttempt → Store → World → InferenceResult × World
unfolding append_event hibernating
late_result t attempt d w = (
  hibernating attempt.inference_request_id "late_result_deduplicated",
  record w {
    store =
        append_event t.noted_at attempt.inference_request_id "late_result_deduplicated"
          (("attempt_id", attempt.inference_attempt_id) ∷ []) d;
  },
)

abbrev pub failure_status : Bool → AttemptStatus
failure_status true = retryable_failure
failure_status false = nonretryable_failure

-- The circuit of the route has one failure more, and the event says which.
unfoldable pub failed_result :
    InferenceBroker
    → ProviderRoute
    → Turn
    → InferenceAttempt
    → String
    → Bool
    → Store
    → World
    → InferenceResult × World
unfolding append_event record_route_outcome
failed_result b route t attempt error_class retryable d w = (
  record {
    request_id = attempt.inference_request_id;
    status = failure_status retryable;
    artifact = none;
    failure_reason = some error_class;
    route_id = some route.route_id;
  },
  record w {
    store =
        append_event t.noted_at attempt.inference_request_id "inference_attempt_failed"
          (("route_id", route.route_id) ∷ ("error_class", error_class) ∷ []) d;
    circuits =
        record_route_outcome route.route_id false b.retry_policy.circuit_failure_threshold
          w.circuits;
  },
)

unfoldable pub finish_transport_failure :
    InferenceBroker
    → ProviderRoute
    → Turn
    → InferenceAttempt
    → ℤ
    → String
    → Bool
    → World
    → Result BackendError (InferenceResult × World)
unfolding max_ℤ conservative_cost unknown_usage finish_attempt late_result failed_result
finish_transport_failure b route t attempt reservation error_class retryable w =
    let status = failure_status retryable in
    let failed = record attempt {
      completed_at = some t.completed_at;
      status = status;
      error_class = some error_class;
      total_cost_usd = max_ℤ reservation (conservative_cost route unknown_usage status);
    } in
    do
      (accepted, d) ← finish_attempt t.checked_at t.logged_at failed w.store
      ok (
          if accepted
          then failed_result b route t failed error_class retryable d w
          else late_result t failed d w)
