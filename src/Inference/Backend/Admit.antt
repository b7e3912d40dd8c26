-- ===== src/Inference/Backend/Admit.antt =====
-- inference/backend.py: create_or_get and completed_result.
-- A transaction is a function on the tables, and one that raises is rolled back.
use liki.Common.{
  ℕ, String, string_eq, ◌==◌, [], ◌∷◌, Option, none, some, is_some, not, ◌||◌, if◌then◌else◌,
  Result, ok, err,
}
use liki.Common.Int.{pos}
use liki.Common.Table.{Table, row_of}
use liki.Inference.Records.{
  InferenceRequest, ContextManifest, InferenceResult, admitted, RequestRow, AttemptRow, Store,
  BackendError, idempotency_conflict, integrity_error, logged,
}

-- `SELECT … WHERE idempotency_key=?`
unfoldable pub by_key : String → Table RequestRow → Option RequestRow
by_key key [] = none
by_key key ((q, r) ∷ rows) = if r.request.idempotency_key == key then some r else by_key key rows

unfoldable pub new_row : InferenceRequest → ContextManifest → RequestRow
new_row request manifest = record {
  request = request;
  manifest = manifest;
  status = admitted;
  reserved_cost = pos 0;
  accrued_cost = pos 0;
  completed_attempt_id = none;
  failure_reason = none;
}

unfoldable pub create_or_get :
    ℕ → InferenceRequest → ContextManifest → Store → Result BackendError (InferenceRequest × Store)
unfolding by_key new_row
create_or_get now request manifest db = elim (by_key request.idempotency_key db.requests) [
  | some prior ↦
      if not (prior.request.semantic_task_id == request.semantic_task_id)
        || not (prior.manifest.manifest_hash == manifest.manifest_hash)
      then err idempotency_conflict
      else ok (prior.request, db)
  | none ↦
      if is_some (row_of request.inference_request_id db.requests)
      then err integrity_error
      else ok (
        request,
        logged
            (record {
              request_id = request.inference_request_id;
              event_type = "inference_admitted";
              payload = ("manifest_hash", manifest.manifest_hash) ∷ [];
              created_at = now;
            })
            (record db {
              requests = (request.inference_request_id, new_row request manifest) ∷ db.requests;
            }),
      )
]

unfoldable pub result_of : String → AttemptRow → InferenceResult
result_of request_id row = record {
  request_id = request_id;
  status = row.attempt.status;
  artifact = row.attempt.output_artifact;
  failure_reason = none;
  route_id = some row.attempt.provider_route_id;
}

-- The attempt that a request names as completed.
unfoldable pub completed_row : String → Store → Option AttemptRow
completed_row request_id db = elim (row_of request_id db.requests) [
  | none ↦ none
  | some r ↦ elim r.completed_attempt_id [ none ↦ none | some a ↦ row_of a db.attempts ]
]

unfoldable pub completed_result : String → Store → Option InferenceResult
unfolding completed_row result_of
completed_result request_id db = elim (completed_row request_id db) [
  | none ↦ none
  | some row ↦ some (result_of request_id row)
]
