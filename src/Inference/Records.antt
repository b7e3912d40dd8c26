-- ===== src/Inference/Records.antt =====
-- inference/types.py: requests, attempts and results; inference/backend.py: the tables
-- `inference_requests`, `inference_attempts` and `inference_events`. The attempts are listed with
-- the last one that was inserted first. A text in JSON stands for the record it was written from.
use liki.Common.{Bool, ℕ, String, string_eq, List, [], ◌∷◌, Option, Result, ok, err}
use liki.Common.Int.{ℤ}
use liki.Common.Json.{Json}
use liki.Common.Table.{Table}
use liki.Inference.Pricing.{AttemptStatus}

-- The fields of a request that the store and the routing read. A share, which is a float, is a
-- multiple of one common power of two, and a
-- number of seconds is one of microseconds.
pub record InferenceRequest : Type 0 where
  pub inference_request_id : String
  pub semantic_task_id : String
  pub task_class : String
  pub expected_artifact_schema : Json
  pub preferred_reasoning_effort : String
  pub idempotency_key : String
  pub allowed_provider_classes : List String
  pub max_call_cost_usd : Option ℤ
  pub max_total_attempt_cost_usd : Option ℤ
  pub max_latency_sec : Option ℕ
  pub min_semantic_acceptance : ℤ
  pub min_reliability : ℤ
  pub routing_benchmark_id : Option String
  pub requires_tools : Bool

-- A manifest by its own name and the hash of its contents.
pub record ContextManifest : Type 0 where
  pub context_manifest_id : String
  pub manifest_hash : String

pub record InferenceAttempt : Type 0 where
  pub inference_attempt_id : String
  pub inference_request_id : String
  pub attempt_no : ℕ
  pub provider_route_id : String
  pub lease_fence : ℕ
  pub model_family : String
  pub reasoning_effort : String
  pub prompt_manifest_hash : String
  pub completed_at : Option ℕ
  pub status : AttemptStatus
  pub error_class : Option String
  pub provider_reported_cost_usd : Option ℤ
  pub total_cost_usd : ℤ
  pub output_artifact : Option Json

pub record InferenceResult : Type 0 where
  pub request_id : String
  pub status : AttemptStatus
  pub artifact : Option Json
  pub failure_reason : Option String
  pub route_id : Option String

pub data RequestStatus : Type 0 where
  admitted : RequestStatus
  attempting : RequestStatus
  request_hibernated : RequestStatus
  settled : AttemptStatus → RequestStatus

pub record RequestRow : Type 0 where
  pub request : InferenceRequest
  pub manifest : ContextManifest
  pub status : RequestStatus
  pub reserved_cost : ℤ
  pub accrued_cost : ℤ
  pub completed_attempt_id : Option String
  pub failure_reason : Option String

pub record AttemptRow : Type 0 where
  pub request_id : String
  pub attempt_no : ℕ
  pub route_id : String
  pub fence : ℕ
  pub lease_until : ℕ
  pub reservation : ℤ
  pub attempt : InferenceAttempt

pub record EventRow : Type 0 where
  pub request_id : String
  pub event_type : String
  pub payload : List (String × String)
  pub created_at : ℕ

pub record Store : Type 0 where
  pub requests : Table RequestRow
  pub attempts : Table AttemptRow
  pub events : List EventRow

pub data BackendError : Type 0 where
  value_error : String → BackendError
  idempotency_conflict : BackendError
  concurrent_modification : BackendError
  integrity_error : BackendError
  type_error : BackendError

unfoldable pub empty_store : Store
empty_store = record { requests = []; attempts = []; events = [] }

abbrev pub logged : EventRow → Store → Store
logged e db = record db { events = e ∷ db.events }

-- The tables after a transaction, which are as before if it raised.
abbrev pub kept {ℓ} : {A : Type ℓ} → Store → Result BackendError (A × Store) → Store
kept db (ok r) = r.1
kept db (err e) = db
