-- ===== src/Inference/Backend/Finish.antt =====
-- inference/backend.py: finish_attempt.
use liki.Common.{
  ℕ, String, string_eq, is_given, [], ◌∷◌, Option, none, some, Bool, true, false, not, ◌&&◌, ◌||◌,
  ltb, nat_beq, if◌then◌else◌, Result, ok, err, ◌>>=◌,
}
use liki.Common.Int.{◌+ℤ◌, ◌-ℤ◌}
use liki.Common.Table.{row_of, update}
use liki.Inference.Pricing.{AttemptStatus, created, semantic_accepted, decision_useful, hibernated}
use liki.Inference.Records.{
  InferenceAttempt, settled, RequestRow, AttemptRow, Store, BackendError, type_error, logged,
}
use liki.Inference.Backend.Claim.{max_fence}

-- `status in {SEMANTIC_ACCEPTED, DECISION_USEFUL}`
unfoldable pub is_accepted : AttemptStatus → Bool
is_accepted semantic_accepted = true
is_accepted decision_useful = true
is_accepted _ = false

unfoldable pub is_created : AttemptStatus → Bool
is_created created = true
is_created _ = false

-- The fence of the row differs, or else the newest of the request does (`int(None)` raises), or the
-- lease has ended, or a result would come after another one.
unfoldable pub is_stale :
    ℕ → InferenceAttempt → AttemptRow → Option String → Option ℕ → Result BackendError Bool
unfolding is_accepted
is_stale now attempt row completed newest =
    if not (nat_beq row.fence attempt.lease_fence) then ok true else elim newest [
      | none ↦ err type_error
      | some n ↦ ok (
          not (nat_beq n attempt.lease_fence)
          || ltb row.lease_until now
          || is_given completed && is_accepted attempt.status)
    ]

unfoldable pub deduplicated : InferenceAttempt → InferenceAttempt
deduplicated attempt = record attempt {
  status = hibernated;
  error_class = some "late_result_deduplicated";
  output_artifact = none;
}

-- The attempt and its cost, in place of what was reserved.
unfoldable pub settle : InferenceAttempt → RequestRow → AttemptRow → Store → Store
settle attempt r row db = record db {
  requests =
      update attempt.inference_request_id
        (record r {
          reserved_cost = r.reserved_cost -ℤ row.reservation;
          accrued_cost = r.accrued_cost +ℤ attempt.total_cost_usd;
        })
        db.requests;
  attempts = update attempt.inference_attempt_id (record row { attempt = attempt }) db.attempts;
}

unfoldable pub finish_late : ℕ → InferenceAttempt → RequestRow → AttemptRow → Store → Bool × Store
unfolding is_created deduplicated settle
finish_late logged_at attempt r row db =
    if not (is_created row.attempt.status) then (false, db) else (
      false,
      logged
          (record {
            request_id = attempt.inference_request_id;
            event_type = "late_result_deduplicated";
            payload = ("attempt_id", attempt.inference_attempt_id) ∷ [];
            created_at = logged_at;
          })
          (settle (deduplicated attempt) r row db),
    )

-- The second UPDATE of the request, which has the costs of the first.
unfoldable pub complete : InferenceAttempt → RequestRow → AttemptRow → Store → Store
unfolding is_accepted settle
complete attempt r row db =
    if is_accepted attempt.status
    then record (settle attempt r row db) {
      requests =
          update attempt.inference_request_id
            (record r {
              reserved_cost = r.reserved_cost -ℤ row.reservation;
              accrued_cost = r.accrued_cost +ℤ attempt.total_cost_usd;
              status = settled attempt.status;
              completed_attempt_id = some attempt.inference_attempt_id;
            })
            db.requests;
    }
    else settle attempt r row db

unfoldable pub finish_rows :
    ℕ
    → ℕ
    → InferenceAttempt
    → Store
    → Option AttemptRow
    → Option RequestRow
    → Result BackendError (Bool × Store)
unfolding is_stale finish_late complete max_fence
finish_rows now logged_at attempt db (some row) (some r) = do
  stale ←
      is_stale now attempt row r.completed_attempt_id
        (max_fence attempt.inference_request_id db.attempts)
  ok (if stale then finish_late logged_at attempt r row db else (true, complete attempt r row db))
finish_rows now logged_at attempt db _ _ = ok (false, db)

-- The clock is read for the lease, and again for the event.
unfoldable pub finish_attempt :
    (now logged_at : ℕ) → InferenceAttempt → Store → Result BackendError (Bool × Store)
unfolding finish_rows
finish_attempt now logged_at attempt db =
    finish_rows now logged_at attempt db (row_of attempt.inference_attempt_id db.attempts)
      (row_of attempt.inference_request_id db.requests)
