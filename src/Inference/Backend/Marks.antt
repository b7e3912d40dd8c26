-- ===== src/Inference/Backend/Marks.antt =====
-- inference/backend.py: append_event, hibernate, revive, reconcile_attempt_cost and
-- mark_decision_useful.
use liki.Common.{
  ℕ, String, string_eq, ◌==◌, List, [], ◌∷◌, Option, none, some, is_some, Bool, true, false, not,
  ◌||◌, if◌then◌else◌, Result, ok, err,
}
use liki.Common.Int.{ℤ, pos, ltb_ℤ, beq_ℤ}
use liki.Common.Table.{row_of, update}
use liki.Inference.Pricing.{semantic_accepted, decision_useful}
use liki.Inference.Records.{
  RequestStatus, admitted, request_hibernated, settled, RequestRow, AttemptRow, Store, BackendError,
  value_error, logged,
}
use liki.Inference.Backend.Claim.{attempt_of}

unfoldable pub append_event : ℕ → String → String → List (String × String) → Store → Store
append_event now request_id event_type payload db =
    logged
      (record {
        request_id = request_id;
        event_type = event_type;
        payload = payload;
        created_at = now;
      })
      db

abbrev pub is_hibernated : RequestStatus → Bool
is_hibernated request_hibernated = true
is_hibernated _ = false

-- `WHERE … completed_attempt_id IS NULL` leaves a completed request alone.
unfoldable pub hibernate : ℕ → String → String → Store → Store
unfolding append_event
hibernate now request_id reason db = elim (row_of request_id db.requests) [
  | none ↦ db
  | some r ↦
      if is_some r.completed_attempt_id
      then db
      else append_event now request_id "inference_hibernated" (("reason", reason) ∷ []) (record db {
        requests =
            update request_id
              (record r { status = request_hibernated; failure_reason = some reason }) db.requests;
      })
]

unfoldable pub revive : ℕ → String → String → Store → Bool × Store
unfolding append_event
revive now request_id reason db = elim (row_of request_id db.requests) [
  | none ↦ (false, db)
  | some r ↦
      if not (is_hibernated r.status) || is_some r.completed_attempt_id then (false, db) else (
        true,
        append_event now request_id "inference_revived" (("reason", reason) ∷ []) (record db {
          requests =
              update request_id (record r { status = admitted; failure_reason = none }) db.requests;
        }),
      )
]

-- The event has the two costs as texts, which `show` writes.
unfoldable pub reconcile_attempt_cost :
    (ℤ → String) → ℕ → String → String → ℤ → Store → Result BackendError (Bool × Store)
unfolding attempt_of append_event
reconcile_attempt_cost show now request_id attempt_id provider_cost db =
    elim (attempt_of attempt_id request_id db.attempts) [
      | none ↦ err (value_error "unknown inference attempt")
      | some row ↦
          let reconciled = record row.attempt { provider_reported_cost_usd = some provider_cost } in
          let noted = record db {
            attempts = update attempt_id (record row { attempt = reconciled }) db.attempts;
          } in
          if ltb_ℤ provider_cost (pos 0)
          then err (value_error "provider cost cannot be negative")
          else if beq_ℤ row.attempt.total_cost_usd provider_cost
          then ok (
            true,
            append_event now request_id "billing_reconciled" (("attempt_id", attempt_id) ∷ [])
                noted,
          )
          else ok (
            false,
            append_event now request_id "BILLING_RECONCILIATION_ERROR"
                (("attempt_id", attempt_id)
                  ∷ ("estimated_cost_usd", show row.attempt.total_cost_usd)
                  ∷ ("provider_cost_usd", show provider_cost)
                  ∷ [])
                noted,
          )
    ]

-- `accepted[0] != attempt_id`, where the first may be None.
abbrev pub names_attempt : Option String → String → Bool
names_attempt none a = false
names_attempt (some b) a = b == a

unfoldable pub useful : ℕ → String → String → String → RequestRow → AttemptRow → Store → Store
unfolding append_event
useful now request_id attempt_id reason r row db =
    append_event now request_id "inference_decision_useful"
      (("attempt_id", attempt_id) ∷ ("reason", reason) ∷ [])
      (record db {
        requests = update request_id (record r { status = settled decision_useful }) db.requests;
        attempts =
            update attempt_id
              (record row { attempt = record row.attempt { status = decision_useful } })
              db.attempts;
      })

unfoldable pub mark_rows :
    ℕ → String → String → String → Store → Option RequestRow → Option AttemptRow → Bool × Store
unfolding useful
mark_rows now q a reason db (some r) (some row) =
    if not (names_attempt r.completed_attempt_id a) then (false, db) else elim row.attempt.status [
      | decision_useful ↦ (true, db)
      | semantic_accepted ↦ (true, useful now q a reason r row db)
      | _ ↦ (false, db)
    ]
mark_rows now q a reason db _ _ = (false, db)

unfoldable pub mark_decision_useful : ℕ → String → String → String → Store → Bool × Store
unfolding attempt_of mark_rows
mark_decision_useful now request_id attempt_id reason db =
    mark_rows now request_id attempt_id reason db (row_of request_id db.requests)
      (attempt_of attempt_id request_id db.attempts)
