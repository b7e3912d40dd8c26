-- ===== src/Inference/Backend/Outcomes.antt =====
-- What finish_attempt leaves, by its branches.
use liki.Common.{
  ℕ, String, string_eq, is_given, Option, none, some, true, false, ◌&&◌, ok, ◌≡◌, refl, arith, inl,
  inr, Bool-cases, Option-cases, Result-cases,
}
use liki.Common.Table.{row_of, update}
use liki.Inference.Records.{InferenceAttempt, RequestRow, AttemptRow, EventRow, Store, logged, kept}
use liki.Inference.Backend.Claim.{max_fence}
use liki.Inference.Backend.Finish.{
  settle, finish_late, complete, finish_rows, finish_attempt, is_stale, deduplicated, is_accepted,
  is_created,
}

-- The tables after a call for an attempt: as they were, or with a late result set down, or with the
-- attempt and its costs, if it does not come after another result.
pub data Outcome (attempt : InferenceAttempt) (db : Store) : Store → Type 0 where
  ignored : Outcome attempt db db
  late :
      (r : RequestRow) (row : AttemptRow) (e : EventRow)
      → row_of attempt.inference_attempt_id db.attempts ≡ some row
      → row_of attempt.inference_request_id db.requests ≡ some r
      → is_created row.attempt.status ≡ true
      → Outcome attempt db (logged e (settle (deduplicated attempt) r row db))
  finished :
      (r : RequestRow) (row : AttemptRow)
      → row_of attempt.inference_attempt_id db.attempts ≡ some row
      → row_of attempt.inference_request_id db.requests ≡ some r
      → row.fence ≡ attempt.lease_fence
      → (is_given r.completed_attempt_id && is_accepted attempt.status) ≡ false
      → Outcome attempt db (complete attempt r row db)

late-Outcome :
    (logged_at : ℕ) (attempt : InferenceAttempt) (db : Store) (r : RequestRow) (row : AttemptRow)
    → row_of attempt.inference_attempt_id db.attempts ≡ some row
    → row_of attempt.inference_request_id db.requests ≡ some r
    → Outcome attempt db (finish_late logged_at attempt r row db).1
unfolding finish_late
late-Outcome logged_at attempt db r row f g = elim (Bool-cases (is_created row.attempt.status)) [
  | inl fresh ↦ rw fresh (late r row _ f g fresh)
  | inr old ↦ rw old ignored
]

rows-Outcome :
    (now logged_at : ℕ) (attempt : InferenceAttempt) (db : Store) (r : RequestRow)
    (row : AttemptRow)
    → row_of attempt.inference_attempt_id db.attempts ≡ some row
    → row_of attempt.inference_request_id db.requests ≡ some r
    → Outcome attempt db (kept db (finish_rows now logged_at attempt db (some row) (some r)))
unfolding finish_rows
rows-Outcome now logged_at attempt db r row f g =
    let newest = max_fence attempt.inference_request_id db.attempts in
    elim (Result-cases (is_stale now attempt row r.completed_attempt_id newest)) [
      | inl (true, e) ↦ rw e (late-Outcome logged_at attempt db r row f g)
      | inl (false, e) ↦
          let fresh = fresh_lem now attempt row r.completed_attempt_id newest e in
          rw e (finished r row f g fresh.0 fresh.1)
      | inr (x, e) ↦ rw e ignored
    ]
  where
    fresh_lem :
        (now : ℕ) (attempt : InferenceAttempt) (row : AttemptRow) (completed : Option String)
        (newest : Option ℕ)
        → is_stale now attempt row completed newest ≡ ok false
        → (row.fence ≡ attempt.lease_fence)
          × ((is_given completed && is_accepted attempt.status) ≡ false)
    fresh_lem now attempt row completed none e = absurd (ground arith)
    fresh_lem now attempt row completed (some n) e = (ground arith, ground arith)

pub finish_attempt-Outcome :
    (now logged_at : ℕ) (attempt : InferenceAttempt) (db : Store)
    → Outcome attempt db (kept db (finish_attempt now logged_at attempt db))
unfolding finish_attempt finish_rows
finish_attempt-Outcome now logged_at attempt db =
    elim (Option-cases (row_of attempt.inference_attempt_id db.attempts)) [
      | inl missing ↦ rw missing ignored
      | inr (row, f) ↦ elim (Option-cases (row_of attempt.inference_request_id db.requests)) [
        | inl missing ↦ rw (f, missing) ignored
        | inr (r, g) ↦ rw (f, g) (rows-Outcome now logged_at attempt db r row f g)
      ]
    ]

pub complete_requests :
    (attempt : InferenceAttempt) (r : RequestRow) (row : AttemptRow) (db : Store)
    → (p : RequestRow) × ((complete attempt r row db).requests
        ≡ update attempt.inference_request_id p db.requests)
unfolding complete settle
complete_requests attempt r row db = elim (Bool-cases (is_accepted attempt.status)) [
  | inl yes_it_is ↦ rw yes_it_is (_, refl)
  | inr not_so ↦ rw not_so (_, refl)
]

pub complete_attempts :
    (attempt : InferenceAttempt) (r : RequestRow) (row : AttemptRow) (db : Store)
    → (complete attempt r row db).attempts
      ≡ update attempt.inference_attempt_id (record row { attempt = attempt }) db.attempts
unfolding complete settle
complete_attempts attempt r row db = ground arith
