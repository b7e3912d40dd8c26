-- ===== src/Inference/Backend/Completion.antt =====
-- The result of a request, once there is one.
use liki.Common.{
  ℕ, ◌≤◌, String, string_eq, is_given, Option, none, some, true, false, ok, ◌≡◌, refl, arith,
}
use liki.Common.Int.{ℤ}
use liki.Common.Table.{row_of, row_of-update}
use liki.Inference.Records.{InferenceAttempt, RequestRow, AttemptRow, Store}
use liki.Inference.Backend.Admit.{create_or_get}
use liki.Inference.Backend.Claim.{
  max_fence, inserted, claim_attempt, attempt_of, reserve_rows, reserve_cost,
}
use liki.Inference.Backend.Finish.{
  settle, complete, finish_rows, finish_attempt, is_stale, deduplicated, is_accepted,
}
use liki.Inference.Backend.Marks.{
  append_event, hibernate, revive, reconcile_attempt_cost, useful, mark_rows, mark_decision_useful,
}
use liki.Inference.Backend.Outcomes.{Outcome, ignored, late, finished, finish_attempt-Outcome}
use liki.Inference.Backend.Calls.{
  Call, creates, claims, reserves, finishes, hibernates, revives, reconciles, marks, after,
}
use liki.Inference.Records.{InferenceResult}
use liki.Inference.Backend.Admit.{completed_row, completed_result, result_of}

-- The attempt that a request names as completed.
abbrev pub winner : Option RequestRow → Option String
winner none = none
winner (some r) = r.completed_attempt_id

outcome_winner :
    (q w : String) (attempt : InferenceAttempt) (db d : Store)
    → Outcome attempt db d
    → winner (row_of q db.requests) ≡ some w
    → is_given (some w) ≡ true
    → winner (row_of q d.requests) ≡ some w
unfolding complete settle deduplicated
outcome_winner q w attempt db d ignored h g = h
outcome_winner q w attempt db d (late r row e f g fresh) h k =
    grind (arith, row_of-update, string_eq.same_iff)
outcome_winner q w attempt db d (finished r row f g h n) i k =
    grind (arith, row_of-update, string_eq.same_iff)

-- A request that has a result keeps it: whatever is called, and in whatever order, the attempt that
-- it names as completed stays the same.
pub after-winner :
    (show : ℤ → String) (q w : String) (c : Call) (db : Store)
    → winner (row_of q db.requests) ≡ some w
    → is_given (some w) ≡ true
    → winner (row_of q (after show c db).requests) ≡ some w
unfolding after create_or_get claim_attempt inserted reserve_cost reserve_rows hibernate revive
    append_event reconcile_attempt_cost mark_decision_useful mark_rows useful attempt_of
after-winner show q w (creates now request manifest) db h g =
    ground (arith, string_eq.same_iff request.inference_request_id q)
after-winner show q w (claims a now p route lease) db h g =
    grind (arith, row_of-update, string_eq.same_iff)
after-winner show q w (reserves p a amount) db h g =
    grind (arith, row_of-update, string_eq.same_iff)
after-winner show q w (finishes now logged_at attempt) db h g =
    outcome_winner q w attempt db _ (finish_attempt-Outcome now logged_at attempt db) h g
after-winner show q w (hibernates now p reason) db h g =
    grind (arith, row_of-update, string_eq.same_iff)
after-winner show q w (revives now p reason) db h g =
    grind (arith, row_of-update, string_eq.same_iff)
after-winner show q w (reconciles now p a cost) db h g = ground arith
after-winner show q w (marks now p a reason) db h g =
    grind (arith, row_of-update, string_eq.same_iff)

-- While the newest attempt of a request is within its lease, a second finish of it with a failure is
-- taken although it has completed the request: the completed result is then that failure.
pub finish_overwrites :
    (now logged_at : ℕ) (attempt : InferenceAttempt) (db : Store) (r : RequestRow)
    (row : AttemptRow)
    → row_of attempt.inference_request_id db.requests ≡ some r
    → r.completed_attempt_id ≡ some attempt.inference_attempt_id
    → row_of attempt.inference_attempt_id db.attempts ≡ some row
    → row.fence ≡ attempt.lease_fence
    → max_fence attempt.inference_request_id db.attempts ≡ some attempt.lease_fence
    → now ≤ row.lease_until
    → is_accepted attempt.status ≡ false
    → (d : Store) × (res : InferenceResult) × (finish_attempt now logged_at attempt db
        ≡ ok (true, d))
      × (completed_result attempt.inference_request_id d ≡ some res)
      × (res.status ≡ attempt.status)
unfolding finish_attempt finish_rows is_stale complete settle completed_result completed_row
    result_of
finish_overwrites now logged_at attempt db r row f c g h m t n = (
  complete attempt r row db,
  result_of attempt.inference_request_id (record row { attempt = attempt }),
  rw (f, g, m) (ground arith),
  grind (arith, row_of-update, string_eq.same_iff),
  refl,
)
