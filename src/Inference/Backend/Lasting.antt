-- ===== src/Inference/Backend/Lasting.antt =====
-- The attempts that are in the tables stay there, for the same claims, whatever is called.
use liki.Common.{ℕ, String, string_eq, Option, none, some, ◌≡◌, arith, ◌≤◌, [], ◌∷◌}
use liki.Common.Int.{ℤ}
use liki.Common.Table.{Table, row_of, row_of-update}
use liki.Inference.Records.{InferenceAttempt, AttemptRow, Store}
use liki.Inference.Backend.Admit.{create_or_get}
use liki.Inference.Backend.Claim.{
  max_fence, inserted, claim_attempt, attempt_of, reserve_rows, reserve_cost,
}
use liki.Inference.Backend.Finish.{settle, complete, deduplicated}
use liki.Inference.Backend.Marks.{
  append_event, hibernate, revive, reconcile_attempt_cost, useful, mark_rows, mark_decision_useful,
}
use liki.Inference.Backend.Outcomes.{Outcome, ignored, late, finished, finish_attempt-Outcome}
use liki.Inference.Backend.Calls.{
  Call, creates, claims, reserves, finishes, hibernates, revives, reconciles, marks, after,
}

-- The tables after any further calls, those included that raise.
pub data Later (show : ℤ → String) (d : Store) : Store → Type 0 where
  at_once : Later show d d
  then_call : {e : Store} (c : Call) → Later show d e → Later show d (after show c e)

-- A row of a request with a fence.
abbrev pub HasFence : String → ℕ → Option AttemptRow → Type 0
HasFence q n none = ⊥
HasFence q n (some r) = (r.request_id ≡ q) × (r.fence ≡ n)

outcome-HasFence :
    (a q : String) (n : ℕ) (attempt : InferenceAttempt) (db d : Store)
    → Outcome attempt db d
    → HasFence q n (row_of a db.attempts)
    → HasFence q n (row_of a d.attempts)
unfolding complete settle deduplicated
outcome-HasFence a q n attempt db d ignored h = h
outcome-HasFence a q n attempt db d (late r row e f g fresh) h =
    grind (arith, row_of-update, string_eq.same_iff)
outcome-HasFence a q n attempt db d (finished r row f g i j) h =
    grind (arith, row_of-update, string_eq.same_iff)

after-HasFence :
    (show : ℤ → String) (a q : String) (n : ℕ) (c : Call) (db : Store)
    → HasFence q n (row_of a db.attempts)
    → HasFence q n (row_of a (after show c db).attempts)
unfolding after create_or_get claim_attempt inserted reserve_cost reserve_rows hibernate revive
    append_event reconcile_attempt_cost mark_decision_useful mark_rows useful attempt_of
after-HasFence show a q n (creates now request manifest) db h = ground arith
after-HasFence show a q n (claims b now p route lease) db h =
    grind (arith, row_of-update, string_eq.same_iff)
after-HasFence show a q n (reserves p b amount) db h =
    grind (arith, row_of-update, string_eq.same_iff)
after-HasFence show a q n (finishes now logged_at attempt) db h =
    outcome-HasFence a q n attempt db _ (finish_attempt-Outcome now logged_at attempt db) h
after-HasFence show a q n (hibernates now p reason) db h = ground arith
after-HasFence show a q n (revives now p reason) db h = ground arith
after-HasFence show a q n (reconciles now p b cost) db h =
    grind (arith, row_of-update, string_eq.same_iff)
after-HasFence show a q n (marks now p b reason) db h =
    grind (arith, row_of-update, string_eq.same_iff)

pub Later-HasFence :
    (show : ℤ → String) (a q : String) (n : ℕ) {d e : Store}
    → Later show d e
    → HasFence q n (row_of a d.attempts)
    → HasFence q n (row_of a e.attempts)
Later-HasFence show a q n at_once h = h
Later-HasFence show a q n (then_call {e} c l) h =
    after-HasFence show a q n c e (Later-HasFence show a q n l h)

abbrev pub IsAtLeast : ℕ → Option ℕ → Type 0
IsAtLeast n none = ⊥
IsAtLeast n (some m) = n ≤ m

-- The newest fence of a request is not below that of any attempt of it.
pub max_fence-IsAtLeast :
    (q a : String) (n : ℕ) (rows : Table AttemptRow)
    → HasFence q n (row_of a rows)
    → IsAtLeast n (max_fence q rows)
unfolding max_fence
max_fence-IsAtLeast q a n [] h = absurd h
max_fence-IsAtLeast q a n ((b, r) ∷ rows) h =
    ground (arith, max_fence-IsAtLeast q a n rows, string_eq.same_iff r.request_id q)
