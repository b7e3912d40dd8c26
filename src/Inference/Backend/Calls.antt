-- ===== src/Inference/Backend/Calls.antt =====
-- The calls of the store, one after the other, and the tables that they reach.
use liki.Common.{ℕ, String, string_eq, some, ◌≡◌, refl, arith, inl, inr, Option-cases}
use liki.Common.Int.{ℤ}
use liki.Common.Table.{row_of, update, IsKeyed, update-IsKeyed}
use liki.Inference.Records.{
  InferenceRequest, attempting, ContextManifest, InferenceAttempt, RequestRow, AttemptRow, Store,
  empty_store, kept,
}
use liki.Inference.Backend.Admit.{create_or_get}
use liki.Inference.Backend.Claim.{inserted, claim_attempt, attempt_of, reserve_rows, reserve_cost}
use liki.Inference.Backend.Finish.{settle, finish_attempt, deduplicated}
use liki.Inference.Backend.Marks.{
  append_event, hibernate, revive, reconcile_attempt_cost, useful, mark_rows, mark_decision_useful,
}
use liki.Inference.Backend.Numbers.{IsClaim, IsNumbered, IsNumbered-update, max_fence_count}
use liki.Inference.Backend.Outcomes.{
  Outcome, ignored, late, finished, finish_attempt-Outcome, complete_requests, complete_attempts,
}

pub data Call : Type 0 where
  creates : (now : ℕ) → InferenceRequest → ContextManifest → Call
  claims : (attempt_id : String) (now : ℕ) (request_id route_id : String) (lease : ℕ) → Call
  reserves : (request_id attempt_id : String) → ℤ → Call
  finishes : (now logged_at : ℕ) → InferenceAttempt → Call
  hibernates : (now : ℕ) (request_id reason : String) → Call
  revives : (now : ℕ) (request_id reason : String) → Call
  reconciles : (now : ℕ) (request_id attempt_id : String) → ℤ → Call
  marks : (now : ℕ) (request_id attempt_id reason : String) → Call

unfoldable pub after : (ℤ → String) → Call → Store → Store
unfolding create_or_get claim_attempt reserve_cost finish_attempt hibernate revive
    reconcile_attempt_cost mark_decision_useful
after show (creates now request manifest) db = kept db (create_or_get now request manifest db)
after show (claims a now q route lease) db = kept db (claim_attempt a now q route lease db)
after show (reserves q a amount) db = kept db (reserve_cost q a amount db)
after show (finishes now logged_at attempt) db = kept db (finish_attempt now logged_at attempt db)
after show (hibernates now q reason) db = hibernate now q reason db
after show (revives now q reason) db = (revive now q reason db).1
after show (reconciles now q a cost) db = kept db (reconcile_attempt_cost show now q a cost db)
after show (marks now q a reason) db = (mark_decision_useful now q a reason db).1

pub data Reached (show : ℤ → String) : Store → Type 0 where
  at_start : Reached show empty_store
  called : {db : Store} (c : Call) → Reached show db → Reached show (after show c db)

-- Keys are unique, and the attempts are numbered.
pub record IsStore (db : Store) : Type 0 where
  pub request_keys : IsKeyed db.requests
  pub attempt_keys : IsKeyed db.attempts
  pub numbered : IsNumbered db.attempts

-- The tables with one attempt replaced by a row for the same claim, and one request by any.
replaced-IsStore :
    (db d : Store) (q a : String) (r s : AttemptRow) (p : RequestRow)
    → IsStore db
    → row_of a db.attempts ≡ some r
    → IsClaim r s
    → d.requests ≡ update q p db.requests
    → d.attempts ≡ update a s db.attempts
    → IsStore d
replaced-IsStore db d q a r s p k h c e f = record {
  request_keys = rw e (update-IsKeyed q p db.requests k.request_keys);
  attempt_keys = rw f (update-IsKeyed a s db.attempts k.attempt_keys);
  numbered = rw f (IsNumbered-update a r s db.attempts k.attempt_keys h c k.numbered);
}

creates-IsStore :
    (now : ℕ) (request : InferenceRequest) (manifest : ContextManifest) (db : Store)
    → IsStore db
    → IsStore (kept db (create_or_get now request manifest db))
unfolding create_or_get
creates-IsStore now request manifest db k = record {
  request_keys = ground (arith, k.request_keys);
  attempt_keys = ground (arith, k.attempt_keys);
  numbered = ground (arith, k.numbered);
}

claims-IsStore :
    (a : String) (now : ℕ) (q route : String) (lease : ℕ) (db : Store)
    → IsStore db
    → IsStore (kept db (claim_attempt a now q route lease db))
unfolding claim_attempt inserted IsNumbered
claims-IsStore a now q route lease db k = record {
  request_keys = elim (Option-cases (row_of q db.requests)) [
    | inl missing ↦ ground (arith, k.request_keys)
    | inr (r, found) ↦ ground (
      arith,
      k.request_keys,
      update-IsKeyed q (record r { status = attempting }) db.requests k.request_keys,
    )
  ];
  attempt_keys = ground (arith, k.attempt_keys);
  numbered = ground (arith, k.numbered, max_fence_count q db.attempts k.numbered);
}

reserves-IsStore :
    (q a : String) (amount : ℤ) (db : Store)
    → IsStore db
    → IsStore (kept db (reserve_cost q a amount db))
unfolding reserve_cost reserve_rows attempt_of
reserves-IsStore q a amount db k = record {
  request_keys = grind (arith, k.request_keys, update-IsKeyed);
  attempt_keys = grind (arith, k.attempt_keys, update-IsKeyed);
  numbered = grind (arith, k.numbered, IsNumbered-update);
}

finishes-IsStore :
    (attempt : InferenceAttempt) (db d : Store) → IsStore db → Outcome attempt db d → IsStore d
unfolding settle deduplicated
finishes-IsStore attempt db d k ignored = k
finishes-IsStore attempt db d k (late r row e f g fresh) =
    replaced-IsStore db _ attempt.inference_request_id attempt.inference_attempt_id row _ _ k f
      (record { same_request = refl; same_number = refl; same_fence = refl }) refl refl
finishes-IsStore attempt db d k (finished r row f g h n) =
    let p = complete_requests attempt r row db in
    replaced-IsStore db _ attempt.inference_request_id attempt.inference_attempt_id row _ p.0 k f
      (record { same_request = refl; same_number = refl; same_fence = refl }) p.1
      (complete_attempts attempt r row db)

hibernates-IsStore :
    (now : ℕ) (q reason : String) (db : Store) → IsStore db → IsStore (hibernate now q reason db)
unfolding hibernate append_event
hibernates-IsStore now q reason db k = record {
  request_keys = grind (arith, k.request_keys, update-IsKeyed);
  attempt_keys = ground (arith, k.attempt_keys);
  numbered = ground (arith, k.numbered);
}

revives-IsStore :
    (now : ℕ) (q reason : String) (db : Store) → IsStore db → IsStore (revive now q reason db).1
unfolding revive append_event
revives-IsStore now q reason db k = record {
  request_keys = grind (arith, k.request_keys, update-IsKeyed);
  attempt_keys = ground (arith, k.attempt_keys);
  numbered = ground (arith, k.numbered);
}

reconciles-IsStore :
    (show : ℤ → String) (now : ℕ) (q a : String) (cost : ℤ) (db : Store)
    → IsStore db
    → IsStore (kept db (reconcile_attempt_cost show now q a cost db))
unfolding reconcile_attempt_cost attempt_of append_event
reconciles-IsStore show now q a cost db k = record {
  request_keys = ground (arith, k.request_keys);
  attempt_keys = grind (arith, k.attempt_keys, update-IsKeyed);
  numbered = grind (arith, k.numbered, IsNumbered-update);
}

marks-IsStore :
    (now : ℕ) (q a reason : String) (db : Store)
    → IsStore db
    → IsStore (mark_decision_useful now q a reason db).1
unfolding mark_decision_useful mark_rows useful attempt_of append_event
marks-IsStore now q a reason db k = record {
  request_keys = grind (arith, k.request_keys, update-IsKeyed);
  attempt_keys = grind (arith, k.attempt_keys, update-IsKeyed);
  numbered = grind (arith, k.numbered, IsNumbered-update);
}

pub after-IsStore :
    (show : ℤ → String) (c : Call) (db : Store) → IsStore db → IsStore (after show c db)
unfolding after
after-IsStore show (creates now request manifest) db k = creates-IsStore now request manifest db k
after-IsStore show (claims a now q route lease) db k = claims-IsStore a now q route lease db k
after-IsStore show (reserves q a amount) db k = reserves-IsStore q a amount db k
after-IsStore show (finishes now logged_at attempt) db k =
    finishes-IsStore attempt db _ k (finish_attempt-Outcome now logged_at attempt db)
after-IsStore show (hibernates now q reason) db k = hibernates-IsStore now q reason db k
after-IsStore show (revives now q reason) db k = revives-IsStore now q reason db k
after-IsStore show (reconciles now q a cost) db k = reconciles-IsStore show now q a cost db k
after-IsStore show (marks now q a reason) db k = marks-IsStore now q a reason db k

-- In all tables that calls reach, raising ones included, each request and each attempt has one row,
-- and the attempts of a request have the numbers and the fences 1, 2, 3 and so on as they came.
pub Reached-IsStore : (show : ℤ → String) (db : Store) → Reached show db → IsStore db
unfolding empty_store IsNumbered
Reached-IsStore show db at_start = record { request_keys = tt; attempt_keys = tt; numbered = tt }
Reached-IsStore show db (called {db = d} c r) = after-IsStore show c d (Reached-IsStore show d r)
