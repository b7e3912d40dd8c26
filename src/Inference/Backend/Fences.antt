-- ===== src/Inference/Backend/Fences.antt =====
-- A later claim shuts out the attempts before it.
use liki.Common.{
  Option, none, true, ℕ, suc, ◌+◌, ◌≤◌, ◌<◌, String, string_eq, [], ◌∷◌, some, is_some, false, ok,
  ◌≡◌, refl, arith, inl, inr, Option-cases,
}
use liki.Common.Int.{ℤ, pos}
use liki.Common.Table.{Table, row_of}
use liki.Inference.Records.{InferenceAttempt, RequestRow, AttemptRow, Store}
use liki.Inference.Backend.Claim.{
  attempt_count, max_fence, or_zero, new_attempt, inserted, claim_attempt,
}
use liki.Inference.Backend.Finish.{finish_late, finish_rows, finish_attempt, is_stale}
use liki.Inference.Backend.Numbers.{IsNumbered, max_fence_count}
use liki.Inference.Backend.Lasting.{Later, HasFence, Later-HasFence, IsAtLeast, max_fence-IsAtLeast}
use liki.Inference.Backend.Calls.{Reached, IsStore, Reached-IsStore}

-- The fence of an attempt of a request is among the numbers that were given.
fence_bound :
    (q a : String) (r : AttemptRow) (rows : Table AttemptRow)
    → IsNumbered rows
    → row_of a rows ≡ some r
    → r.request_id ≡ q
    → r.fence ≤ attempt_count q rows
unfolding IsNumbered attempt_count
fence_bound q a r [] n h e = absurd (ground arith)
fence_bound q a r ((b, t) ∷ rows) n h e =
    ground (arith, fence_bound q a r rows n.2, string_eq.same_iff t.request_id q)

-- The claim of an attempt, and the row that it brings in.
pub record Claims (a q : String) (db : Store) (attempt : InferenceAttempt) (d : Store)
    : Type 0 where
  pub number : attempt.attempt_no ≡ suc (attempt_count q db.attempts)
  pub fence : attempt.lease_fence ≡ attempt.attempt_no
  pub row : AttemptRow
  pub added : d.attempts ≡ (a, row) ∷ db.attempts
  pub is_new : is_some (row_of a db.attempts) ≡ false
  pub for_request : row.request_id ≡ q
  pub row_fence : row.fence ≡ suc (attempt_count q db.attempts)

claim_attempt-Claims :
    (a : String) (now : ℕ) (q route : String) (lease : ℕ) (db d : Store)
    (attempt : InferenceAttempt)
    → IsStore db
    → claim_attempt a now q route lease db ≡ ok (attempt, d)
    → Claims a q db attempt d
unfolding claim_attempt new_attempt inserted
claim_attempt-Claims a now q route lease db d attempt k e =
    elim (Option-cases (row_of q db.requests)) [
      | inl missing ↦ absurd (ground arith)
      | inr (r, found) ↦
          let number = attempt_count q db.attempts + 1 in
          let fence = or_zero (max_fence q db.attempts) + 1 in
          record {
            number = ground arith;
            fence = ground (arith, max_fence_count q db.attempts k.numbered);
            row = record {
              request_id = q;
              attempt_no = number;
              route_id = route;
              fence = fence;
              lease_until = now + lease;
              reservation = pos 0;
              attempt = new_attempt a q route number fence r;
            };
            added = ground arith;
            is_new = ground arith;
            for_request = refl;
            row_fence = ground (arith, max_fence_count q db.attempts k.numbered);
          }
    ]

superseded_stale :
    (now n : ℕ) (old : InferenceAttempt) (row : AttemptRow) (completed : Option String)
    (newest : Option ℕ)
    → row.fence < n
    → IsAtLeast n newest
    → is_stale now old row completed newest ≡ ok true
unfolding is_stale
superseded_stale now n old row completed none lt h = absurd h
superseded_stale now n old row completed (some m) lt h = ground arith

superseded_rows :
    (now logged_at f n : ℕ) (old : InferenceAttempt) (e : Store) (row : Option AttemptRow)
    (request : Option RequestRow)
    → HasFence old.inference_request_id f row
    → f < n
    → IsAtLeast n (max_fence old.inference_request_id e.attempts)
    → (x : Store) × (finish_rows now logged_at old e row request ≡ ok (false, x))
unfolding finish_rows is_stale finish_late
superseded_rows now logged_at f n old e none request h lt m = absurd h
superseded_rows now logged_at f n old e (some row) none h lt m = (e, refl)
superseded_rows now logged_at f n old e (some row) (some r) h lt m = (
  (finish_late logged_at old r row e).1,
  ground (
    arith,
    superseded_stale now n old row r.completed_attempt_id
        (max_fence old.inference_request_id e.attempts),
  ),
)

-- A claim is the next in number, with a fence above those of all attempts of the request before it.
-- From then on, whatever is called in between and whatever the clock says, a finish that names an
-- attempt that the request had before answers False, whichever fence the caller gives with it.
pub claim_attempt_fences :
    (show : ℤ → String) (a : String) (now : ℕ) (q route : String) (lease : ℕ) (db d e : Store)
    (attempt old : InferenceAttempt) (row : AttemptRow) (later logged_at : ℕ)
    → Reached show db
    → claim_attempt a now q route lease db ≡ ok (attempt, d)
    → row_of old.inference_attempt_id db.attempts ≡ some row
    → row.request_id ≡ q
    → old.inference_request_id ≡ q
    → Later show d e
    → (attempt.lease_fence ≡ suc (attempt_count q db.attempts))
      × (row.fence < attempt.lease_fence)
      × (x : Store) × (finish_attempt later logged_at old e ≡ ok (false, x))
unfolding finish_attempt
claim_attempt_fences show a now q route lease db d e attempt old row later logged_at reached given
      found of_q named after_it =
    let k = Reached-IsStore show db reached in
    let c = claim_attempt-Claims a now q route lease db d attempt k given in
    let below = fence_bound q old.inference_attempt_id row db.attempts k.numbered found of_q in
    let old_there : HasFence q row.fence (row_of old.inference_attempt_id d.attempts) =
      ground (arith, c.added, c.is_new, string_eq.same_iff a old.inference_attempt_id) in
    let new_there : HasFence q c.row.fence (row_of a d.attempts) =
      ground (arith, c.added, c.for_request, string_eq.same_iff a a) in
    let newest =
      max_fence-IsAtLeast q a c.row.fence e.attempts
        (Later-HasFence show a q c.row.fence after_it new_there) in
    let shut =
      superseded_rows later logged_at row.fence c.row.fence old e
        (row_of old.inference_attempt_id e.attempts) (row_of old.inference_request_id e.requests)
        (rw named (Later-HasFence show old.inference_attempt_id q row.fence after_it old_there))
        (omega (arith, below, c.row_fence)) (rw named newest) in
    (omega (arith, c.number, c.fence), omega (arith, below, c.number, c.fence), shut.0, shut.1)
