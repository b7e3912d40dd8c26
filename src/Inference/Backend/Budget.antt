-- ===== src/Inference/Backend/Budget.antt =====
-- Requests that are sent twice, and reservations against the limit of a request.
use liki.Common.{
  ◌≢◌, err, ℕ, String, string_eq, [], ◌∷◌, some, Bool, true, false, ok, ◌≡◌, refl, arith, inl, inr,
  ◌⊎◌, Option-cases,
}
use liki.Common.Int.{ℤ, ◌+ℤ◌, ◌-ℤ◌, ◌≤ℤ◌}
use liki.Common.Table.{Table, row_of, row_of-update}
use liki.Inference.Records.{
  InferenceRequest, ContextManifest, RequestRow, Store, idempotency_conflict,
}
use liki.Inference.Backend.Admit.{create_or_get, new_row}
use liki.Inference.Backend.Claim.{attempt_of, reserve_rows, reserve_cost}
use liki.Inference.Backend.Admit.{by_key}

by_key_lem :
    (key : String) (rows : Table RequestRow) (r : RequestRow)
    → by_key key rows ≡ some r
    → r.request.idempotency_key ≡ key
unfolding by_key
by_key_lem key [] r h = absurd (ground arith)
by_key_lem key ((q, t) ∷ rows) r h =
    ground (arith, by_key_lem key rows r, string_eq.same_iff t.request.idempotency_key key)

-- What the tables have under the key of a request that was taken in a context.
pub record IsTaken (request given : InferenceRequest) (manifest : ContextManifest) (d : Store)
    : Type 0 where
  pub row : RequestRow
  pub found : by_key request.idempotency_key d.requests ≡ some row
  pub same_request : row.request ≡ given
  pub key_kept : given.idempotency_key ≡ request.idempotency_key
  pub same_task : given.semantic_task_id ≡ request.semantic_task_id
  pub same_context : row.manifest.manifest_hash ≡ manifest.manifest_hash

create_or_get-IsTaken :
    (now : ℕ) (request given : InferenceRequest) (manifest : ContextManifest) (db d : Store)
    → create_or_get now request manifest db ≡ ok (given, d)
    → IsTaken request given manifest d
unfolding create_or_get by_key new_row
create_or_get-IsTaken now request given manifest db d e =
    elim (Option-cases (by_key request.idempotency_key db.requests)) [
      | inl missing ↦ record {
        row = new_row request manifest;
        found = ground (arith, string_eq.same_iff request.idempotency_key request.idempotency_key);
        same_request = ground arith;
        key_kept = ground arith;
        same_task = ground arith;
        same_context = refl;
      }
      | inr (prior, found) ↦ record {
        row = prior;
        found = ground arith;
        same_request = ground arith;
        key_kept = ground (arith, by_key_lem request.idempotency_key db.requests prior found);
        same_task =
            ground
              (arith, string_eq.same_iff prior.request.semantic_task_id request.semantic_task_id);
        same_context =
            ground (arith, string_eq.same_iff prior.manifest.manifest_hash manifest.manifest_hash);
      }
    ]

-- A request that was taken has the task and the context of the row under its key. Sent again it is
-- given back and changes nothing; sent with the same key for another task, or in a context with
-- another hash, it is a conflict: the key of a request stands for one task in one context.
pub create_or_get_again :
    (now later : ℕ) (request given : InferenceRequest) (manifest : ContextManifest) (db d : Store)
    → create_or_get now request manifest db ≡ ok (given, d)
    → IsTaken request given manifest d
      × (create_or_get later request manifest d ≡ ok (given, d))
      × ((other : InferenceRequest) (context : ContextManifest)
          → other.idempotency_key ≡ request.idempotency_key
          → (other.semantic_task_id ≢ request.semantic_task_id)
            ⊎ (context.manifest_hash ≢ manifest.manifest_hash)
          → create_or_get later other context d ≡ err idempotency_conflict)
unfolding create_or_get
create_or_get_again now later request given manifest db d e =
    let t = create_or_get-IsTaken now request given manifest db d e in
    (
      t,
      ground (
        arith,
        t.found,
        t.same_request,
        t.same_task,
        t.same_context,
        string_eq.same_iff t.row.request.semantic_task_id request.semantic_task_id,
        string_eq.same_iff t.row.manifest.manifest_hash manifest.manifest_hash,
      ),
      λ other context same differs. ground (
        arith,
        t.found,
        t.same_request,
        t.same_task,
        t.same_context,
        same,
        differs,
        string_eq.same_iff t.row.request.semantic_task_id other.semantic_task_id,
        string_eq.same_iff t.row.manifest.manifest_hash context.manifest_hash,
      ),
    )

-- What is spent and reserved never exceeds the limit of a request by a reservation: one that is
-- granted leaves their sum within the limit, and one that is refused leaves the tables.
pub reserve_cost_limit :
    (q a : String) (amount limit : ℤ) (granted : Bool) (db d : Store) (r : RequestRow)
    → row_of q db.requests ≡ some r
    → r.request.max_total_attempt_cost_usd ≡ some limit
    → reserve_cost q a amount db ≡ ok (granted, d)
    → ((granted ≡ false) × (d ≡ db))
      ⊎ ((p : RequestRow) × (row_of q d.requests ≡ some p)
          × (p.accrued_cost +ℤ p.reserved_cost ≤ℤ limit))
unfolding reserve_cost reserve_rows attempt_of
reserve_cost_limit q a amount limit false db d r f l e = inl (refl, ground arith)
reserve_cost_limit q a amount limit true db d r f l e = elim (Option-cases (row_of a db.attempts)) [
  | inl missing ↦ absurd (ground arith)
  | inr (row, g) ↦
      let p = record r { reserved_cost = r.reserved_cost -ℤ row.reservation +ℤ amount } in
      inr (p, ground (arith, row_of-update q q p db.requests, string_eq.same_iff q q), ground arith)
]
