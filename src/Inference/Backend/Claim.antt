-- ===== src/Inference/Backend/Claim.antt =====
-- inference/backend.py: claim_attempt and reserve_cost.
use liki.Common.{
  ℕ, suc, ◌+◌, String, string_eq, ◌==◌, is_given, [], ◌∷◌, Option, none, some, is_some, Bool, true,
  false, ◌&&◌, ◌||◌, ltb, nat_beq, if◌then◌else◌, Result, ok, err,
}
use liki.Common.Int.{ℤ, pos, ◌+ℤ◌, ◌-ℤ◌, ltb_ℤ}
use liki.Common.Table.{Table, row_of, update}
use liki.Inference.Pricing.{created}
use liki.Inference.Records.{
  InferenceAttempt, attempting, RequestRow, AttemptRow, Store, BackendError, value_error,
  concurrent_modification, integrity_error,
}

-- `SELECT COUNT(*) … WHERE request_id=?` and `MAX(fence)`
unfoldable pub attempt_count : String → Table AttemptRow → ℕ
attempt_count q [] = 0
attempt_count q ((a, r) ∷ rows) =
    let rest = attempt_count q rows in if r.request_id == q then suc rest else rest

unfoldable pub max_fence : String → Table AttemptRow → Option ℕ
max_fence q [] = none
max_fence q ((a, r) ∷ rows) =
    let rest = max_fence q rows in if r.request_id == q then larger r.fence rest else rest
  where
    larger : ℕ → Option ℕ → Option ℕ
    larger n none = some n
    larger n (some m) = some (if ltb m n then n else m)

-- `int(row[1] or 0)`
abbrev pub or_zero : Option ℕ → ℕ
or_zero none = 0
or_zero (some n) = n

-- `UNIQUE(request_id, attempt_no)`
unfoldable pub has_number : String → ℕ → Table AttemptRow → Bool
has_number q n [] = false
has_number q n ((a, r) ∷ rows) =
    let rest = has_number q n rows in
    if r.request_id == q && nat_beq r.attempt_no n then true else rest

unfoldable pub new_attempt : String → String → String → ℕ → ℕ → RequestRow → InferenceAttempt
new_attempt attempt_id request_id route_id number fence r = record {
  inference_attempt_id = attempt_id;
  inference_request_id = request_id;
  attempt_no = number;
  provider_route_id = route_id;
  lease_fence = fence;
  model_family = "pending_route_resolution";
  reasoning_effort = r.request.preferred_reasoning_effort;
  prompt_manifest_hash = r.manifest.manifest_hash;
  completed_at = none;
  status = created;
  error_class = none;
  provider_reported_cost_usd = none;
  total_cost_usd = pos 0;
  output_artifact = none;
}

unfoldable pub inserted : String → String → String → ℕ → ℕ → ℕ → RequestRow → Store → Store
unfolding new_attempt
inserted attempt_id request_id route_id number fence until r db = record db {
  requests = update request_id (record r { status = attempting }) db.requests;
  attempts =
      (
        attempt_id,
        record {
          request_id = request_id;
          attempt_no = number;
          route_id = route_id;
          fence = fence;
          lease_until = until;
          reservation = pos 0;
          attempt = new_attempt attempt_id request_id route_id number fence r;
        },
      )
      ∷ db.attempts;
}

-- The name of the attempt is the one that `uuid4` draws; the lease is in microseconds.
unfoldable pub claim_attempt :
    (attempt_id : String) (now : ℕ) (request_id route_id : String) (lease : ℕ)
    → Store
    → Result BackendError (InferenceAttempt × Store)
unfolding attempt_count max_fence has_number new_attempt inserted
claim_attempt attempt_id now request_id route_id lease db = elim (row_of request_id db.requests) [
  | none ↦ err (value_error "unknown inference request")
  | some r ↦
      let number = attempt_count request_id db.attempts + 1 in
      let fence = or_zero (max_fence request_id db.attempts) + 1 in
      if is_given r.completed_attempt_id
      then err concurrent_modification
      else if is_some (row_of attempt_id db.attempts) || has_number request_id number db.attempts
      then err integrity_error
      else ok (
        new_attempt attempt_id request_id route_id number fence r,
        inserted attempt_id request_id route_id number fence (now + lease) r db,
      )
]

-- `WHERE attempt_id=? AND request_id=?`
unfoldable pub attempt_of : String → String → Table AttemptRow → Option AttemptRow
attempt_of attempt_id request_id rows = elim (row_of attempt_id rows) [
  | none ↦ none
  | some r ↦ if r.request_id == request_id then some r else none
]

abbrev pub exceeds : ℤ → Option ℤ → Bool
exceeds total none = false
exceeds total (some limit) = ltb_ℤ limit total

unfoldable pub reserve_rows :
    String
    → String
    → ℤ
    → Store
    → Option RequestRow
    → Option AttemptRow
    → Result BackendError (Bool × Store)
reserve_rows q a amount db (some r) (some row) =
    let outstanding = r.reserved_cost -ℤ row.reservation +ℤ amount in
    if exceeds (r.accrued_cost +ℤ outstanding) r.request.max_total_attempt_cost_usd
    then ok (false, db)
    else ok (
      true,
      record db {
        requests = update q (record r { reserved_cost = outstanding }) db.requests;
        attempts = update a (record row { reservation = amount }) db.attempts;
      },
    )
reserve_rows q a amount db _ _ = err (value_error "unknown inference request or attempt")

unfoldable pub reserve_cost : String → String → ℤ → Store → Result BackendError (Bool × Store)
unfolding attempt_of reserve_rows
reserve_cost request_id attempt_id amount db =
    if ltb_ℤ amount (pos 0)
    then err (value_error "cost reservation cannot be negative")
    else reserve_rows request_id attempt_id amount db (row_of request_id db.requests)
        (attempt_of attempt_id request_id db.attempts)
