-- ===== src/Inference/Backend/Tests.antt =====
-- One request with a limit of 100, tried twice on a route: the first attempt is overtaken by the
-- second, which reserves 60, costs 45 and is accepted.
use liki.Common.{
  ◌≢◌, err, suc, ◌<◌, String, string_eq, List, [], ◌∷◌, some, none, true, false, ◌≡◌, ◌⊎◌, refl, ok,
  arith,
}
use liki.Common.Int.{ℤ, pos, ◌+ℤ◌, ◌-ℤ◌, ◌≤ℤ◌}
use liki.Common.Table.{row_of}
use liki.Common.Json.{null}
use liki.Inference.Pricing.{created, semantic_accepted, nonretryable_failure}
use liki.Inference.Records.{
  InferenceRequest, ContextManifest, InferenceAttempt, InferenceResult, attempting, settled,
  RequestRow, AttemptRow, Store, empty_store, idempotency_conflict,
}
use liki.Inference.Backend.Admit.{by_key, new_row, create_or_get, completed_result}
use liki.Inference.Backend.Claim.{
  attempt_count, max_fence, has_number, new_attempt, inserted, claim_attempt, attempt_of,
  reserve_rows, reserve_cost,
}
use liki.Inference.Backend.Finish.{
  is_accepted, is_created, is_stale, deduplicated, settle, finish_late, complete, finish_rows,
  finish_attempt,
}
use liki.Inference.Backend.Calls.{
  Call, creates, claims, reserves, finishes, Reached, at_start, called, after, IsStore,
  Reached-IsStore,
}
use liki.Inference.Backend.Lasting.{at_once, then_call}
use liki.Inference.Backend.Fences.{claim_attempt_fences}
use liki.Inference.Backend.Completion.{winner, after-winner, finish_overwrites}
use liki.Inference.Backend.Ledger.{is_orderly, Orderly, at_first, then_called, Orderly-IsBalanced}
use liki.Inference.Backend.Costs.{IsBalanced}
use liki.Inference.Backend.Budget.{IsTaken, create_or_get_again, reserve_cost_limit}

abbrev request : InferenceRequest
request = record {
  inference_request_id = "q";
  semantic_task_id = "task";
  task_class = "review";
  expected_artifact_schema = null;
  preferred_reasoning_effort = "standard";
  idempotency_key = "0123456789abcdef";
  allowed_provider_classes = [];
  max_call_cost_usd = none;
  max_total_attempt_cost_usd = some (pos 100);
  max_latency_sec = none;
  min_semantic_acceptance = pos 0;
  min_reliability = pos 0;
  routing_benchmark_id = none;
  requires_tools = false;
}

abbrev manifest : ContextManifest
manifest = record { context_manifest_id = "m"; manifest_hash = "sha256:1" }

abbrev blank : ℤ → String
blank n = "0"

-- The tables after the calls, the last one first.
abbrev tables : List Call → Store
unfolding after empty_store
tables [] = empty_store
tables (c ∷ cs) = after blank c (tables cs)

abbrev claimed : List Call
claimed = claims "a1" 1 "q" "route" 100 ∷ creates 0 request manifest ∷ []

abbrev overtaken : List Call
overtaken = claims "a2" 2 "q" "route" 100 ∷ claimed

claimed-Reached : Reached blank (tables claimed)
unfolding after tables
claimed-Reached =
    called (claims "a1" 1 "q" "route" 100) (called (creates 0 request manifest) at_start)

abbrev old : InferenceAttempt
old = record {
  inference_attempt_id = "a1";
  inference_request_id = "q";
  attempt_no = 1;
  provider_route_id = "route";
  lease_fence = 1;
  model_family = "pending_route_resolution";
  reasoning_effort = "standard";
  prompt_manifest_hash = "sha256:1";
  completed_at = none;
  status = created;
  error_class = none;
  provider_reported_cost_usd = none;
  total_cost_usd = pos 0;
  output_artifact = none;
}

abbrev new : InferenceAttempt
new = record old { inference_attempt_id = "a2"; attempt_no = 2; lease_fence = 2 }

abbrev accepted : InferenceAttempt
accepted = record new { status = semantic_accepted; total_cost_usd = pos 45 }

abbrev failed : InferenceAttempt
failed = record accepted { status = nonretryable_failure }

abbrev old_row : AttemptRow
old_row = record {
  request_id = "q";
  attempt_no = 1;
  route_id = "route";
  fence = 1;
  lease_until = 101;
  reservation = pos 0;
  attempt = old;
}

abbrev accepted_row : AttemptRow
accepted_row = record {
  request_id = "q";
  attempt_no = 2;
  route_id = "route";
  fence = 2;
  lease_until = 102;
  reservation = pos 60;
  attempt = accepted;
}

abbrev open_request : RequestRow
open_request = record {
  request = request;
  manifest = manifest;
  status = attempting;
  reserved_cost = pos 0;
  accrued_cost = pos 0;
  completed_attempt_id = none;
  failure_reason = none;
}

abbrev completed_request : RequestRow
completed_request = record open_request {
  status = settled semantic_accepted;
  accrued_cost = pos 45;
  completed_attempt_id = some "a2";
}

abbrev completed : List Call
completed = finishes 10 11 accepted ∷ reserves "q" "a2" (pos 60) ∷ overtaken

Reached-IsStore_example : IsStore (tables claimed)
Reached-IsStore_example = Reached-IsStore blank (tables claimed) claimed-Reached

claim_attempt_fences_example :
    (2 ≡ suc (attempt_count "q" (tables claimed).attempts))
    × (1 < 2)
    × (x : Store) × (finish_attempt 12 13 (record old { lease_fence = 2 }) (tables completed)
        ≡ ok (false, x))
unfolding after empty_store create_or_get by_key new_row claim_attempt attempt_count max_fence
    has_number new_attempt inserted reserve_cost reserve_rows attempt_of finish_attempt finish_rows
    is_stale is_accepted is_created complete settle finish_late deduplicated ◌+ℤ◌ ◌-ℤ◌
claim_attempt_fences_example =
    claim_attempt_fences blank "a2" 2 "q" "route" 100 (tables claimed) (tables overtaken)
      (tables completed) new (record old { lease_fence = 2 }) old_row 12 13 claimed-Reached refl
      refl refl refl
      (then_call (finishes 10 11 accepted) (then_call (reserves "q" "a2" (pos 60)) at_once))

completed-winner : winner (row_of "q" (tables completed).requests) ≡ some "a2"
unfolding after empty_store create_or_get by_key new_row claim_attempt attempt_count max_fence
    has_number new_attempt inserted reserve_cost reserve_rows attempt_of finish_attempt finish_rows
    is_stale is_accepted is_created complete settle finish_late deduplicated ◌+ℤ◌ ◌-ℤ◌
completed-winner = refl

after-winner_example :
    winner (row_of "q" (after blank (finishes 12 13 failed) (tables completed)).requests)
    ≡ some "a2"
after-winner_example =
    after-winner blank "q" "a2" (finishes 12 13 failed) (tables completed) completed-winner refl

finish_overwrites_example :
    (d : Store) × (res : InferenceResult) × (finish_attempt 12 13 failed (tables completed)
      ≡ ok (true, d))
    × (completed_result "q" d ≡ some res)
    × (res.status ≡ nonretryable_failure)
unfolding after empty_store create_or_get by_key new_row claim_attempt attempt_count max_fence
    has_number new_attempt inserted reserve_cost reserve_rows attempt_of finish_attempt finish_rows
    is_stale is_accepted is_created complete settle finish_late deduplicated ◌+ℤ◌ ◌-ℤ◌
finish_overwrites_example =
    finish_overwrites 12 13 failed (tables completed) completed_request accepted_row refl refl refl
      refl refl (omega arith) refl

completed-Orderly : Orderly blank (tables completed)
unfolding is_orderly tables after empty_store create_or_get by_key new_row claim_attempt
    attempt_count max_fence has_number new_attempt inserted reserve_cost reserve_rows attempt_of
    finish_attempt finish_rows is_stale is_accepted is_created complete settle finish_late
    deduplicated ◌+ℤ◌ ◌-ℤ◌
completed-Orderly =
    then_called (finishes 10 11 accepted)
      (then_called (reserves "q" "a2" (pos 60))
        (then_called (claims "a2" 2 "q" "route" 100)
          (then_called (claims "a1" 1 "q" "route" 100)
            (then_called (creates 0 request manifest) at_first refl) refl)
          refl)
        refl)
      refl

Orderly-IsBalanced_example : IsBalanced (tables completed)
Orderly-IsBalanced_example = Orderly-IsBalanced blank completed-Orderly

create_or_get_again_example :
    IsTaken request request manifest (tables (creates 0 request manifest ∷ []))
    × (create_or_get 9 request manifest (tables (creates 0 request manifest ∷ []))
        ≡ ok (request, tables (creates 0 request manifest ∷ [])))
    × ((other : InferenceRequest) (context : ContextManifest)
        → other.idempotency_key ≡ request.idempotency_key
        → (other.semantic_task_id ≢ request.semantic_task_id)
          ⊎ (context.manifest_hash ≢ manifest.manifest_hash)
        → create_or_get 9 other context (tables (creates 0 request manifest ∷ []))
          ≡ err idempotency_conflict)
unfolding after empty_store create_or_get by_key new_row claim_attempt attempt_count max_fence
    has_number new_attempt inserted reserve_cost reserve_rows attempt_of finish_attempt finish_rows
    is_stale is_accepted is_created complete settle finish_late deduplicated ◌+ℤ◌ ◌-ℤ◌
create_or_get_again_example =
    create_or_get_again 0 9 request request manifest empty_store
      (tables (creates 0 request manifest ∷ [])) refl

reserve_cost_limit_example :
    ((true ≡ false) × (tables (reserves "q" "a2" (pos 60) ∷ overtaken) ≡ tables overtaken))
    ⊎ ((p : RequestRow) × (row_of "q" (tables (reserves "q" "a2" (pos 60) ∷ overtaken)).requests
          ≡ some p)
        × (p.accrued_cost +ℤ p.reserved_cost ≤ℤ pos 100))
unfolding after empty_store create_or_get by_key new_row claim_attempt attempt_count max_fence
    has_number new_attempt inserted reserve_cost reserve_rows attempt_of finish_attempt finish_rows
    is_stale is_accepted is_created complete settle finish_late deduplicated ◌+ℤ◌ ◌-ℤ◌
reserve_cost_limit_example =
    reserve_cost_limit "q" "a2" (pos 60) (pos 100) true (tables overtaken)
      (tables (reserves "q" "a2" (pos 60) ∷ overtaken)) open_request refl refl refl
