-- ===== src/Inference/Broker/Ends.antt =====
-- How the attempts at one route end.
use liki.Common.{ℕ, zero, suc, ◌+◌, string_eq, true, Result}
use liki.Inference.Pricing.{
  AttemptStatus, Usage, created, transport_success, schema_success, semantic_accepted,
  decision_useful, retryable_failure, nonretryable_failure, hibernated,
}
use liki.Inference.Records.{InferenceRequest, InferenceResult, BackendError}
use liki.Inference.Routing.{ProviderRoute}
use liki.Inference.Backend.Finish.{is_accepted}
use liki.Inference.Broker.{World, InferenceBroker}
use liki.Common.{◌≡◌, refl, arith, inl, inr, ◌≤◌, Bool-cases, Ensures, Ensures-bind}
use liki.Inference.Backend.Calls.{IsStore}
use liki.Inference.Broker.Attempt.{attempt}
use liki.Common.{◌⊎◌}
use liki.Inference.Broker.Rounds.{is_retryable}
use liki.Inference.Broker.Made.{Keeps, attempt-Keeps, hibernate-IsStore}
use liki.Inference.Broker.Rounds.{
  Round, returned, next_route, put_to_sleep, judge_round, try_route, is_hibernating,
}

-- A result that the caller may act on: it is accepted, or the request waits.
abbrev pub IsSettled : InferenceResult → Type 0
IsSettled res = (is_accepted res.status ≡ true) ⊎ (res.status ≡ hibernated)

-- Rounds of attempts that end by a count, with a settled result if there is one.
abbrev pub Ends : ℕ → Round → Type 0
Ends n (returned res d) = IsSettled res × (d.made ≤ n) × IsStore d.store
Ends n (next_route d) = (d.made ≤ n) × IsStore d.store

abbrev pub EndsRun : ℕ → InferenceResult × World → Type 0
EndsRun n (res, d) = IsSettled res × (d.made ≤ n) × IsStore d.store

hibernating_status : (s : AttemptStatus) → is_hibernating s ≡ true → s ≡ hibernated
hibernating_status hibernated h = refl
hibernating_status created h = absurd (ground arith)
hibernating_status transport_success h = absurd (ground arith)
hibernating_status schema_success h = absurd (ground arith)
hibernating_status semantic_accepted h = absurd (ground arith)
hibernating_status decision_useful h = absurd (ground arith)
hibernating_status retryable_failure h = absurd (ground arith)
hibernating_status nonretryable_failure h = absurd (ground arith)

judge_round-Ends :
    (b : InferenceBroker) (request : InferenceRequest) (res : InferenceResult) (d : World)
    (more : Result BackendError Round) (n : ℕ)
    → d.made ≤ n
    → IsStore d.store
    → Ensures (Ends n) more
    → Ensures (Ends n) (judge_round b request res d more)
unfolding judge_round put_to_sleep
judge_round-Ends b request res d more n le k h = elim (Bool-cases (is_accepted res.status)) [
  | inl accepted ↦ rw accepted (inl accepted, le, k)
  | inr not_accepted ↦ rw not_accepted (elim (Bool-cases (is_hibernating res.status)) [
    | inl asleep ↦ rw asleep (
      inr (hibernating_status res.status asleep),
      le,
      hibernate-IsStore (b.turns d.made).noted_at request.inference_request_id _ d.store k,
    )
    | inr awake ↦ rw awake (elim (Bool-cases (is_retryable res.status)) [
      | inl again ↦ rw again h
      | inr failed ↦ rw failed (le, k)
    ])
  ])
]

pub try_route-Ends :
    (b : InferenceBroker) (request : InferenceRequest) (u : Usage) (route : ProviderRoute)
    (rounds : ℕ) (w : World)
    → IsStore w.store
    → Ensures (Ends (w.made + rounds)) (try_route b request u route rounds w)
unfolding try_route
try_route-Ends b request u route zero w k = (omega arith, k)
try_route-Ends b request u route (suc rounds) w k =
    Ensures-bind (Keeps (suc w.made)) (Ends (w.made + suc rounds)) (attempt b request u route w)
      (λ p. judge_round b request p.0 p.1 (try_route b request u route rounds p.1))
      (attempt-Keeps b request u route w k)
      (λ p h.
        judge_round-Ends b request p.0 p.1 (try_route b request u route rounds p.1)
          (w.made + suc rounds) (omega (arith, h.0)) h.1
          (let e : w.made + suc rounds ≡ p.1.made + rounds = omega (arith, h.0) in
            rw e (try_route-Ends b request u route rounds p.1 h.1)))
