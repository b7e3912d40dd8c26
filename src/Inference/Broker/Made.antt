-- ===== src/Inference/Broker/Made.antt =====
-- Each attempt counts one, and no other step does.
use liki.Common.{ℕ, suc, String, string_eq, List, Bool, true, false, Result, ok, err}
use liki.Common.Int.{ℤ}
use liki.Inference.Pricing.{Usage, semantic_accepted}
use liki.Inference.Records.{
  InferenceRequest, ContextManifest, InferenceAttempt, InferenceResult, Store, BackendError,
  concurrent_modification,
}
use liki.Inference.Routing.{ProviderRoute, conservative_cost}
use liki.Inference.Reply.{validate_response}
use liki.Inference.Backend.Admit.{create_or_get}
use liki.Inference.Backend.Claim.{claim_attempt, reserve_cost}
use liki.Inference.Backend.Finish.{finish_attempt}
use liki.Inference.Backend.Marks.{append_event, hibernate}
use liki.Inference.Broker.{
  Reply, answered, timed_out, transport_error, defect, Turn, World, InferenceBroker, late_result,
  finish_transport_failure,
}
use liki.Common.{◌≡◌, refl, inl, inr, Bool-cases, Ensures, Ensures-bind}
use liki.Inference.Records.{kept, value_error, idempotency_conflict, integrity_error, type_error}
use liki.Inference.Backend.Calls.{
  IsStore, after, after-IsStore, finishes, claims, reserves, hibernates, creates,
}
use liki.Inference.Broker.Attempt.{
  answered_attempt, completed_outcome, receive, invoke, deny, denied_attempt, denied_result,
  resolved, on_reserved, on_claim, lease_of, attempt,
}
use liki.Inference.Broker.{failed_result}

-- A step that leaves the tables in order, and the count of attempts at a number.
abbrev pub Keeps : ℕ → InferenceResult × World → Type 0
Keeps n (res, d) = (d.made ≡ n) × IsStore d.store

abbrev blank : ℤ → String
blank n = ""

kept-Ensures {ℓ} :
    {A : Type ℓ} (db : Store) (r : Result BackendError (A × Store))
    → IsStore (kept db r)
    → Ensures (λ p. IsStore p.1) r
kept-Ensures db (ok p) k = k
kept-Ensures db (err e) k = tt

finish_attempt-IsStore :
    (now logged_at : ℕ) (a : InferenceAttempt) (db : Store)
    → IsStore db
    → Ensures (λ p. IsStore p.1) (finish_attempt now logged_at a db)
unfolding after
finish_attempt-IsStore now logged_at a db k =
    kept-Ensures db (finish_attempt now logged_at a db)
      (after-IsStore blank (finishes now logged_at a) db k)

append_event-IsStore :
    (now : ℕ) (q event_type : String) (payload : List (String × String)) (db : Store)
    → IsStore db
    → IsStore (append_event now q event_type payload db)
unfolding append_event
append_event-IsStore now q event_type payload db k = record {
  request_keys = k.request_keys;
  attempt_keys = k.attempt_keys;
  numbered = k.numbered;
}

pub hibernate-IsStore :
    (now : ℕ) (q reason : String) (db : Store) → IsStore db → IsStore (hibernate now q reason db)
unfolding after
hibernate-IsStore now q reason db k = after-IsStore blank (hibernates now q reason) db k

finish_transport_failure-Keeps :
    (b : InferenceBroker) (route : ProviderRoute) (t : Turn) (a : InferenceAttempt)
    (reservation : ℤ) (error_class : String) (retryable : Bool) (w : World)
    → IsStore w.store
    → Ensures
        (Keeps w.made)
        (finish_transport_failure b route t a reservation error_class retryable w)
unfolding finish_transport_failure late_result failed_result
finish_transport_failure-Keeps b route t a reservation error_class retryable w k =
    Ensures-bind (λ p. IsStore p.1) (Keeps w.made)
      (finish_attempt t.checked_at t.logged_at _ w.store) _
      (finish_attempt-IsStore t.checked_at t.logged_at _ w.store k)
      (λ p h. elim (Bool-cases p.0) [
        | inl accepted ↦ rw accepted (refl, append_event-IsStore t.noted_at _ _ _ p.1 h)
        | inr late ↦ rw late (refl, append_event-IsStore t.noted_at _ _ _ p.1 h)
      ])

receive-Keeps :
    (b : InferenceBroker) (route : ProviderRoute) (t : Turn) (a : InferenceAttempt)
    (reservation : ℤ) (w : World) (r : Result BackendError (Bool × Store))
    → IsStore w.store
    → Ensures (λ p. IsStore p.1) r
    → Ensures (Keeps w.made) (receive b route t a reservation w r)
unfolding receive late_result completed_outcome
receive-Keeps b route t a reservation w (err e) k h =
    finish_transport_failure-Keeps b route t a reservation "adapter_or_validator_failure" false w k
receive-Keeps b route t a reservation w (ok (true, d)) k h =
    (refl, append_event-IsStore t.noted_at _ _ _ d h)
receive-Keeps b route t a reservation w (ok (false, d)) k h =
    (refl, append_event-IsStore t.noted_at _ _ _ d h)

invoke-Keeps :
    (b : InferenceBroker) (request : InferenceRequest) (route : ProviderRoute) (t : Turn)
    (a : InferenceAttempt) (reservation : ℤ) (w : World) (reply : Reply)
    → IsStore w.store
    → Ensures (Keeps w.made) (invoke b request route t a reservation w reply)
unfolding invoke
invoke-Keeps b request route t a reservation w (answered r) k =
    receive-Keeps b route t
      (answered_attempt route t a r.usage reservation
        (validate_response b.lib request r b.semantic_validator))
      reservation w _ k (finish_attempt-IsStore t.checked_at t.logged_at _ w.store k)
invoke-Keeps b request route t a reservation w timed_out k =
    finish_transport_failure-Keeps b route t a reservation "caller_timeout" true w k
invoke-Keeps b request route t a reservation w (transport_error error_class retryable) k =
    finish_transport_failure-Keeps b route t a reservation error_class retryable w k
invoke-Keeps b request route t a reservation w defect k =
    finish_transport_failure-Keeps b route t a reservation "adapter_or_validator_failure" false w k

on_reserved-Keeps :
    (b : InferenceBroker) (request : InferenceRequest) (route : ProviderRoute) (t : Turn)
    (a : InferenceAttempt) (reservation : ℤ) (w : World) (p : Bool × Store)
    → IsStore p.1
    → Ensures (Keeps w.made) (on_reserved b request route t a reservation w p)
unfolding on_reserved deny denied_result
on_reserved-Keeps b request route t a reservation w (true, d) h =
    invoke-Keeps b request route t a reservation (record w { store = d }) (t.reply route) h
on_reserved-Keeps b request route t a reservation w (false, d) h =
    Ensures-bind (λ p. IsStore p.1) (Keeps w.made)
      (finish_attempt t.checked_at t.logged_at (denied_attempt t a) d)
      (λ p. ok (denied_result route t a p.1 (record w { store = d })))
      (finish_attempt-IsStore t.checked_at t.logged_at (denied_attempt t a) d h)
      (λ p k. (refl, append_event-IsStore t.noted_at _ _ _ p.1 k))

on_claim-Keeps :
    (b : InferenceBroker) (request : InferenceRequest) (route : ProviderRoute) (t : Turn)
    (reservation : ℤ) (w : World) (r : Result BackendError (InferenceAttempt × Store))
    → IsStore w.store
    → Ensures (λ p. IsStore p.1) r
    → Ensures (Keeps w.made) (on_claim b request route t reservation w r)
unfolding on_claim after resolved
on_claim-Keeps b request route t reservation w (err concurrent_modification) k h = (refl, k)
on_claim-Keeps b request route t reservation w (err (value_error m)) k h = tt
on_claim-Keeps b request route t reservation w (err idempotency_conflict) k h = tt
on_claim-Keeps b request route t reservation w (err integrity_error) k h = tt
on_claim-Keeps b request route t reservation w (err type_error) k h = tt
on_claim-Keeps b request route t reservation w (ok (a, d)) k h =
    let q = request.inference_request_id in
    Ensures-bind (λ p. IsStore p.1) (Keeps w.made)
      (reserve_cost q a.inference_attempt_id reservation d) _
      (kept-Ensures d (reserve_cost q a.inference_attempt_id reservation d)
        (after-IsStore blank (reserves q a.inference_attempt_id reservation) d h))
      (λ p k.
        on_reserved-Keeps b request route t (resolved route a) reservation (record w { store = d })
          p k)

-- An attempt counts one, and leaves the tables in order, whatever the adapter does.
pub attempt-Keeps :
    (b : InferenceBroker) (request : InferenceRequest) (u : Usage) (route : ProviderRoute)
    (w : World)
    → IsStore w.store
    → Ensures (Keeps (suc w.made)) (attempt b request u route w)
unfolding attempt after
attempt-Keeps b request u route w k =
    let t = b.turns w.made in
    let q = request.inference_request_id in
    let claim =
      claim_attempt t.attempt_id t.claimed_at q route.route_id (lease_of request route) w.store in
    on_claim-Keeps b request route t (conservative_cost route u semantic_accepted)
      (record w { made = suc w.made }) claim k
      (kept-Ensures w.store claim (
        after-IsStore blank
          (claims t.attempt_id t.claimed_at q route.route_id (lease_of request route)) w.store k))

pub creates-Ensures :
    (now : ℕ) (request : InferenceRequest) (manifest : ContextManifest) (db : Store)
    → IsStore db
    → Ensures (λ p. IsStore p.1) (create_or_get now request manifest db)
unfolding after
creates-Ensures now request manifest db k =
    kept-Ensures db (create_or_get now request manifest db)
      (after-IsStore blank (creates now request manifest) db k)
