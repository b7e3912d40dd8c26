-- ===== src/Inference/Broker/Settled.antt =====
-- How a run ends: in an accepted result or in hibernation, after a bounded number of attempts.
use liki.Common.{ℕ, ◌+◌, String, string_eq, List, [], ◌∷◌, none, contains, Result, ok, err}
use liki.Common.Int.{pos, pos_part, ◌+ℤ◌}
use liki.Inference.Pricing.{Usage}
use liki.Inference.Records.{InferenceRequest, ContextManifest, InferenceResult, Store, BackendError}
use liki.Inference.Routing.{ProviderRoute, CompiledContext}
use liki.Inference.Backend.Admit.{create_or_get}
use liki.Inference.Broker.{World, InferenceBroker, hibernating}
use liki.Common.{◌≡◌, refl, arith, inl, inr, ◌≤◌, Bool-cases, Ensures, Ensures-bind}
use liki.Inference.Backend.Calls.{IsStore}
use liki.Common.{==_refl, ◌*◌, length}
use liki.Inference.Broker.Made.{hibernate-IsStore, creates-Ensures}
use liki.Inference.Broker.Rounds.{
  Round, returned, next_route, put_to_sleep, try_route, try_routes, eligible, after_round, start,
  on_admitted, lifted, run, is_blocking,
}
use liki.Inference.Backend.Admit.{by_key}
use liki.Inference.Broker.Ends.{Ends, EndsRun, try_route-Ends}

-- The rounds of each route that a policy asks for.
abbrev pub rounds_of : InferenceBroker → ℕ
rounds_of b = pos_part (b.retry_policy.same_route_retries +ℤ pos 1)

EndsRun-le :
    (m n : ℕ) (r : Result BackendError (InferenceResult × World))
    → m ≤ n
    → Ensures (EndsRun m) r
    → Ensures (EndsRun n) r
EndsRun-le m n (ok (res, d)) le h = (h.0, omega (arith, h.1), h.2)
EndsRun-le m n (err e) le h = tt

after_round-EndsRun :
    (m n : ℕ) (next : World → Result BackendError (InferenceResult × World)) (round : Round)
    → m ≤ n
    → ((d : World) → d.made ≤ m → IsStore d.store → Ensures (EndsRun n) (next d))
    → Ends m round
    → Ensures (EndsRun n) (after_round next round)
unfolding after_round
after_round-EndsRun m n next (returned res d) le f h = (h.0, omega (arith, h.1), h.2)
after_round-EndsRun m n next (next_route d) le f h = f d h.0 h.1

try_routes-EndsRun :
    (b : InferenceBroker) (request : InferenceRequest) (u : Usage) (used : List String)
    (routes : List ProviderRoute) (w : World)
    → IsStore w.store
    → Ensures
        (EndsRun (w.made + rounds_of b * length routes))
        (try_routes b request u used routes w)
unfolding try_routes put_to_sleep hibernating
try_routes-EndsRun b request u used [] w k = (
  inr refl,
  omega arith,
  hibernate-IsStore (b.turns w.made).noted_at request.inference_request_id
      "all_independent_routes_failed" w.store k,
)
try_routes-EndsRun b request u used (r ∷ rs) w k =
    let n = w.made + rounds_of b * length (r ∷ rs) in
    let domain = r.upstream_correlation_domain in
    elim (Bool-cases (contains used domain)) [
      | inl known ↦ rw known (
          EndsRun-le (w.made + rounds_of b * length rs) n _ (omega arith)
            (try_routes-EndsRun b request u used rs w k))
      | inr new ↦ rw new (
          Ensures-bind (Ends (w.made + rounds_of b)) (EndsRun n)
            (try_route b request u r (rounds_of b) w) _
            (try_route-Ends b request u r (rounds_of b) w k)
            (λ round.
              after_round-EndsRun (w.made + rounds_of b) n
                (try_routes b request u (domain ∷ used) rs) round (omega arith)
                (λ d le h.
                  EndsRun-le (d.made + rounds_of b * length rs) n _ (omega (arith, le))
                    (try_routes-EndsRun b request u (domain ∷ used) rs d h))))
    ]

start-EndsRun :
    (b : InferenceBroker) (request : InferenceRequest) (u : Usage) (routes : List ProviderRoute)
    (w : World)
    → IsStore w.store
    → Ensures (EndsRun (w.made + rounds_of b * length routes)) (start b request u routes w)
unfolding start put_to_sleep hibernating
start-EndsRun b request u [] w k = (
  inr refl,
  omega arith,
  hibernate-IsStore (b.turns w.made).noted_at request.inference_request_id "no_eligible_route"
      w.store k,
)
start-EndsRun b request u (r ∷ rs) w k = try_routes-EndsRun b request u [] (r ∷ rs) w k

-- A request under a new key is taken as it is.
new_request :
    (now : ℕ) (request given : InferenceRequest) (manifest : ContextManifest) (db d : Store)
    → by_key request.idempotency_key db.requests ≡ none
    → create_or_get now request manifest db ≡ ok (given, d)
    → given ≡ request
unfolding create_or_get
new_request now request given manifest db d h e = ground arith

on_admitted-EndsRun :
    (b : InferenceBroker) (request given : InferenceRequest) (context : CompiledContext) (u : Usage)
    (w : World) (d : Store)
    → given ≡ request
    → IsStore d
    → Ensures
        (EndsRun (w.made + rounds_of b * length (eligible b request context u w)))
        (on_admitted b request context u w (ok (given, d)))
unfolding on_admitted
on_admitted-EndsRun b request given context u w d e k =
    rw (e, ==_refl request.inference_request_id)
      (start-EndsRun b request u (eligible b request context u w) (record w { store = d }) k)

lifted-Ensures {ℓ} :
    (P : InferenceResult × World → Type ℓ) (r : Result BackendError (InferenceResult × World))
    → Ensures P r
    → Ensures P (lifted r)
lifted-Ensures P (ok a) h = h
lifted-Ensures P (err e) h = tt

admitted-EndsRun :
    (b : InferenceBroker) (request : InferenceRequest) (context : CompiledContext) (u : Usage)
    (w : World) (r : Result BackendError (InferenceRequest × Store))
    → Ensures (λ p. IsStore p.1) r
    → ((given : InferenceRequest) (d : Store) → r ≡ ok (given, d) → given ≡ request)
    → Ensures
        (EndsRun (w.made + rounds_of b * length (eligible b request context u w)))
        (lifted (on_admitted b request context u w r))
unfolding on_admitted
admitted-EndsRun b request context u w (err e) s same = tt
admitted-EndsRun b request context u w (ok (given, d)) s same =
    lifted-Ensures (EndsRun (w.made + rounds_of b * length (eligible b request context u w)))
      (on_admitted b request context u w (ok (given, d)))
      (on_admitted-EndsRun b request given context u w d (same given d refl) s)

-- A request under a new key either raises or ends in a result that is accepted or HIBERNATED, after
-- at most one attempt and the retries at each eligible route, and the tables are in order, whatever
-- the adapters and the clock do.
pub run-EndsRun :
    (b : InferenceBroker) (now : ℕ) (request : InferenceRequest) (context : CompiledContext)
    (u : Usage) (w : World)
    → IsStore w.store
    → by_key request.idempotency_key w.store.requests ≡ none
    → Ensures
        (EndsRun (w.made + rounds_of b * length (eligible b request context u w)))
        (run b now request context u w)
unfolding run
run-EndsRun b now request context u w k h =
    elim (Bool-cases (is_blocking context.completeness_status)) [
      | inl blocking ↦ rw blocking tt
      | inr allowed ↦ rw allowed (
          admitted-EndsRun b request context u w
            (create_or_get now request context.manifest w.store)
            (creates-Ensures now request context.manifest w.store k)
            (λ given d e. new_request now request given context.manifest w.store d h e))
    ]
