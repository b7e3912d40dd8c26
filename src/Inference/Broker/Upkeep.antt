-- ===== src/Inference/Broker/Upkeep.antt =====
-- inference/broker.py: the calls that a broker passes on to its store.
use liki.Common.{
  ℕ, String, string_eq, ◌==◌, map, Bool, not, contains, if◌then◌else◌, Result, ok, err,
}
use liki.Common.Int.{ℤ}
use liki.Inference.Records.{Store, BackendError, value_error}
use liki.Inference.Circuits.{Circuits, CircuitError}
use liki.Inference.Circuits
use liki.Inference.Broker.{InferenceBroker}
use liki.Inference.Backend.Marks

unfoldable pub revive : InferenceBroker → ℕ → String → String → Store → Bool × Store
unfolding Marks.revive
revive b now request_id reason db = Marks.revive now request_id reason db

unfoldable pub revive_route :
    InferenceBroker → String → String → Circuits → Result CircuitError (Bool × Circuits)
unfolding Circuits.revive_route
revive_route b route_id reason circuits =
    if not (contains (map (λ r. r.route_id) b.routes) route_id)
    then err (Circuits.value_error "unknown inference route")
    else Circuits.revive_route b.lib.strip route_id reason circuits

unfoldable pub reconcile_provider_cost :
    InferenceBroker
    → (ℤ → String)
    → ℕ
    → String
    → String
    → ℤ
    → Store
    → Result BackendError (Bool × Store)
unfolding Marks.reconcile_attempt_cost
reconcile_provider_cost b show now request_id attempt_id provider_cost db =
    Marks.reconcile_attempt_cost show now request_id attempt_id provider_cost db

unfoldable pub mark_decision_useful :
    InferenceBroker → ℕ → String → String → String → Store → Result BackendError (Bool × Store)
unfolding Marks.mark_decision_useful
mark_decision_useful b now request_id attempt_id reason db =
    if b.lib.strip reason == ""
    then err (value_error "a useful-decision reason is required")
    else ok (Marks.mark_decision_useful now request_id attempt_id reason db)
