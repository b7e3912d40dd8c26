-- ===== src/Finance/Stops.antt =====
-- finance/execution.py: emergency stops, and the guard that reads them before an order goes out.
mod Guard
mod Tests
use liki.Common.{
  is_given, ℕ, String, string_eq, ◌==◌, List, [], ◌∷◌, Option, none, some, is_some, Bool, true,
  false, not, ◌&&◌, ◌||◌, any, is_empty, select, contains, Comparable, nat_beq, nat_beq_iff,
  if◌then◌else◌, Result, ok, err, ◌>>=◌, ◌>>◌, raise_if, ◌≡◌, ◌↔◌, arith,
}
use liki.Finance.Orders.{OrderIntent}

pub data StopScope : Type 0 where
  strategy_stop : StopScope
  venue_stop : StopScope
  paper_global_stop : StopScope
  future_live_global_stop : StopScope

pub data StopAction : Type 0 where
  block_new : StopAction
  cancel_working : StopAction
  reconcile : StopAction
  reduce_flatten : StopAction

abbrev pub action_index : StopAction → ℕ
action_index block_new = 0
action_index cancel_working = 1
action_index reconcile = 2
action_index reduce_flatten = 3

abbrev pub action_beq : StopAction → StopAction → Bool
action_beq a b = nat_beq (action_index a) (action_index b)

pub action_beq_iff : (a b : StopAction) → (action_beq a b ≡ true) ↔ (a ≡ b)
action_beq_iff a b = ground arith

instance abbrev pub action_eq : Comparable StopAction
action_eq = record { same = action_beq; same_iff = action_beq_iff }

-- The set of actions is a list of them.
pub record EmergencyStop : Type 0 where
  pub stop_id : String
  pub scope : StopScope
  pub actions : List StopAction
  pub actor_id : String
  pub reason : String
  pub activated_at : ℕ
  pub policy_version : String
  pub strategy_id : Option String
  pub venue : Option String

pub data StopError : Type 0 where
  value_error : String → StopError
  blocked_by : String → StopError

abbrev pub is_strategy_scope : StopScope → Bool
is_strategy_scope strategy_stop = true
is_strategy_scope _ = false

abbrev pub is_venue_scope : StopScope → Bool
is_venue_scope venue_stop = true
is_venue_scope _ = false

abbrev pub is_global_scope : StopScope → Bool
is_global_scope paper_global_stop = true
is_global_scope future_live_global_stop = true
is_global_scope _ = false

abbrev pub is_paper_scope : StopScope → Bool
is_paper_scope paper_global_stop = true
is_paper_scope _ = false

abbrev pub is_future_scope : StopScope → Bool
is_future_scope future_live_global_stop = true
is_future_scope _ = false

-- The validators of a stop: its texts are not empty, then `scoped`.
unfoldable pub scoped : EmergencyStop → Result StopError EmergencyStop
scoped s = do
  raise_if (s.stop_id == "") (value_error "stop_id is empty")
  raise_if (s.actor_id == "") (value_error "actor_id is empty")
  raise_if (s.reason == "") (value_error "reason is empty")
  raise_if (s.policy_version == "") (value_error "policy_version is empty")
  raise_if (is_empty s.actions) (value_error "emergency stop needs at least one action")
  raise_if (is_strategy_scope s.scope && not (is_given s.strategy_id))
      (value_error "strategy stop needs strategy_id")
  raise_if (is_venue_scope s.scope && not (is_given s.venue)) (value_error "venue stop needs venue")
  raise_if (is_global_scope s.scope && (is_given s.strategy_id || is_given s.venue))
      (value_error "global stop cannot have strategy or venue scope")
  raise_if (contains s.actions reduce_flatten && not (contains s.actions reconcile))
      (value_error "reduce/flatten requires reconciliation")
  ok s

unfoldable pub emergency_stop : EmergencyStop → Result StopError EmergencyStop
unfolding scoped
emergency_stop s = do
  raise_if (is_future_scope s.scope)
      (value_error "future live stop is reserved; live execution is unavailable")
  scoped s

-- `stop.strategy_id == intent.strategy_id`, where the first may be None.
abbrev pub names : Option String → String → Bool
names none name = false
names (some s) name = s == name

unfoldable pub applies_to : EmergencyStop → OrderIntent → Bool
applies_to s i =
    is_paper_scope s.scope
    || is_strategy_scope s.scope && names s.strategy_id i.strategy_id
    || is_venue_scope s.scope && names s.venue i.venue

-- `if matching: raise`, with the first stop.
unfoldable pub refuse_by : List EmergencyStop → Result StopError (Unit {0})
refuse_by [] = ok tt
refuse_by (s ∷ _) = err (blocked_by s.stop_id)

unfoldable pub enforce_emergency_stops :
    OrderIntent → List EmergencyStop → Result StopError (Unit {0})
unfolding applies_to refuse_by
enforce_emergency_stops i stops =
    refuse_by (select (λ s. applies_to s i && contains s.actions block_new) stops)
