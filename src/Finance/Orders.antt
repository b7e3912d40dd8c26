-- ===== src/Finance/Orders.antt =====
-- finance/execution.py: the intent of an order and its life at the venue.
-- Times are instants, counted in microseconds; the parser refuses those without a zone.
pub mod Graph
pub mod Life
pub mod Intent
mod Tests
use liki.Common.{
  ℕ, ◌+◌, String, string_eq, ◌==◌, List, [], ◌∷◌, Option, none, some, is_some, Bool, true, false,
  not, ◌&&◌, ◌||◌, any, leb, if◌then◌else◌, Result, ok, err, ◌>>=◌, ◌>>◌, raise_if, Comparable,
  nat_beq, nat_beq_iff, contains, ◌≡◌, ◌↔◌, arith,
}
use liki.Common.Int.{ℤ, pos, ◌+ℤ◌, ltb_ℤ, leb_ℤ, beq_ℤ}
use liki.Finance.Types.{ValueError, value_error, Side, OrderType, market, limit, TimeInForce}

pub data OrderState : Type 0 where
  intent : OrderState
  pretrade_validated : OrderState
  submitted : OrderState
  acknowledged : OrderState
  unknown_reconciling : OrderState
  partially_filled : OrderState
  amended : OrderState
  cancel_pending : OrderState
  filled : OrderState
  cancelled : OrderState
  rejected : OrderState
  expired : OrderState

-- The place of a state in the enumeration, by which states are compared.
abbrev pub state_index : OrderState → ℕ
state_index intent = 0
state_index pretrade_validated = 1
state_index submitted = 2
state_index acknowledged = 3
state_index unknown_reconciling = 4
state_index partially_filled = 5
state_index amended = 6
state_index cancel_pending = 7
state_index filled = 8
state_index cancelled = 9
state_index rejected = 10
state_index expired = 11

abbrev pub state_beq : OrderState → OrderState → Bool
state_beq a b = nat_beq (state_index a) (state_index b)

pub state_beq_iff : (a b : OrderState) → (state_beq a b ≡ true) ↔ (a ≡ b)
state_beq_iff a b = ground arith

instance abbrev pub state_eq : Comparable OrderState
state_eq = record { same = state_beq; same_iff = state_beq_iff }

-- `TERMINAL`
unfoldable pub terminal : List OrderState
terminal = filled ∷ cancelled ∷ rejected ∷ expired ∷ []

-- `TRANSITIONS.get(state, set())`
unfoldable pub transitions : OrderState → List OrderState
transitions intent = pretrade_validated ∷ rejected ∷ []
transitions pretrade_validated = submitted ∷ rejected ∷ []
transitions submitted = acknowledged ∷ unknown_reconciling ∷ rejected ∷ []
transitions unknown_reconciling =
    acknowledged ∷ partially_filled ∷ filled ∷ cancelled ∷ rejected ∷ expired ∷ []
transitions acknowledged =
    partially_filled ∷ filled ∷ cancel_pending ∷ cancelled ∷ expired ∷ unknown_reconciling ∷ []
transitions partially_filled =
    partially_filled ∷ filled ∷ amended ∷ cancel_pending ∷ cancelled ∷ expired ∷ []
transitions amended = acknowledged ∷ partially_filled ∷ filled ∷ cancelled ∷ rejected ∷ []
transitions cancel_pending = partially_filled ∷ filled ∷ cancelled ∷ unknown_reconciling ∷ []
transitions _ = []

pub record OrderIntent : Type 0 where
  pub client_order_id : String
  pub strategy_id : String
  pub venue : String
  pub instrument_id : String
  pub side : Side
  pub quantity : ℤ
  pub order_type : OrderType
  pub limit_price : Option ℤ
  pub information_cutoff_time : ℕ
  pub signal_ready_time : ℕ
  pub order_eligible_time : ℕ
  pub submission_time : ℕ
  pub reduce_only : Bool
  pub post_only : Bool
  pub time_in_force : TimeInForce

abbrev pub is_limit : OrderType → Bool
is_limit market = false
is_limit limit = true

-- The validators of an intent: two names that are not empty, then `causal_order`.
unfoldable pub causal_order : OrderIntent → Result ValueError OrderIntent
causal_order i = do
  raise_if (i.client_order_id == "") (value_error "client_order_id is empty")
  raise_if (i.strategy_id == "") (value_error "strategy_id is empty")
  raise_if (leb_ℤ i.quantity (pos 0)) (value_error "order quantity must be positive")
  raise_if
      (not (
        leb i.information_cutoff_time i.signal_ready_time
        && leb i.signal_ready_time i.order_eligible_time
        && leb i.order_eligible_time i.submission_time))
      (value_error "causality timestamps are out of order")
  raise_if (is_limit i.order_type && not (is_some i.limit_price))
      (value_error "limit order requires limit price")
  raise_if (not (is_limit i.order_type) && is_some i.limit_price)
      (value_error "market order cannot include limit price")
  ok i

pub record OrderRecord : Type 0 where
  pub order_intent : OrderIntent
  pub state : OrderState
  pub filled_quantity : ℤ
  pub raw_venue_status : Option String

-- `OrderRecord(intent)`
unfoldable pub new_order : OrderIntent → OrderRecord
new_order i = record {
  order_intent = i;
  state = intent;
  filled_quantity = pos 0;
  raw_venue_status = none;
}

-- `raw_venue_status or self.raw_venue_status`
unfoldable pub latest_status : Option String → Option String → Option String
latest_status none old = old
latest_status (some new) old = if new == "" then old else some new

unfoldable pub transition :
    OrderRecord → OrderState → Option String → ℤ → Result ValueError OrderRecord
unfolding transitions latest_status
transition o target raw fill = do
  raise_if (not (contains (transitions o.state) target)) (value_error "invalid order transition")
  raise_if (ltb_ℤ fill (pos 0) || ltb_ℤ o.order_intent.quantity (o.filled_quantity +ℤ fill))
      (value_error "invalid cumulative fill quantity")
  raise_if (target == filled && not (beq_ℤ (o.filled_quantity +ℤ fill) o.order_intent.quantity))
      (value_error "FILLED requires complete quantity")
  raise_if
      (target == partially_filled
        && not (
            ltb_ℤ (pos 0) (o.filled_quantity +ℤ fill)
            && ltb_ℤ (o.filled_quantity +ℤ fill) o.order_intent.quantity))
      (value_error "PARTIALLY_FILLED requires partial quantity")
  ok (record o {
    state = target;
    filled_quantity = o.filled_quantity +ℤ fill;
    raw_venue_status = latest_status raw o.raw_venue_status;
  })
