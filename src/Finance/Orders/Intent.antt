-- ===== src/Finance/Orders/Intent.antt =====
-- What `causal_order` makes sure of.
use liki.Common.{◌≤◌, string_eq, ◌==◌, is_some, false, ◌≡◌, ◌↔◌, ok, arith}
use liki.Common.Int.{pos, ◌<ℤ◌}
use liki.Finance.Orders.{OrderIntent, is_limit, causal_order}

-- What is known comes before the signal, this before the order may go, and this before it is sent.
pub record IsCausal (i : OrderIntent) : Type 0 where
  pub known_first : i.information_cutoff_time ≤ i.signal_ready_time
  pub then_signalled : i.signal_ready_time ≤ i.order_eligible_time
  pub then_sent : i.order_eligible_time ≤ i.submission_time
  pub positive : pos 0 <ℤ i.quantity
  pub priced : is_some i.limit_price ≡ is_limit i.order_type
  pub has_id : (i.client_order_id == "") ≡ false
  pub has_strategy : (i.strategy_id == "") ≡ false

-- An intent is accepted exactly when its times are in causal order, its quantity is positive, it has
-- a limit price exactly if it is a limit order, and its two names are not empty; it is not changed.
pub causal_order_iff : (i j : OrderIntent) → (causal_order i ≡ ok j) ↔ (IsCausal i × (i ≡ j))
unfolding causal_order
causal_order_iff i j = (
  λ h. (
    record {
      known_first = ground arith;
      then_signalled = ground arith;
      then_sent = ground arith;
      positive = ground arith;
      priced = ground arith;
      has_id = ground arith;
      has_strategy = ground arith;
    },
    ground arith,
  ),
  λ h. ground (
    arith, h.0.known_first, h.0.then_signalled, h.0.then_sent, h.0.positive, h.0.priced, h.0.has_id,
    h.0.has_strategy, h.1,
  ),
)
