-- ===== src/Finance/Stops/Tests.antt =====
-- A stop of one strategy, and an order of it.
use liki.Common.{Among, [], ◌∷◌, some, none, false, ◌≡◌, ◌↔◌, refl, ok, err}
use liki.Common.Int.{pos}
use liki.Finance.Types.{buy, limit, gtc}
use liki.Finance.Orders.{OrderIntent}
use liki.Finance.Stops.{
  EmergencyStop, strategy_stop, block_new, blocked_by, applies_to, refuse_by,
  enforce_emergency_stops,
}
use liki.Finance.Stops.Guard.{Blocks, enforce_emergency_stops_iff}

abbrev order : OrderIntent
order = record {
  client_order_id = "o-1";
  strategy_id = "trend";
  venue = "binance";
  instrument_id = "BTCUSDT";
  side = buy;
  quantity = pos 10;
  order_type = limit;
  limit_price = some (pos 500);
  information_cutoff_time = 1;
  signal_ready_time = 2;
  order_eligible_time = 3;
  submission_time = 4;
  reduce_only = false;
  post_only = false;
  time_in_force = gtc;
}

abbrev stop : EmergencyStop
stop = record {
  stop_id = "s-1";
  scope = strategy_stop;
  actions = block_new ∷ [];
  actor_id = "ann";
  reason = "drift";
  activated_at = 5;
  policy_version = "1";
  strategy_id = some "trend";
  venue = none;
}

enforce_emergency_stops_iff_example :
    (enforce_emergency_stops order (stop ∷ []) ≡ ok tt) ↔ (Among (Blocks order) (stop ∷ []) → ⊥)
enforce_emergency_stops_iff_example = enforce_emergency_stops_iff order (stop ∷ [])

refused : enforce_emergency_stops order (stop ∷ []) ≡ err (blocked_by "s-1")
unfolding enforce_emergency_stops applies_to refuse_by
refused = refl
