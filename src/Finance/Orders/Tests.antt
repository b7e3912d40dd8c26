-- ===== src/Finance/Orders/Tests.antt =====
-- An order of ten that is filled in two parts.
use liki.Common.{[], ◌∷◌, some, none, false, ◌≡◌, ◌↔◌, refl, ok, arith}
use liki.Common.Int.{pos, ◌+ℤ◌}
use liki.Finance.Types.{buy, limit, gtc}
use liki.Finance.Orders.{
  OrderIntent, OrderRecord, new_order, pretrade_validated, submitted, acknowledged,
  partially_filled, filled, transitions, transition, latest_status,
}
use liki.Finance.Orders.Life.{
  Life, born, moved, IsOrder, Passes, Life-IsOrder, transition_iff, transition_unsent,
}

abbrev ten : OrderIntent
ten = record {
  client_order_id = "o-1";
  strategy_id = "trend";
  venue = "binance";
  instrument_id = "BTCUSDT";
  side = buy;
  quantity = pos 10;
  order_type = limit;
  limit_price = some (pos 500);
  information_cutoff_time = 1;
  signal_ready_time = 2;
  order_eligible_time = 3;
  submission_time = 4;
  reduce_only = false;
  post_only = false;
  time_in_force = gtc;
}

abbrev done : OrderRecord
done = record {
  order_intent = ten;
  state = filled;
  filled_quantity = pos 10;
  raw_venue_status = some "FILLED";
}

abbrev filled_in_parts : Life (new_order ten) done (pos 6 ∷ pos 4 ∷ pos 0 ∷ pos 0 ∷ pos 0 ∷ [])
unfolding new_order transition transitions latest_status ◌+ℤ◌
filled_in_parts =
    moved filled (some "FILLED") (pos 6)
      (moved partially_filled none (pos 4)
        (moved acknowledged none (pos 0)
          (moved submitted none (pos 0) (moved pretrade_validated none (pos 0) born refl) refl)
          refl)
        refl)
      refl

Life-IsOrder_example : IsOrder ten done (pos 6 ∷ pos 4 ∷ pos 0 ∷ pos 0 ∷ pos 0 ∷ [])
Life-IsOrder_example = Life-IsOrder ten (omega arith) filled_in_parts

abbrev validated : OrderRecord
validated = record {
  order_intent = ten;
  state = pretrade_validated;
  filled_quantity = pos 0;
  raw_venue_status = none;
}

transition_iff_example :
    (transition (new_order ten) pretrade_validated none (pos 0) ≡ ok validated)
    ↔ Passes (new_order ten) pretrade_validated none (pos 0) validated
transition_iff_example = transition_iff (new_order ten) validated pretrade_validated none (pos 0)

transition_unsent_example :
    (o : OrderRecord) × (transition (new_order ten) pretrade_validated none (pos 10) ≡ ok o)
    × (o.filled_quantity ≡ pos 10)
transition_unsent_example = transition_unsent ten (pos 10) (omega arith) (omega arith)
