-- ===== src/Data/OrderBook/Tests.antt =====
-- A book with two bids and one ask is kept at update 7, and then moved to update 10.
use liki.Common.{[], ◌∷◌, some, true, false, ◌≡◌, ◌≢◌, refl, ok, arith}
use liki.Common.Int.{ℤ, pos, negsuc, ◌+ℤ◌, ◌*ℤ◌}
use liki.Data.OrderBook.{
  OrderBook, OrderBookSnapshot, OrderBookDelta, new_book, pop, set, apply_levels, apply_bids,
  apply_asks, apply_snapshot, apply_delta, apply_delta_at, max_price, min_price, mid_of, mid_price,
}
use liki.Data.OrderBook.Book.{
  fresh, snapshot_taken, delta_taken, IsBook, Reached-IsBook, apply_snapshot_refused,
}
use liki.Data.OrderBook.Continuity.{feed_all, feed_each, Follows, feed_all-Follows, feed_each_gap}

abbrev snapshot : OrderBookSnapshot
snapshot = record {
  last_update_id = 7;
  bids = (pos 100, pos 5) ∷ (pos 99, pos 2) ∷ [];
  asks = (pos 103, pos 4) ∷ [];
  event_time = 10;
  received_at = 11;
}

abbrev bad_snapshot : OrderBookSnapshot
bad_snapshot = record snapshot { asks = (negsuc 0, pos 4) ∷ [] }

abbrev kept : OrderBook
kept = record {
  bids = (pos 100, pos 5) ∷ (pos 99, pos 2) ∷ [];
  asks = (pos 103, pos 4) ∷ [];
  last_update_id = some 7;
  valid = true;
  gap_count = 0;
  duplicate_count = 0;
}

abbrev repeated : OrderBookDelta
repeated = record {
  first_update_id = 6;
  final_update_id = 7;
  bids = [];
  asks = [];
  event_time = 12;
  received_at = 12;
}

-- The best bid goes, and an ask comes.
abbrev moved : OrderBookDelta
moved = record {
  first_update_id = 8;
  final_update_id = 10;
  bids = (pos 100, pos 0) ∷ [];
  asks = (pos 102, pos 1) ∷ [];
  event_time = 13;
  received_at = 13;
}

abbrev late : OrderBookDelta
late = record moved { first_update_id = 9 }

kept_reached : (apply_snapshot snapshot new_book).0 ≡ kept
unfolding apply_snapshot new_book apply_bids apply_asks apply_levels set
kept_reached = refl

mid_of_kept : mid_price kept ≡ ok (pos 1015)
unfolding mid_price mid_of max_price min_price ◌+ℤ◌ ◌*ℤ◌
mid_of_kept = refl

kept-IsBook : IsBook kept
kept-IsBook = record { bid_side = ground arith; ask_side = ground arith; numbered = ground arith }

Reached-IsBook_example :
    IsBook (apply_delta moved (apply_snapshot snapshot new_book).0).0
    × ((apply_delta moved (apply_snapshot snapshot new_book).0).0.last_update_id ≡ some 10)
unfolding apply_snapshot apply_delta apply_delta_at new_book apply_bids apply_asks apply_levels set
    pop
Reached-IsBook_example =
    Reached-IsBook (apply_delta moved (apply_snapshot snapshot new_book).0).0 (some 10)
      (delta_taken moved (snapshot_taken snapshot fresh refl) (omega arith) refl)

apply_snapshot_refused_example :
    ((apply_snapshot bad_snapshot kept).1 ≢ ok tt)
    × ((apply_snapshot bad_snapshot kept).0.valid ≡ true)
    × ((apply_snapshot bad_snapshot kept).0.last_update_id ≡ some 7)
apply_snapshot_refused_example = apply_snapshot_refused bad_snapshot kept refl

fed : (feed_all (repeated ∷ moved ∷ []) kept).1 ≡ ok tt
unfolding apply_delta apply_delta_at apply_bids apply_asks apply_levels set pop
fed = refl

fed_to : (feed_all (repeated ∷ moved ∷ []) kept).0.last_update_id ≡ some 10
unfolding apply_delta apply_delta_at apply_bids apply_asks apply_levels set pop
fed_to = refl

feed_all-Follows_example :
    Follows 7 (repeated ∷ moved ∷ []) kept (feed_all (repeated ∷ moved ∷ []) kept).0
feed_all-Follows_example = feed_all-Follows (repeated ∷ moved ∷ []) 7 kept kept-IsBook refl refl fed

feed_each_gap_example :
    (feed_each (late ∷ moved ∷ []) kept ≡ record kept { valid = false; gap_count = 1 })
    × ((price : ℤ) → mid_price (feed_each (late ∷ moved ∷ []) kept) ≢ ok price)
feed_each_gap_example = feed_each_gap late (moved ∷ []) 7 kept refl refl (omega arith) (omega arith)
