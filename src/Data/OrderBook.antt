-- ===== src/Data/OrderBook.antt =====
-- data/orderbook.py: the order book that is kept from a snapshot and a sequence of deltas.
-- A price or a quantity is the coefficient of a decimal at one common exponent.
pub mod Levels
pub mod Book
pub mod Continuity
mod Mid
mod Tests
use liki.Common.{
  ℕ, suc, ◌+◌, String, List, [], ◌∷◌, Option, none, some, Bool, true, false, not, ◌&&◌, ◌||◌, ltb,
  leb, is_empty, if◌then◌else◌, Result, ok, err,
}
use liki.Common.Int.{ℤ, pos, ◌+ℤ◌, ◌*ℤ◌, ltb_ℤ, leb_ℤ, beq_ℤ}

pub data BookError : Type 0 where
  sequence_gap : String → BookError
  value_error : String → BookError

-- A dictionary from prices to quantities, in the order of insertion.
abbrev pub Levels : Type 0
Levels = List (ℤ × ℤ)

pub record OrderBookSnapshot : Type 0 where
  pub last_update_id : ℕ
  pub bids : Levels
  pub asks : Levels
  pub event_time : ℕ
  pub received_at : ℕ

pub record OrderBookDelta : Type 0 where
  pub first_update_id : ℕ
  pub final_update_id : ℕ
  pub bids : Levels
  pub asks : Levels
  pub event_time : ℕ
  pub received_at : ℕ

unfoldable pub ordered_ids : OrderBookDelta → Result BookError OrderBookDelta
ordered_ids d =
    if ltb d.final_update_id d.first_update_id
    then err (value_error "final update ID must not precede first update ID")
    else ok d

pub record OrderBook : Type 0 where
  pub bids : Levels
  pub asks : Levels
  pub last_update_id : Option ℕ
  pub valid : Bool
  pub gap_count : ℕ
  pub duplicate_count : ℕ

-- `OrderBook()`
unfoldable pub new_book : OrderBook
new_book = record {
  bids = [];
  asks = [];
  last_update_id = none;
  valid = false;
  gap_count = 0;
  duplicate_count = 0;
}

-- `levels.pop(price, None)`
unfoldable pub pop : ℤ → Levels → Levels
pop price [] = []
pop price ((p, q) ∷ levels) = if beq_ℤ p price then levels else (p, q) ∷ pop price levels

-- `levels[price] = quantity`
unfoldable pub set : ℤ → ℤ → Levels → Levels
set price quantity [] = (price, quantity) ∷ []
set price quantity ((p, q) ∷ levels) =
    if beq_ℤ p price then (p, quantity) ∷ levels else (p, q) ∷ set price quantity levels

-- What a call leaves, and whether it raised: the levels are changed in place.
abbrev pub Outcome : Type 0 → Type 0
Outcome S = S × Result BookError (Unit {0})

-- `_apply`
unfoldable pub apply_levels : Levels → Levels → Outcome Levels
unfolding pop set
apply_levels levels [] = (levels, ok tt)
apply_levels levels ((price, quantity) ∷ changes) =
    if leb_ℤ price (pos 0) || ltb_ℤ quantity (pos 0)
    then (levels, err (value_error "invalid order-book level"))
    else apply_levels
        (if beq_ℤ quantity (pos 0) then pop price levels else set price quantity levels) changes

-- The next statement runs unless the last one raised.
infixl 5 ◌then◌
abbrev pub ◌then◌ : Outcome OrderBook → (OrderBook → Outcome OrderBook) → Outcome OrderBook
(b, ok _) then f = f b
(b, err e) then f = (b, err e)

unfoldable pub apply_bids : Levels → OrderBook → Outcome OrderBook
unfolding apply_levels
apply_bids changes b = let r = apply_levels b.bids changes in (record b { bids = r.0 }, r.1)

unfoldable pub apply_asks : Levels → OrderBook → Outcome OrderBook
unfolding apply_levels
apply_asks changes b = let r = apply_levels b.asks changes in (record b { asks = r.0 }, r.1)

unfoldable pub apply_snapshot : OrderBookSnapshot → OrderBook → Outcome OrderBook
unfolding apply_bids apply_asks
apply_snapshot s b =
    (record b { bids = []; asks = [] }, ok tt)
    then apply_bids s.bids
    then apply_asks s.asks
    then λ c. (record c { last_update_id = some s.last_update_id; valid = true }, ok tt)

-- The delta for a book that has seen the updates up to `last`.
unfoldable pub apply_delta_at : OrderBookDelta → ℕ → OrderBook → Outcome OrderBook
unfolding apply_bids apply_asks
apply_delta_at d last b =
    if leb d.final_update_id last
    then (record b { duplicate_count = b.duplicate_count + 1 }, ok tt)
    else if not (leb d.first_update_id (last + 1) && leb (last + 1) d.final_update_id)
    then (
      record b { valid = false; gap_count = b.gap_count + 1 },
      err (sequence_gap "order-book sequence gap; resynchronization required"),
    )
    else (b, ok tt) then apply_bids d.bids then apply_asks d.asks then λ c.
        (record c { last_update_id = some d.final_update_id }, ok tt)

unfoldable pub apply_delta : OrderBookDelta → OrderBook → Outcome OrderBook
unfolding apply_delta_at
apply_delta d b = elim b.last_update_id [
  | none ↦ (b, err (sequence_gap "order book requires a snapshot before deltas"))
  | some last ↦
      if not b.valid
      then (b, err (sequence_gap "order book requires a snapshot before deltas"))
      else apply_delta_at d last b
]

-- `max` and `min` over the prices of a dictionary that starts with the given price.
unfoldable pub max_price : ℤ → Levels → ℤ
max_price p [] = p
max_price p ((r, _) ∷ levels) = max_price (if ltb_ℤ p r then r else p) levels

unfoldable pub min_price : ℤ → Levels → ℤ
min_price p [] = p
min_price p ((r, _) ∷ levels) = min_price (if ltb_ℤ r p then r else p) levels

-- The middle has one digit more than the prices: its coefficient is five times their sum.
unfoldable pub mid_of : Bool → Levels → Levels → Result BookError ℤ
unfolding max_price min_price
mid_of valid ((bid, _) ∷ bids) ((ask, _) ∷ asks) =
    if not valid
    then err (sequence_gap "order-book feature invalid without a continuous book")
    else ok ((max_price bid bids +ℤ min_price ask asks) *ℤ pos 5)
mid_of _ _ _ = err (sequence_gap "order-book feature invalid without a continuous book")

unfoldable pub mid_price : OrderBook → Result BookError ℤ
unfolding mid_of
mid_price b = mid_of b.valid b.bids b.asks
