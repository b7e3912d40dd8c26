-- ===== src/Data/OrderBook/Book.antt =====
-- The states that a book reaches, and what a call that raises has changed.
use liki.Common.{
  ℕ, Option, ◌<◌, ◌≤◌, ◌∙◌, [], none, some, is_some, true, false, ◌&&◌, ◌≡◌, ◌≢◌, ◌↔◌, ◌⊎◌, refl,
  ok, inl, arith,
}
use liki.Common.Int.{ℤ}
use liki.Data.OrderBook.{
  OrderBook, OrderBookSnapshot, OrderBookDelta, new_book, apply_bids, apply_asks, apply_snapshot,
  apply_delta, apply_delta_at,
}
use liki.Data.OrderBook.Levels.{
  IsSide, is_legal, changed, quantity_at, apply_levels-IsSide, apply_levels_iff,
  quantity_at-apply_levels,
}

-- Both sides are maps to positive quantities, and a valid book knows its last update.
pub record IsBook (b : OrderBook) : Type 0 where
  pub bid_side : IsSide b.bids
  pub ask_side : IsSide b.asks
  pub numbered : (b.valid ≡ false) ⊎ (is_some b.last_update_id ≡ true)

-- The books that calls make, those included whose last call raised, each with the number of the last
-- update that it accepted: a delta is accepted when it raises nothing and ends after the last one.
pub data Reached : OrderBook → Option ℕ → Type 0 where
  fresh : Reached new_book none
  snapshot_taken :
      {b : OrderBook} {n : Option ℕ} (s : OrderBookSnapshot)
      → Reached b n
      → (apply_snapshot s b).1 ≡ ok tt
      → Reached (apply_snapshot s b).0 (some s.last_update_id)
  snapshot_refused :
      {b : OrderBook} {n : Option ℕ} (s : OrderBookSnapshot)
      → Reached b n
      → (apply_snapshot s b).1 ≢ ok tt
      → Reached (apply_snapshot s b).0 n
  delta_taken :
      {b : OrderBook} {last : ℕ} (d : OrderBookDelta)
      → Reached b (some last)
      → last < d.final_update_id
      → (apply_delta d b).1 ≡ ok tt
      → Reached (apply_delta d b).0 (some d.final_update_id)
  delta_known :
      {b : OrderBook} {last : ℕ} (d : OrderBookDelta)
      → Reached b (some last)
      → d.final_update_id ≤ last
      → Reached (apply_delta d b).0 (some last)
  delta_refused :
      {b : OrderBook} {n : Option ℕ} (d : OrderBookDelta)
      → Reached b n
      → (apply_delta d b).1 ≢ ok tt
      → Reached (apply_delta d b).0 n

apply_snapshot-IsBook :
    (s : OrderBookSnapshot) (b : OrderBook) → IsBook b → IsBook (apply_snapshot s b).0
unfolding apply_snapshot apply_bids apply_asks
apply_snapshot-IsBook s b h = record {
  bid_side = ground (arith, h.bid_side, apply_levels-IsSide [] s.bids tt);
  ask_side = ground (arith, h.ask_side, apply_levels-IsSide [] s.asks tt);
  numbered = ground (arith, h.numbered);
}

pub apply_delta-IsBook :
    (d : OrderBookDelta) (b : OrderBook) → IsBook b → IsBook (apply_delta d b).0
unfolding apply_delta apply_delta_at apply_bids apply_asks
apply_delta-IsBook d b h = record {
  bid_side = ground (arith, h.bid_side, apply_levels-IsSide b.bids d.bids h.bid_side);
  ask_side = ground (arith, h.ask_side, apply_levels-IsSide b.asks d.asks h.ask_side);
  numbered = ground (arith, h.numbered);
}

snapshot_number :
    (s : OrderBookSnapshot) (b : OrderBook)
    → ((apply_snapshot s b).1 ≡ ok tt
        → (apply_snapshot s b).0.last_update_id ≡ some s.last_update_id)
      × ((apply_snapshot s b).1 ≢ ok tt → (apply_snapshot s b).0.last_update_id ≡ b.last_update_id)
unfolding apply_snapshot apply_bids apply_asks
snapshot_number s b = (λ e. ground arith, λ e. ground arith)

delta_number :
    (d : OrderBookDelta) (last : ℕ) (b : OrderBook)
    → b.last_update_id ≡ some last
    → (last < d.final_update_id
        → (apply_delta d b).1 ≡ ok tt
        → (apply_delta d b).0.last_update_id ≡ some d.final_update_id)
      × (d.final_update_id ≤ last → (apply_delta d b).0.last_update_id ≡ some last)
unfolding apply_delta apply_delta_at apply_bids apply_asks
delta_number d last b e = (λ new h. ground arith, λ old. ground arith)

refused_number :
    (d : OrderBookDelta) (b : OrderBook)
    → (apply_delta d b).1 ≢ ok tt
    → (apply_delta d b).0.last_update_id ≡ b.last_update_id
unfolding apply_delta apply_delta_at apply_bids apply_asks
refused_number d b h = ground arith

-- In every book that calls make, each side maps positive prices to positive quantities, with no
-- price twice; the number of the book is that of the last snapshot or delta that it accepted, and a
-- valid book has one.
pub Reached-IsBook :
    (b : OrderBook) (n : Option ℕ) → Reached b n → IsBook b × (b.last_update_id ≡ n)
unfolding new_book
Reached-IsBook b n fresh = (record { bid_side = tt; ask_side = tt; numbered = inl refl }, refl)
Reached-IsBook b n (snapshot_taken {b = c} {n = m} s r e) =
    (apply_snapshot-IsBook s c (Reached-IsBook c m r).0, (snapshot_number s c).0 e)
Reached-IsBook b n (snapshot_refused {b = c} {n = m} s r e) =
    let k = Reached-IsBook c m r in (apply_snapshot-IsBook s c k.0, (snapshot_number s c).1 e ∙ k.1)
Reached-IsBook b n (delta_taken {b = c} {last} d r new e) =
    let k = Reached-IsBook c (some last) r in
    (apply_delta-IsBook d c k.0, (delta_number d last c k.1).0 new e)
Reached-IsBook b n (delta_known {b = c} {last} d r old) =
    let k = Reached-IsBook c (some last) r in
    (apply_delta-IsBook d c k.0, (delta_number d last c k.1).1 old)
Reached-IsBook b n (delta_refused {b = c} {n = m} d r e) =
    let k = Reached-IsBook c m r in (apply_delta-IsBook d c k.0, refused_number d c e ∙ k.1)

-- At each price the book has the quantity of the snapshot's last level there, is valid and has the
-- snapshot's number.
pub record Shows (s : OrderBookSnapshot) (b : OrderBook) : Type 0 where
  pub bids_shown : (p : ℤ) → quantity_at p b.bids ≡ changed p s.bids none
  pub asks_shown : (p : ℤ) → quantity_at p b.asks ≡ changed p s.asks none
  pub number_shown : b.last_update_id ≡ some s.last_update_id
  pub valid_shown : b.valid ≡ true

-- A snapshot raises nothing exactly when every level of it is accepted.
pub apply_snapshot_iff :
    (s : OrderBookSnapshot) (b : OrderBook)
    → ((apply_snapshot s b).1 ≡ ok tt) ↔ ((is_legal s.bids && is_legal s.asks) ≡ true)
unfolding apply_snapshot apply_bids apply_asks
apply_snapshot_iff s b = ground (arith, apply_levels_iff [] s.bids, apply_levels_iff [] s.asks)

-- After a snapshot whose levels are all accepted, a valid book has at each price the quantity of the
-- snapshot's last level there, and the snapshot's number, whatever the book was.
pub apply_snapshot-Shows :
    (s : OrderBookSnapshot) (b : OrderBook)
    → (is_legal s.bids && is_legal s.asks) ≡ true
    → Shows s (apply_snapshot s b).0
unfolding apply_snapshot apply_bids apply_asks
apply_snapshot-Shows s b h = record {
  bids_shown = λ p. ground (
    arith,
    quantity_at-apply_levels p [] s.bids tt,
    apply_levels_iff [] s.bids,
    apply_levels_iff [] s.asks,
  );
  asks_shown = λ p. ground (
    arith,
    quantity_at-apply_levels p [] s.asks tt,
    apply_levels_iff [] s.bids,
    apply_levels_iff [] s.asks,
  );
  number_shown = ground (arith, apply_levels_iff [] s.bids, apply_levels_iff [] s.asks);
  valid_shown = ground (arith, apply_levels_iff [] s.bids, apply_levels_iff [] s.asks);
}

-- A snapshot with a level that is not accepted raises, and leaves the number and the validity that
-- the book had: a valid book stays valid.
pub apply_snapshot_refused :
    (s : OrderBookSnapshot) (b : OrderBook)
    → (is_legal s.bids && is_legal s.asks) ≡ false
    → ((apply_snapshot s b).1 ≢ ok tt)
      × ((apply_snapshot s b).0.valid ≡ b.valid)
      × ((apply_snapshot s b).0.last_update_id ≡ b.last_update_id)
unfolding apply_snapshot apply_bids apply_asks
apply_snapshot_refused s b h = (
  λ e. ground (arith, apply_snapshot_iff s b),
  ground (arith, apply_levels_iff [] s.bids, apply_levels_iff [] s.asks),
  ground (arith, apply_levels_iff [] s.bids, apply_levels_iff [] s.asks),
)
