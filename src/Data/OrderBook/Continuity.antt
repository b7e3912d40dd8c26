-- ===== src/Data/OrderBook/Continuity.antt =====
-- The deltas that a book takes follow each other without a missed update.
use liki.Common.{
  ℕ, suc, ◌+◌, ◌≤◌, ◌<◌, List, [], ◌∷◌, Option, some, Bool, true, false, ◌&&◌, any, leb,
  if◌then◌else◌, ◌≡◌, ◌≢◌, refl, ok, Result-cases, Bool-cases, inl, inr, arith,
}
use liki.Common.Int.{ℤ}
use liki.Data.OrderBook.{
  OrderBook, OrderBookDelta, Outcome, Levels, ◌then◌, apply_bids, apply_asks, apply_delta,
  apply_delta_at, mid_price,
}
use liki.Data.OrderBook.Levels.{
  IsSide, changed, quantity_at, apply_levels_iff, quantity_at-apply_levels,
}
use liki.Data.OrderBook.Mid.{mid_price_iff}
use liki.Data.OrderBook.Book.{IsBook, apply_delta-IsBook}

-- The deltas in order, up to the first that raises.
abbrev pub feed_all : List OrderBookDelta → OrderBook → Outcome OrderBook
feed_all [] b = (b, ok tt)
feed_all (d ∷ ds) b = apply_delta d b then feed_all ds

-- The deltas in order, by a caller that goes on after one that raises.
abbrev pub feed_each : List OrderBookDelta → OrderBook → OrderBook
feed_each [] b = b
feed_each (d ∷ ds) b = feed_each ds (apply_delta d b).0

-- From update `n`, each delta repeats what is known or goes on from the next update, up to `m`.
pub data Chain : ℕ → List OrderBookDelta → ℕ → Type 0 where
  done : {n : ℕ} → Chain n [] n
  repeat :
      {n m : ℕ} {d : OrderBookDelta} {ds : List OrderBookDelta}
      → d.final_update_id ≤ n
      → Chain n ds m
      → Chain n (d ∷ ds) m
  advance :
      {n m : ℕ} {d : OrderBookDelta} {ds : List OrderBookDelta}
      → d.first_update_id ≤ suc n
      → n < d.final_update_id
      → Chain d.final_update_id ds m
      → Chain n (d ∷ ds) m

abbrev pub covers : ℕ → OrderBookDelta → Bool
covers i d = leb d.first_update_id i && leb i d.final_update_id

pub Chain_le : {n m : ℕ} {ds : List OrderBookDelta} → Chain n ds m → n ≤ m
Chain_le done = omega arith
Chain_le (repeat _ c) = Chain_le c
Chain_le (advance _ h c) = omega (arith, Chain_le c)

pub Chain-covers :
    (i : ℕ) {n m : ℕ} {ds : List OrderBookDelta}
    → Chain n ds m
    → n < i
    → i ≤ m
    → any (covers i) ds ≡ true
Chain-covers i done above below = absurd (omega arith)
Chain-covers i (repeat _ c) above below = ground (arith, Chain-covers i c)
Chain-covers i (advance f g c) above below = ground (arith, Chain-covers i c)

-- What a delta that raises nothing does to a valid book at `n`.
pub record Takes (n : ℕ) (d : OrderBookDelta) (b c : OrderBook) : Type 0 where
  pub continues : d.first_update_id ≤ suc n
  pub is_new : n < d.final_update_id
  pub still_valid : c.valid ≡ true
  pub at_final : c.last_update_id ≡ some d.final_update_id
  pub bids_taken :
      IsSide b.bids → (p : ℤ) → quantity_at p c.bids ≡ changed p d.bids (quantity_at p b.bids)
  pub asks_taken :
      IsSide b.asks → (p : ℤ) → quantity_at p c.asks ≡ changed p d.asks (quantity_at p b.asks)

apply_delta_new :
    (d : OrderBookDelta) (n : ℕ) (b : OrderBook)
    → b.valid ≡ true
    → b.last_update_id ≡ some n
    → (apply_delta d b).1 ≡ ok tt
    → n < d.final_update_id
    → Takes n d b (apply_delta d b).0
unfolding apply_delta apply_delta_at apply_bids apply_asks
apply_delta_new d n b v at_n is_ok above = record {
  continues = ground arith;
  is_new = above;
  still_valid = ground arith;
  at_final = ground arith;
  bids_taken = λ h p.
      ground (arith, quantity_at-apply_levels p b.bids d.bids h, apply_levels_iff b.bids d.bids);
  asks_taken = λ h p.
      ground (arith, quantity_at-apply_levels p b.asks d.asks h, apply_levels_iff b.asks d.asks);
}

apply_delta_old :
    (d : OrderBookDelta) (n : ℕ) (b : OrderBook)
    → b.valid ≡ true
    → b.last_update_id ≡ some n
    → d.final_update_id ≤ n
    → apply_delta d b ≡ (record b { duplicate_count = b.duplicate_count + 1 }, ok tt)
unfolding apply_delta apply_delta_at
apply_delta_old d n b v at_n below = ground arith

-- The changes of one side by the deltas that are not repeats, in order, from update `n`.
abbrev pub changed_all :
    (OrderBookDelta → Levels) → ℤ → ℕ → List OrderBookDelta → Option ℤ → Option ℤ
changed_all side p n [] before = before
changed_all side p n (d ∷ ds) before =
    if leb d.final_update_id n
    then changed_all side p n ds before
    else changed_all side p d.final_update_id ds (changed p (side d) before)

-- The deltas are a chain from `n` to the number of `c`, which is `b` with their changes.
pub record Follows (n : ℕ) (ds : List OrderBookDelta) (b c : OrderBook) : Type 0 where
  pub last : ℕ
  pub at_last : c.last_update_id ≡ some last
  pub unbroken : Chain n ds last
  pub stays_valid : c.valid ≡ true
  pub bids_followed :
      (p : ℤ) → quantity_at p c.bids ≡ changed_all (λ d. d.bids) p n ds (quantity_at p b.bids)
  pub asks_followed :
      (p : ℤ) → quantity_at p c.asks ≡ changed_all (λ d. d.asks) p n ds (quantity_at p b.asks)

-- From a well-formed valid book at update `n`, deltas that raise nothing form a chain without a missed update to the
-- book's new number, and the book has the quantities that the new deltas leave.
pub feed_all-Follows :
    (ds : List OrderBookDelta) (n : ℕ) (b : OrderBook)
    → IsBook b
    → b.valid ≡ true
    → b.last_update_id ≡ some n
    → (feed_all ds b).1 ≡ ok tt
    → Follows n ds b (feed_all ds b).0
feed_all-Follows [] n b h v at_n is_ok = record {
  last = n;
  at_last = at_n;
  unbroken = done;
  stays_valid = v;
  bids_followed = λ p. refl;
  asks_followed = λ p. refl;
}
feed_all-Follows (d ∷ ds) n b h v at_n is_ok = elim (Bool-cases (leb d.final_update_id n)) [
  | inl old ↦
      let e = apply_delta_old d n b v at_n (ground arith) in
      let r =
        feed_all-Follows ds n (apply_delta d b).0 (apply_delta-IsBook d b h) (rw e v) (rw e at_n)
          (ground arith) in
      record {
        last = r.last;
        at_last = ground (arith, r.at_last);
        unbroken = repeat (ground arith) r.unbroken;
        stays_valid = ground (arith, r.stays_valid);
        bids_followed = λ p. ground (arith, r.bids_followed p);
        asks_followed = λ p. ground (arith, r.asks_followed p);
      }
  | inr new ↦ elim (Result-cases (apply_delta d b).1) [
    | inl (_, first_ok) ↦
        let t = apply_delta_new d n b v at_n first_ok (ground arith) in
        let r =
          feed_all-Follows ds d.final_update_id (apply_delta d b).0 (apply_delta-IsBook d b h)
            t.still_valid t.at_final (ground arith) in
        record {
          last = r.last;
          at_last = ground (arith, r.at_last);
          unbroken = advance t.continues t.is_new r.unbroken;
          stays_valid = ground (arith, r.stays_valid);
          bids_followed = λ p. ground (arith, r.bids_followed p, t.bids_taken h.bid_side p);
          asks_followed = λ p. ground (arith, r.asks_followed p, t.asks_taken h.ask_side p);
        }
    | inr (e, raised) ↦ absurd (ground arith)
  ]
]

-- From a well-formed valid book at update `n`, every update after `n`, up to the number that the book then has, is within some delta that was
-- fed, if none of them raised.
pub feed_all-covers :
    (ds : List OrderBookDelta) (n m i : ℕ) (b : OrderBook)
    → IsBook b
    → b.valid ≡ true
    → b.last_update_id ≡ some n
    → (feed_all ds b).1 ≡ ok tt
    → (feed_all ds b).0.last_update_id ≡ some m
    → n < i
    → i ≤ m
    → any (covers i) ds ≡ true
feed_all-covers ds n m i b h v at_n is_ok at_m above below =
    let f = feed_all-Follows ds n b h v at_n is_ok in
    Chain-covers i f.unbroken above (ground (arith, f.at_last))

-- A book that is not valid takes no delta, however many come.
feed_each_invalid :
    (ds : List OrderBookDelta) (b : OrderBook) → b.valid ≡ false → feed_each ds b ≡ b
unfolding apply_delta
feed_each_invalid [] b h = refl
feed_each_invalid (d ∷ ds) b h =
    ground (arith, feed_each_invalid ds (apply_delta d b).0, feed_each_invalid ds b h)

-- After a delta that starts beyond the next update, the levels and the number stay as they were,
-- and no mid price is given, whatever deltas follow.
pub feed_each_gap :
    (d : OrderBookDelta) (ds : List OrderBookDelta) (n : ℕ) (b : OrderBook)
    → b.valid ≡ true
    → b.last_update_id ≡ some n
    → n < d.final_update_id
    → suc n < d.first_update_id
    → (feed_each (d ∷ ds) b ≡ record b { valid = false; gap_count = b.gap_count + 1 })
      × ((price : ℤ) → mid_price (feed_each (d ∷ ds) b) ≢ ok price)
unfolding apply_delta apply_delta_at
feed_each_gap d ds n b v at_n new gap =
    let lost : OrderBook = record b { valid = false; gap_count = b.gap_count + 1 } in
    let e : feed_each (d ∷ ds) b ≡ lost = ground (arith, feed_each_invalid ds lost refl) in
    (e, λ price h. absurd (ground (arith, (mid_price_iff (feed_each (d ∷ ds) b) price).0 h)))
