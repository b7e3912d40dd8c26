-- ===== src/Data/OrderBook/Mid.antt =====
-- The middle between the best bid and the best ask.
use liki.Common.{[], ◌∷◌, is_some, Bool, true, All, ◌≡◌, ◌↔◌, inl, inr, refl, ok, arith, Bool-cases}
use liki.Common.Int.{ℤ, pos, ◌+ℤ◌, ◌*ℤ◌, ◌≤ℤ◌, ltb_ℤ, beq_ℤ_iff, eq_of_parts}
use liki.Data.OrderBook.{Levels, OrderBook, max_price, min_price, mid_of, mid_price}
use liki.Data.OrderBook.Levels.{quantity_at}

-- A price of the side, with no greater one on it.
pub record IsMax (p : ℤ) (levels : Levels) : Type 0 where
  pub listed : is_some (quantity_at p levels) ≡ true
  pub greatest : All (λ l. l.0 ≤ℤ p) levels

-- A price of the side, with no smaller one on it.
pub record IsMin (p : ℤ) (levels : Levels) : Type 0 where
  pub listed : is_some (quantity_at p levels) ≡ true
  pub least : All (λ l. p ≤ℤ l.0) levels

weaken_max :
    (p r : ℤ) (levels : Levels) → p ≤ℤ r → All (λ l. l.0 ≤ℤ p) levels → All (λ l. l.0 ≤ℤ r) levels
weaken_max p r [] h a = tt
weaken_max p r (l ∷ levels) h a = (omega (arith, a.0), weaken_max p r levels h a.1)

max_price-IsMax : (p q : ℤ) (levels : Levels) → IsMax (max_price p levels) ((p, q) ∷ levels)
unfolding max_price
max_price-IsMax p q [] = record { listed = ground (arith, beq_ℤ_iff p p); greatest = ground arith }
max_price-IsMax p q ((r, t) ∷ levels) = elim (Bool-cases (ltb_ℤ p r)) [
  | inl less ↦
      let m = max_price-IsMax r t levels in
      record { listed = ground (arith, m.listed); greatest = ground (arith, m.greatest) }
  | inr more ↦
      let m = max_price-IsMax p q levels in
      record { listed = ground (arith, m.listed); greatest = ground (arith, m.greatest) }
]

min_price-IsMin : (p q : ℤ) (levels : Levels) → IsMin (min_price p levels) ((p, q) ∷ levels)
unfolding min_price
min_price-IsMin p q [] = record { listed = ground (arith, beq_ℤ_iff p p); least = ground arith }
min_price-IsMin p q ((r, t) ∷ levels) = elim (Bool-cases (ltb_ℤ r p)) [
  | inl less ↦
      let m = min_price-IsMin r t levels in
      record { listed = ground (arith, m.listed); least = ground (arith, m.least) }
  | inr more ↦
      let m = min_price-IsMin p q levels in
      record { listed = ground (arith, m.listed); least = ground (arith, m.least) }
]

-- The price is in the middle, in tenths of the unit of the sides.
pub record IsMiddle (price : ℤ) (bids asks : Levels) : Type 0 where
  pub bid : ℤ
  pub ask : ℤ
  pub best_bid : IsMax bid bids
  pub best_ask : IsMin ask asks
  pub middle : price ≡ (bid +ℤ ask) *ℤ pos 5

-- Two best prices of a side are one.
listed_le :
    (p r : ℤ) (levels : Levels)
    → is_some (quantity_at p levels) ≡ true
    → All (λ l. l.0 ≤ℤ r) levels
    → p ≤ℤ r
listed_le p r [] h a = absurd (ground arith)
listed_le p r ((s, q) ∷ levels) h a = ground (arith, listed_le p r levels, beq_ℤ_iff s p)

listed_ge :
    (p r : ℤ) (levels : Levels)
    → is_some (quantity_at p levels) ≡ true
    → All (λ l. r ≤ℤ l.0) levels
    → r ≤ℤ p
listed_ge p r [] h a = absurd (ground arith)
listed_ge p r ((s, q) ∷ levels) h a = ground (arith, listed_ge p r levels, beq_ℤ_iff s p)

IsMax-unique : (p r : ℤ) (levels : Levels) → IsMax p levels → IsMax r levels → p ≡ r
IsMax-unique p r levels h k = eq_of_parts p r (
    omega
      (arith, listed_le p r levels h.listed k.greatest, listed_le r p levels k.listed h.greatest))

IsMin-unique : (p r : ℤ) (levels : Levels) → IsMin p levels → IsMin r levels → p ≡ r
IsMin-unique p r levels h k =
    eq_of_parts p r
      (omega (arith, listed_ge p r levels h.listed k.least, listed_ge r p levels k.listed h.least))

IsMiddle-unique :
    (p r : ℤ) (bids asks : Levels) → IsMiddle p bids asks → IsMiddle r bids asks → p ≡ r
IsMiddle-unique p r bids asks h k = cc (
  h.middle,
  k.middle,
  IsMax-unique h.bid k.bid bids h.best_bid k.best_bid,
  IsMin-unique h.ask k.ask asks h.best_ask k.best_ask,
)

mid_of-IsMiddle :
    (v : Bool) (bids asks : Levels) (price : ℤ)
    → mid_of v bids asks ≡ ok price
    → (v ≡ true) × IsMiddle price bids asks
unfolding mid_of
mid_of-IsMiddle v ((p, q) ∷ bids) ((r, t) ∷ asks) price h = (
  ground arith,
  record {
    bid = max_price p bids;
    ask = min_price r asks;
    best_bid = max_price-IsMax p q bids;
    best_ask = min_price-IsMin r t asks;
    middle = ground arith;
  },
)
mid_of-IsMiddle v [] asks price h = absurd (ground arith)
mid_of-IsMiddle v ((p, q) ∷ bids) [] price h = absurd (ground arith)

mid_of_given :
    (bids asks : Levels) (price : ℤ)
    → IsMiddle price bids asks
    → (p : ℤ) × (mid_of true bids asks ≡ ok p)
unfolding mid_of
mid_of_given ((p, q) ∷ bids) ((r, t) ∷ asks) price h =
    ((max_price p bids +ℤ min_price r asks) *ℤ pos 5, refl)
mid_of_given [] asks price h = absurd (ground (arith, h.best_bid.listed))
mid_of_given ((p, q) ∷ bids) [] price h = absurd (ground (arith, h.best_ask.listed))

-- A price is given exactly if the book is valid and the price is the middle between the greatest
-- bid and the smallest ask, so that both sides have levels.
pub mid_price_iff :
    (b : OrderBook) (price : ℤ)
    → (mid_price b ≡ ok price) ↔ ((b.valid ≡ true) × IsMiddle price b.bids b.asks)
unfolding mid_price
mid_price_iff b price = (
  mid_of-IsMiddle b.valid b.bids b.asks price,
  λ h.
      let g = mid_of_given b.bids b.asks price h.1 in
      let m = (mid_of-IsMiddle true b.bids b.asks g.0 g.1).1 in
      rw (h.0, IsMiddle-unique price g.0 b.bids b.asks h.1 m) g.1,
)
