-- ===== src/Finance/Rounding/Adverse.antt =====
-- Rounding never makes an order larger nor its limit better.
use native.Mathlib.Nat.{lt-div-mul-add, div-mul-le_self}
use liki.Common.{
  ℕ, zero, suc, ◌+◌, ◌-◌, ◌*◌, ◌/◌, ◌≤◌, ◌<◌, Option, none, some, ok, Result-cases, ◌≡◌, ◌∙◌, sym,
  inl, inr, refl, arith,
}
use liki.Common.Int.{ℤ, pos, negsuc, ◌+ℤ◌, ◌*ℤ◌, ◌≤ℤ◌, ◌<ℤ◌, +ℤ_parts}
use liki.Finance.Types.{Side, buy, sell, OrderType, market, limit}
use liki.Finance.Rounding.{
  VenueOrder, InstrumentSpec, neg, floor_to_increment, ceil_to_increment, rounded_limit,
  rounded_price, rounded_order, of_type, valid_spec,
}

pos_times : (a b : ℕ) → pos a *ℤ pos b ≡ pos (a * b)
unfolding ◌*ℤ◌
pos_times a b = ground arith

neg_times : (a b : ℕ) → neg a *ℤ pos b ≤ℤ pos 0
unfolding ◌*ℤ◌
neg_times zero b = ground arith
neg_times (suc a) b = ground arith

floor_bounds :
    (n d : ℕ)
    → 0 < d
    → (floor_to_increment (pos n) (pos d) ≡ pos (n / d * d)) × (n / d * d ≤ n) × (n < n / d * d + d)
unfolding floor_to_increment
floor_bounds n d h = (pos_times (n / d) d, div-mul-le_self n d, lt-div-mul-add {a = n} h)

ceil_bounds :
    (n d : ℕ)
    → 0 < d
    → (ceil_to_increment (pos n) (pos d) ≡ pos ((n + (d - 1)) / d * d))
      × (n ≤ (n + (d - 1)) / d * d)
      × ((n + (d - 1)) / d * d < n + d)
unfolding ceil_to_increment
ceil_bounds n d h = (
  pos_times ((n + (d - 1)) / d) d,
  omega (arith, lt-div-mul-add {a = n + (d - 1)} h),
  omega (arith, div-mul-le_self (n + (d - 1)) d),
)

abbrev pub IsMultiple : ℤ → ℤ → Type 0
IsMultiple r unit = (k : ℕ) × (r ≡ pos k *ℤ unit)

-- A limit that is worse for the order, by less than one tick.
abbrev pub IsWorse : Side → ℤ → ℤ → ℤ → Type 0
IsWorse buy price tick r = (price ≤ℤ r) × (r <ℤ price +ℤ tick)
IsWorse sell price tick r = (r ≤ℤ price) × (price <ℤ r +ℤ tick)

rounded_limit-IsWorse :
    (side : Side) (price tick : ℤ)
    → pos 0 <ℤ price
    → pos 0 <ℤ tick
    → IsWorse side price tick (rounded_limit side price tick)
      × IsMultiple (rounded_limit side price tick) tick
unfolding rounded_limit
rounded_limit-IsWorse buy (pos n) (pos d) h k =
    let b = ceil_bounds n d (omega arith) in
    (
      (rw b.0 (omega (arith, b.1)), rw b.0 (omega (arith, b.2, +ℤ_parts (pos n) (pos d)))),
      ((n + (d - 1)) / d, b.0 ∙ sym (pos_times ((n + (d - 1)) / d) d)),
    )
rounded_limit-IsWorse sell (pos n) (pos d) h k =
    let b = floor_bounds n d (omega arith) in
    (
      (
        rw b.0 (omega (arith, b.1)),
        rw b.0 (omega (arith, b.2, +ℤ_parts (pos (n / d * d)) (pos d))),
      ),
      (n / d, b.0 ∙ sym (pos_times (n / d) d)),
    )
rounded_limit-IsWorse side (negsuc n) tick h k = absurd (omega arith)
rounded_limit-IsWorse side (pos n) (negsuc d) h k = absurd (omega arith)

-- A market order has no limit to round; a limit is positive and is rounded against the order.
abbrev pub IsLimited : OrderType → Side → ℤ → Option ℤ → Option ℤ → Type 0
IsLimited market side tick before after = after ≡ before
IsLimited limit side tick before after =
    (p : ℤ) × (r : ℤ) × (before ≡ some p)
    × (after ≡ some r)
    × (pos 0 <ℤ p)
    × IsWorse side p tick r
    × IsMultiple r tick

-- The quantity is a number of lots, not below the minimum of the venue nor above what was asked for,
-- and less than a lot below that.
pub record IsRounded (o : VenueOrder) (s : InstrumentSpec) (r : VenueOrder) : Type 0 where
  pub in_lots : IsMultiple r.quantity s.lot_size
  pub at_least : s.min_quantity ≤ℤ r.quantity
  pub not_more : r.quantity ≤ℤ o.quantity
  pub near : o.quantity <ℤ r.quantity +ℤ s.lot_size
  pub limited : IsLimited o.order_type o.side s.tick_size o.limit_price r.limit_price

floor-Bounds :
    (q lot low : ℤ)
    → pos 0 <ℤ lot
    → pos 0 <ℤ low
    → low ≤ℤ floor_to_increment q lot
    → (floor_to_increment q lot ≤ℤ q)
      × (q <ℤ floor_to_increment q lot +ℤ lot)
      × IsMultiple (floor_to_increment q lot) lot
unfolding floor_to_increment
floor-Bounds (pos n) (pos d) low h k l =
    let b = floor_bounds n d (omega arith) in
    (
      rw b.0 (omega (arith, b.1)),
      rw b.0 (omega (arith, b.2, +ℤ_parts (pos (n / d * d)) (pos d))),
      (n / d, refl),
    )
floor-Bounds (negsuc n) (pos d) low h k l = absurd (omega (arith, neg_times (suc n / d) d))
floor-Bounds q (negsuc d) low h k l = absurd (omega arith)

of_type-IsLimited :
    (t : OrderType) (side : Side) (before after : Option ℤ) (tick : ℤ)
    → pos 0 <ℤ tick
    → of_type t side before tick ≡ ok after
    → IsLimited t side tick before after
unfolding of_type
of_type-IsLimited market side before after tick h e = ground arith
of_type-IsLimited limit side none after tick h e = absurd (ground arith)
of_type-IsLimited limit side (some p) after tick h e =
    let positive : pos 0 <ℤ p = ground arith in
    let w = rounded_limit-IsWorse side p tick positive h in
    (p, rounded_limit side p tick, refl, ground arith, positive, w.0, w.1)

-- For an instrument that its validator accepts, a rounded order is a whole number of lots, from
-- the minimum of the venue up to what was asked for and less than a lot below it; a limit is on a
-- tick and less than one tick worse than asked for: a buy pays up, a sale receives less.
pub rounded_order-IsRounded :
    (o r : VenueOrder) (s : InstrumentSpec)
    → valid_spec s ≡ ok s
    → rounded_order o s ≡ ok r
    → IsRounded o s r
unfolding rounded_order rounded_price valid_spec
rounded_order-IsRounded o r s v e = elim (Result-cases (rounded_price o s)) [
  | inl (price, found) ↦
      let low : s.min_quantity ≤ℤ floor_to_increment o.quantity s.lot_size = ground arith in
      let b = floor-Bounds o.quantity s.lot_size s.min_quantity (ground arith) (ground arith) low in
      let l =
        of_type-IsLimited o.order_type o.side o.limit_price price s.tick_size (ground arith)
          found in
      let same : r
          ≡ record o { quantity = floor_to_increment o.quantity s.lot_size; limit_price = price } =
        ground arith in
      rw same (record { in_lots = b.2; at_least = low; not_more = b.0; near = b.1; limited = l })
  | inr (x, found) ↦ absurd (ground arith)
]
