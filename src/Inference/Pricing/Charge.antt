-- ===== src/Inference/Pricing/Charge.antt =====
-- The cost of an attempt is what is due, rounded up to a millionth of a dollar.
use native.Mathlib.Nat.{lt-div-mul-add, div-mul-le_self, one-le-pow}
use liki.Common.{
  ℕ, ◌+◌, ◌-◌, ◌*◌, ◌/◌, ◌^◌, ◌≤◌, ◌<◌, List, [], ◌∷◌, ◌++◌, some, true, false, All, ◌≡◌, ◌⊎◌, inl,
  inr, refl, arith, Bool-cases,
}
use liki.Common.Int.{ℤ, pos, negsuc, ◌+ℤ◌, ◌*ℤ◌, ◌≤ℤ◌, ◌<ℤ◌, ltb_ℤ, +ℤ_parts}
use liki.Inference.Pricing.{
  AttemptStatus, Usage, PricingTier, PricingPlan, is_billable, within_limit, select_tier,
  cost_components, max_ℤ, round_up, cost,
}

round_up_bounds : (n d : ℕ) → 0 < d → (n ≤ (n + (d - 1)) / d * d) × ((n + (d - 1)) / d * d < n + d)
round_up_bounds n d h = (
  omega (arith, lt-div-mul-add {a = n + (d - 1)} h),
  omega (arith, div-mul-le_self (n + (d - 1)) d),
)

-- The fixed cost and that of the tokens, at the exponent of the latter, and the minimum there.
abbrev pub total_due : PricingPlan → Usage → AttemptStatus → ℤ
total_due p u s = (cost_components p u s).0 *ℤ pos 1000000 +ℤ (cost_components p u s).1

abbrev pub minimum_due : PricingPlan → ℤ
minimum_due p = p.minimum_request_usd *ℤ pos 1000000

-- `c` millionths of a dollar cover the total and the minimum, and one less would not cover both.
pub record IsCharge (p : PricingPlan) (u : Usage) (s : AttemptStatus) (c : ℕ) : Type 0 where
  pub covers_total : total_due p u s ≤ℤ pos (c * 10 ^ p.digits)
  pub covers_minimum : minimum_due p ≤ℤ pos (c * 10 ^ p.digits)
  pub least :
      (pos (c * 10 ^ p.digits) <ℤ total_due p u s +ℤ pos (10 ^ p.digits))
      ⊎ (pos (c * 10 ^ p.digits) <ℤ minimum_due p +ℤ pos (10 ^ p.digits))

max_ℤ_lem : (a b : ℤ) → (a ≤ℤ max_ℤ a b) × (b ≤ℤ max_ℤ a b) × ((max_ℤ a b ≡ a) ⊎ (max_ℤ a b ≡ b))
unfolding max_ℤ
max_ℤ_lem a b = elim (Bool-cases (ltb_ℤ a b)) [
  | inl less ↦ (ground arith, ground arith, inr (ground arith))
  | inr more ↦ (ground arith, ground arith, inl (ground arith))
]

round_up_lem :
    (m : ℤ) (d : ℕ)
    → 0 < d
    → pos 0 ≤ℤ m
    → (c : ℕ) × (round_up m d ≡ pos c) × (m ≤ℤ pos (c * d)) × (pos (c * d) <ℤ m +ℤ pos d)
unfolding round_up
round_up_lem (pos n) d h k =
    let b = round_up_bounds n d h in
    ((n + (d - 1)) / d, refl, omega (arith, b.0), omega (arith, b.1, +ℤ_parts (pos n) (pos d)))
round_up_lem (negsuc n) d h k = absurd (omega arith)

below_either : (y x a b d : ℤ) → y <ℤ x +ℤ d → (x ≡ a) ⊎ (x ≡ b) → (y <ℤ a +ℤ d) ⊎ (y <ℤ b +ℤ d)
below_either y x a b d h (inl e) = inl (ground (arith, +ℤ_parts x d, +ℤ_parts a d))
below_either y x a b d h (inr e) = inr (ground (arith, +ℤ_parts x d, +ℤ_parts b d))

minimum_due_lem : (m : ℤ) → pos 0 ≤ℤ m → pos 0 ≤ℤ m *ℤ pos 1000000
unfolding ◌*ℤ◌
minimum_due_lem (pos n) h = ground arith
minimum_due_lem (negsuc n) h = absurd (omega arith)

-- Where the minimum of the plan is not negative, the cost is the least number of millionths of a
-- dollar that covers both the total and the minimum, whatever the rates, usage and outcome.
pub cost-IsCharge :
    (p : PricingPlan) (u : Usage) (s : AttemptStatus)
    → pos 0 ≤ℤ p.minimum_request_usd
    → (c : ℕ) × (cost p u s ≡ pos c) × IsCharge p u s c
unfolding cost
cost-IsCharge p u s h =
    let m = max_ℤ_lem (total_due p u s) (minimum_due p) in
    let r =
      round_up_lem (max_ℤ (total_due p u s) (minimum_due p)) (10 ^ p.digits)
        (one-le-pow p.digits 10 (omega arith))
        (omega (arith, m.1, minimum_due_lem p.minimum_request_usd h)) in
    (
      r.0,
      r.1,
      record {
        covers_total = omega (arith, m.0, r.2);
        covers_minimum = omega (arith, m.1, r.2);
        least =
            below_either (pos (r.0 * 10 ^ p.digits)) (max_ℤ (total_due p u s) (minimum_due p))
              (total_due p u s) (minimum_due p) (pos (10 ^ p.digits)) r.3 m.2;
      },
    )

nothing_due :
    (p : PricingPlan) (u : Usage) (s : AttemptStatus)
    → is_billable p s ≡ false
    → total_due p u s ≡ pos 0
unfolding cost_components ◌+ℤ◌ ◌*ℤ◌
nothing_due p u s h = rw h refl

-- A failure that the plan does not bill costs the minimum of the plan all the same, rounded up to a
-- millionth of a dollar.
pub cost_unbilled :
    (p : PricingPlan) (u : Usage) (s : AttemptStatus)
    → is_billable p s ≡ false
    → pos 0 ≤ℤ p.minimum_request_usd
    → (c : ℕ) × (cost p u s ≡ pos c)
      × (minimum_due p ≤ℤ pos (c * 10 ^ p.digits))
      × (pos (c * 10 ^ p.digits) <ℤ minimum_due p +ℤ pos (10 ^ p.digits))
cost_unbilled p u s h k =
    let c = cost-IsCharge p u s k in
    let below =
      at_minimum (total_due p u s) (minimum_due p) (c.0 * 10 ^ p.digits) (10 ^ p.digits)
        (nothing_due p u s h) (minimum_due_lem p.minimum_request_usd k) c.2.least in
    (c.0, c.1, c.2.covers_minimum, below)
  where
    at_minimum :
        (t m : ℤ) (y d : ℕ)
        → t ≡ pos 0
        → pos 0 ≤ℤ m
        → (pos y <ℤ t +ℤ pos d) ⊎ (pos y <ℤ m +ℤ pos d)
        → pos y <ℤ m +ℤ pos d
    at_minimum t m y d e f (inl g) = ground (arith, +ℤ_parts t (pos d), +ℤ_parts m (pos d))
    at_minimum t m y d e f (inr g) = g

-- The tier of a number of tokens is the first whose limit is not below it, if there is one.
pub select_tier_first :
    (n : ℕ) (before after : List PricingTier) (t : PricingTier)
    → All (λ b. within_limit n b.up_to_billed_tokens ≡ false) before
    → within_limit n t.up_to_billed_tokens ≡ true
    → select_tier n (before ++ t ∷ after) ≡ some t
unfolding select_tier
select_tier_first n [] after t h k = rw k refl
select_tier_first n (b ∷ before) after t h k = rw h.0 (select_tier_first n before after t h.1 k)
