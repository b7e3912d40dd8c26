-- ===== src/Data/OrderBook/Levels.antt =====
-- One side of the book as a map from prices to quantities, and what `_apply` makes of it.
use liki.Common.{
  [], ◌∷◌, Option, none, some, Bool, true, ◌&&◌, all, if◌then◌else◌, ◌≡◌, refl, ◌↔◌, ok, arith,
}
use liki.Common.Int.{ℤ, pos, ltb_ℤ, leb_ℤ, beq_ℤ, beq_ℤ_iff, ◌<ℤ◌}
use liki.Data.OrderBook.{Levels, pop, set, apply_levels}

abbrev pub quantity_at : ℤ → Levels → Option ℤ
quantity_at p [] = none
quantity_at p ((r, q) ∷ levels) = if beq_ℤ r p then some q else quantity_at p levels

-- Prices and quantities are positive, and no price occurs twice.
abbrev pub IsSide : Levels → Type 0
IsSide [] = Unit
IsSide ((p, q) ∷ levels) =
    (pos 0 <ℤ p) × (pos 0 <ℤ q) × (quantity_at p levels ≡ none) × IsSide levels

-- The quantity that a list of changes leaves at a price that had the first one; zero removes it.
abbrev pub changed : ℤ → Levels → Option ℤ → Option ℤ
changed p [] before = before
changed p ((r, q) ∷ changes) before =
    changed p changes (if beq_ℤ r p then if beq_ℤ q (pos 0) then none else some q else before)

-- The changes that are accepted.
abbrev pub is_legal : Levels → Bool
is_legal changes = all (λ c. ltb_ℤ (pos 0) c.0 && leb_ℤ (pos 0) c.1) changes

quantity_at-pop :
    (p r : ℤ) (levels : Levels)
    → IsSide levels
    → quantity_at p (pop r levels) ≡ (if beq_ℤ r p then none else quantity_at p levels)
unfolding pop
quantity_at-pop p r [] h = ground arith
quantity_at-pop p r ((s, q) ∷ levels) h =
    ground (arith, quantity_at-pop p r levels h.3, beq_ℤ_iff s r, beq_ℤ_iff r p, beq_ℤ_iff s p)

quantity_at-set :
    (p r q : ℤ) (levels : Levels)
    → quantity_at p (set r q levels) ≡ (if beq_ℤ r p then some q else quantity_at p levels)
unfolding set
quantity_at-set p r q [] = refl
quantity_at-set p r q ((s, t) ∷ levels) =
    ground (arith, quantity_at-set p r q levels, beq_ℤ_iff s r, beq_ℤ_iff r p, beq_ℤ_iff s p)

pop-IsSide : (r : ℤ) (levels : Levels) → IsSide levels → IsSide (pop r levels)
unfolding pop
pop-IsSide r [] h = tt
pop-IsSide r ((s, q) ∷ levels) h =
    ground (arith, pop-IsSide r levels h.3, quantity_at-pop s r levels h.3)

set-IsSide :
    (r q : ℤ) (levels : Levels)
    → (pos 0 <ℤ r)
    → (pos 0 <ℤ q)
    → IsSide levels
    → IsSide (set r q levels)
unfolding set
set-IsSide r q [] hr hq h = (hr, hq, refl, tt)
set-IsSide r q ((s, t) ∷ levels) hr hq h = ground (
  arith,
  set-IsSide r q levels hr hq h.3,
  quantity_at-set s r q levels,
  beq_ℤ_iff s r,
  beq_ℤ_iff r s,
)

-- Whatever the changes are, and whether or not they are all taken.
pub apply_levels-IsSide :
    (levels changes : Levels) → IsSide levels → IsSide (apply_levels levels changes).0
unfolding apply_levels
apply_levels-IsSide levels [] h = h
apply_levels-IsSide levels ((r, q) ∷ changes) h = ground (
  arith,
  apply_levels-IsSide (pop r levels) changes,
  pop-IsSide r levels h,
  apply_levels-IsSide (set r q levels) changes,
  set-IsSide r q levels,
)

-- The call raises nothing exactly when every change is accepted.
pub apply_levels_iff :
    (levels changes : Levels)
    → ((apply_levels levels changes).1 ≡ ok tt) ↔ (is_legal changes ≡ true)
unfolding apply_levels
apply_levels_iff levels [] = (λ h. refl, λ h. refl)
apply_levels_iff levels ((r, q) ∷ changes) =
    ground
      (arith, apply_levels_iff (pop r levels) changes, apply_levels_iff (set r q levels) changes)

-- Accepted changes leave at each price the quantity of its last change, and nothing for a zero.
pub quantity_at-apply_levels :
    (p : ℤ) (levels changes : Levels)
    → IsSide levels
    → is_legal changes ≡ true
    → quantity_at p (apply_levels levels changes).0 ≡ changed p changes (quantity_at p levels)
unfolding apply_levels
quantity_at-apply_levels p levels [] h legal = refl
quantity_at-apply_levels p levels ((r, q) ∷ changes) h legal = ground (
  arith,
  quantity_at-apply_levels p (pop r levels) changes (pop-IsSide r levels h),
  quantity_at-pop p r levels h,
  quantity_at-apply_levels p (set r q levels) changes,
  set-IsSide r q levels,
  quantity_at-set p r q levels,
)
