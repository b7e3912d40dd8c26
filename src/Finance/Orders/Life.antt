-- ===== src/Finance/Orders/Life.antt =====
-- The life of an order: what is filled, and where it ends.
use liki.Common.{
  String, List, [], ◌∷◌, Option, none, true, false, contains, ◌≡◌, ◌↔◌, ◌⊎◌, inl, refl, ok, arith,
}
use liki.Common.Int.{ℤ, pos, ◌+ℤ◌, ◌≤ℤ◌, ◌<ℤ◌, eq_of_parts, +ℤ_parts, int_eq}
use liki.Finance.Orders.Graph.{
  Follows, Follows-of_allowed, allowed_of_Follows, Keeps, latest_status-Keeps,
  latest_status_of_Keeps,
}
use liki.Finance.Orders.{
  OrderState, OrderIntent, OrderRecord, filled, partially_filled, pretrade_validated, terminal,
  transitions, new_order, transition, state_eq, state_beq, state_beq_iff, latest_status,
}

-- A transition that is accepted.
pub record Passes (o : OrderRecord) (target : OrderState) (raw : Option String) (fill : ℤ)
    (p : OrderRecord) : Type 0 where
  pub allowed : Follows o.state target
  pub adds : pos 0 ≤ℤ fill
  pub same_intent : p.order_intent ≡ o.order_intent
  pub reported : Keeps raw o.raw_venue_status p.raw_venue_status
  pub arrives : p.state ≡ target
  pub total : p.filled_quantity ≡ o.filled_quantity +ℤ fill
  pub within : p.filled_quantity ≤ℤ o.order_intent.quantity
  pub complete : target ≡ filled → p.filled_quantity ≡ o.order_intent.quantity
  pub partial :
      target ≡ partially_filled
      → (pos 0 <ℤ p.filled_quantity) × (p.filled_quantity <ℤ o.order_intent.quantity)

transition-Passes :
    (o p : OrderRecord) (target : OrderState) (raw : Option String) (fill : ℤ)
    → transition o target raw fill ≡ ok p
    → Passes o target raw fill p
unfolding transition
transition-Passes o p target raw fill h =
    let e : p.raw_venue_status ≡ latest_status raw o.raw_venue_status = ground arith in
    record {
      allowed = Follows-of_allowed o.state target (ground arith);
      adds = ground arith;
      same_intent = ground arith;
      reported = rw e (latest_status-Keeps raw o.raw_venue_status);
      arrives = ground arith;
      total = ground arith;
      within = ground arith;
      complete = λ e. ground (arith, state_beq_iff target filled, int_eq.same_iff);
      partial = λ e. ground (arith, state_beq_iff target partially_filled);
    }

transition_passed :
    (o p : OrderRecord) (target : OrderState) (raw : Option String) (fill : ℤ)
    → Passes o target raw fill p
    → transition o target raw fill ≡ ok p
unfolding transition
transition_passed o p target raw fill h = ground (
  arith,
  allowed_of_Follows h.allowed,
  h.adds,
  h.same_intent,
  latest_status_of_Keeps h.reported,
  h.arrives,
  h.total,
  h.within,
  h.complete,
  h.partial,
  state_beq_iff target filled,
  state_beq_iff target partially_filled,
  int_eq.same_iff (o.filled_quantity +ℤ fill) o.order_intent.quantity,
)

-- A transition is accepted exactly when the target follows the state in the life cycle, the fill is
-- not negative and does not exceed what is left, a filled order is filled wholly and a partially
-- filled one strictly between; then the state and the sum are recorded, and the venue's status unless
-- there is none or it is empty.
pub transition_iff :
    (o p : OrderRecord) (target : OrderState) (raw : Option String) (fill : ℤ)
    → (transition o target raw fill ≡ ok p) ↔ Passes o target raw fill p
transition_iff o p target raw fill =
    (transition-Passes o p target raw fill, transition_passed o p target raw fill)

-- The orders that a new order becomes, with the fills, the last one first.
pub data Life : OrderRecord → OrderRecord → List ℤ → Type 0 where
  born : {o : OrderRecord} → Life o o []
  moved :
      {o p q : OrderRecord} {fills : List ℤ} (target : OrderState) (raw : Option String) (fill : ℤ)
      → Life o p fills
      → transition p target raw fill ≡ ok q
      → Life o q (fill ∷ fills)

abbrev pub total_of : List ℤ → ℤ
total_of [] = pos 0
total_of (x ∷ xs) = total_of xs +ℤ x

-- The books of an order: the filled quantity is between nothing and the whole, is the whole of a
-- filled order, and is neither for one that is partially filled.
pub record IsOrder (i : OrderIntent) (o : OrderRecord) (fills : List ℤ) : Type 0 where
  pub same_intent : o.order_intent ≡ i
  pub not_negative : pos 0 ≤ℤ o.filled_quantity
  pub not_over : o.filled_quantity ≤ℤ i.quantity
  pub all_counted : o.filled_quantity ≡ total_of fills
  pub filled_whole : (state_beq o.state filled ≡ false) ⊎ (o.filled_quantity ≡ i.quantity)
  pub partial_strict :
      (state_beq o.state partially_filled ≡ false)
      ⊎ ((pos 0 <ℤ o.filled_quantity) × (o.filled_quantity <ℤ i.quantity))

-- Whatever transitions an order of positive quantity has passed, its filled quantity is the sum of
-- the fills, from zero to the quantity; a filled order is filled wholly, and a partially filled one
-- is strictly between.
pub Life-IsOrder :
    (i : OrderIntent) {o : OrderRecord} {fills : List ℤ}
    → pos 0 ≤ℤ i.quantity
    → Life (new_order i) o fills
    → IsOrder i o fills
unfolding new_order
Life-IsOrder i h born = record {
  same_intent = refl;
  not_negative = omega arith;
  not_over = h;
  all_counted = refl;
  filled_whole = inl refl;
  partial_strict = inl refl;
}
Life-IsOrder i h (moved {p} {q} target raw fill life e) =
    let k = Life-IsOrder i h life in
    let t = transition-Passes p q target raw fill e in
    record {
      same_intent = cc (k.same_intent, t.same_intent);
      not_negative =
          ground (arith, k.not_negative, t.adds, t.total, +ℤ_parts p.filled_quantity fill);
      not_over = ground (arith, t.within, k.same_intent);
      all_counted = cc (k.all_counted, t.total);
      filled_whole =
          ground (arith, t.complete, t.arrives, k.same_intent, state_beq_iff target filled);
      partial_strict =
          ground
            (arith, t.partial, t.arrives, k.same_intent, state_beq_iff target partially_filled);
    }

no_transition :
    (s target : OrderState)
    → contains terminal s ≡ true
    → contains (transitions s) target ≡ true
    → ⊥
unfolding terminal transitions
no_transition s target h e = ground arith

-- An order that is filled, cancelled, rejected or expired stays as it is: no transition of it is
-- accepted.
pub Life_terminal :
    (o : OrderRecord) {p : OrderRecord} {fills : List ℤ}
    → contains terminal o.state ≡ true
    → Life o p fills
    → (p ≡ o) × (fills ≡ [])
Life_terminal o h born = (refl, refl)
Life_terminal o h (moved {p} {q} target raw fill life e) =
    let k = Life_terminal o h life in
    let t = transition-Passes p q target raw fill e in
    absurd (no_transition p.state target (rw k.0 h) (allowed_of_Follows t.allowed))

-- An order that was never sent takes a fill with its validation, whatever the amount up to the
-- whole quantity.
pub transition_unsent :
    (i : OrderIntent) (fill : ℤ)
    → pos 0 ≤ℤ fill
    → fill ≤ℤ i.quantity
    → (o : OrderRecord) × (transition (new_order i) pretrade_validated none fill ≡ ok o)
      × (o.filled_quantity ≡ fill)
unfolding transition transitions new_order latest_status
transition_unsent i fill h k = (
  record (new_order i) { state = pretrade_validated; filled_quantity = pos 0 +ℤ fill },
  ground (arith, +ℤ_parts (pos 0) fill),
  eq_of_parts (pos 0 +ℤ fill) fill (omega (arith, +ℤ_parts (pos 0) fill)),
)
