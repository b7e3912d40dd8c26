-- ===== src/Finance/Orders/Graph.antt =====
-- The life cycle of an order as relations: which state follows which, and which venue status is kept.
use liki.Common.{
  String, string_eq, Option, none, some, true, contains, ◌≡◌, ◌≢◌, refl, arith, inl, inr,
  Bool-cases, ◌==◌,
}
use liki.Finance.Orders.{
  OrderState, intent, pretrade_validated, submitted, acknowledged, unknown_reconciling,
  partially_filled, amended, cancel_pending, filled, cancelled, rejected, expired, transitions,
  latest_status, state_eq,
}

-- An order that the venue may have and may still fill.
pub data IsWorking : OrderState → Type 0 where
  perhaps_there : IsWorking unknown_reconciling
  there : IsWorking acknowledged
  in_part : IsWorking partially_filled
  as_amended : IsWorking amended
  to_cancel : IsWorking cancel_pending

-- An order that a check or the venue may turn down: not one that was acknowledged as it stands.
pub data IsRefusable : OrderState → Type 0 where
  before_check : IsRefusable intent
  before_send : IsRefusable pretrade_validated
  before_answer : IsRefusable submitted
  without_answer : IsRefusable unknown_reconciling
  after_amend : IsRefusable amended

-- An order that stands at the venue, from which it can expire.
pub data IsStanding : OrderState → Type 0 where
  standing_perhaps : IsStanding unknown_reconciling
  standing_whole : IsStanding acknowledged
  standing_in_part : IsStanding partially_filled

pub data Follows : OrderState → OrderState → Type 0 where
  check : Follows intent pretrade_validated
  send : Follows pretrade_validated submitted
  accept : Follows submitted acknowledged
  find_again : Follows unknown_reconciling acknowledged
  accept_amended : Follows amended acknowledged
  lose_answer : Follows submitted unknown_reconciling
  lose_order : Follows acknowledged unknown_reconciling
  lose_cancel : Follows cancel_pending unknown_reconciling
  amend : Follows partially_filled amended
  ask_cancel : Follows acknowledged cancel_pending
  ask_cancel_rest : Follows partially_filled cancel_pending
  fill : {s : OrderState} → IsWorking s → Follows s filled
  fill_part : {s : OrderState} → IsWorking s → Follows s partially_filled
  cancel : {s : OrderState} → IsWorking s → Follows s cancelled
  refuse : {s : OrderState} → IsRefusable s → Follows s rejected
  expire : {s : OrderState} → IsStanding s → Follows s expired

ruleset kinds = (
  perhaps_there, there, in_part, as_amended, to_cancel, before_check, before_send, before_answer,
  without_answer, after_amend, standing_perhaps, standing_whole, standing_in_part,
)

ruleset steps = (
  check, send, accept, find_again, accept_amended, lose_answer, lose_order, lose_cancel, amend,
  ask_cancel, ask_cancel_rest, fill, fill_part, cancel, refuse, expire,
)

pub Follows-of_allowed : (s t : OrderState) → contains (transitions s) t ≡ true → Follows s t
unfolding transitions
Follows-of_allowed intent t h = grind (arith, kinds, steps)
Follows-of_allowed s t h = grind (arith, kinds, steps)

working_lem :
    {s : OrderState}
    → IsWorking s
    → (contains (transitions s) filled ≡ true)
      × (contains (transitions s) partially_filled ≡ true)
      × (contains (transitions s) cancelled ≡ true)
unfolding transitions
working_lem perhaps_there = (refl, refl, refl)
working_lem there = (refl, refl, refl)
working_lem in_part = (refl, refl, refl)
working_lem as_amended = (refl, refl, refl)
working_lem to_cancel = (refl, refl, refl)

refusable_lem : {s : OrderState} → IsRefusable s → contains (transitions s) rejected ≡ true
unfolding transitions
refusable_lem before_check = refl
refusable_lem before_send = refl
refusable_lem before_answer = refl
refusable_lem without_answer = refl
refusable_lem after_amend = refl

standing_lem : {s : OrderState} → IsStanding s → contains (transitions s) expired ≡ true
unfolding transitions
standing_lem standing_perhaps = refl
standing_lem standing_whole = refl
standing_lem standing_in_part = refl

pub allowed_of_Follows : {s t : OrderState} → Follows s t → contains (transitions s) t ≡ true
unfolding transitions
allowed_of_Follows check = refl
allowed_of_Follows send = refl
allowed_of_Follows accept = refl
allowed_of_Follows find_again = refl
allowed_of_Follows accept_amended = refl
allowed_of_Follows lose_answer = refl
allowed_of_Follows lose_order = refl
allowed_of_Follows lose_cancel = refl
allowed_of_Follows amend = refl
allowed_of_Follows ask_cancel = refl
allowed_of_Follows ask_cancel_rest = refl
allowed_of_Follows (fill h) = (working_lem h).0
allowed_of_Follows (fill_part h) = (working_lem h).1
allowed_of_Follows (cancel h) = (working_lem h).2
allowed_of_Follows (refuse h) = refusable_lem h
allowed_of_Follows (expire h) = standing_lem h

-- The status that an order keeps: the venue's, unless it said nothing or sent an empty text.
pub data Keeps : Option String → Option String → Option String → Type 0 where
  silent : {old : Option String} → Keeps none old old
  empty : {old : Option String} → Keeps (some "") old old
  spoken : {s : String} {old : Option String} → s ≢ "" → Keeps (some s) old (some s)

pub latest_status-Keeps : (raw old : Option String) → Keeps raw old (latest_status raw old)
unfolding latest_status
latest_status-Keeps none old = silent
latest_status-Keeps (some s) old = elim (Bool-cases (s == "")) [
  | inl blank ↦ rw blank (rw ((string_eq.same_iff s "").0 blank) empty)
  | inr text ↦ rw text (spoken (λ e. ground (arith, text, (string_eq.same_iff s "").1 e)))
]

pub latest_status_of_Keeps :
    {raw old new : Option String} → Keeps raw old new → new ≡ latest_status raw old
unfolding latest_status
latest_status_of_Keeps silent = refl
latest_status_of_Keeps empty = refl
latest_status_of_Keeps (spoken {s} h) = ground (arith, string_eq.same_iff s "")
