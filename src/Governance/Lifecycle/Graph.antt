-- ===== src/Governance/Lifecycle/Graph.antt =====
-- The diagram that the accepted transitions follow, written as a relation.
use liki.Common.{true, ◌≡◌, refl, arith}
use liki.Governance.Proposal.{
  ProposalStatus, proposed, classified, reviewing, replayed, tested, shadow, canary, ready,
  promoted, monitoring, rolled_back, vetoed, frozen, stale_approval, rejected,
}
use liki.Governance.Lifecycle.{is_allowed}

-- A status that stops a proposal.
pub data IsHalt : ProposalStatus → Type 0 where
  halt_frozen : IsHalt frozen
  halt_stale : IsHalt stale_approval
  halt_vetoed : IsHalt vetoed
  halt_rejected : IsHalt rejected

pub data Edge : ProposalStatus → ProposalStatus → Type 0 where
  classify : Edge proposed classified
  review : Edge classified reviewing
  replay : Edge reviewing replayed
  test : Edge replayed tested
  cast_shadow : Edge tested shadow
  try_canary : Edge shadow canary
  prepare : Edge canary ready
  promote : Edge ready promoted
  monitor : Edge promoted monitoring
  roll_back : Edge promoted rolled_back
  roll_back_late : Edge monitoring rolled_back
  halt : {s t : ProposalStatus} → IsHalt t → Edge s t

ruleset halts = (halt_frozen, halt_stale, halt_vetoed, halt_rejected)

ruleset edges = (
  classify, review, replay, test, cast_shadow, try_canary, prepare, promote, monitor, roll_back,
  roll_back_late,
)

pub Edge-of_allowed : (s t : ProposalStatus) → is_allowed s t ≡ true → Edge s t
unfolding is_allowed
Edge-of_allowed proposed t h = grind (arith, edges, halts, halt)
Edge-of_allowed s t h = grind (arith, edges, halts, halt)

allowed_of_halt : (s : ProposalStatus) {t : ProposalStatus} → IsHalt t → is_allowed s t ≡ true
unfolding is_allowed
allowed_of_halt s halt_frozen = ground arith
allowed_of_halt s halt_stale = ground arith
allowed_of_halt s halt_vetoed = ground arith
allowed_of_halt s halt_rejected = ground arith

pub allowed_of_Edge : {s t : ProposalStatus} → Edge s t → is_allowed s t ≡ true
unfolding is_allowed
allowed_of_Edge classify = refl
allowed_of_Edge review = refl
allowed_of_Edge replay = refl
allowed_of_Edge test = refl
allowed_of_Edge cast_shadow = refl
allowed_of_Edge try_canary = refl
allowed_of_Edge prepare = refl
allowed_of_Edge promote = refl
allowed_of_Edge monitor = refl
allowed_of_Edge roll_back = refl
allowed_of_Edge roll_back_late = refl
allowed_of_Edge {s} (halt h) = allowed_of_halt s h
