-- ===== src/Governance/Lifecycle.antt =====
-- governance/domain.py: `transition_proposal`, the append-only transitions of a proposal.
pub mod Graph
pub mod History
mod Tests
use liki.Common.{
  ℕ, suc, ◌+◌, String, Comparable, ◌==◌, List, [], ◌∷◌, ◌++◌, Option, none, some, Bool, true, false,
  not, ◌&&◌, ltb, nat_beq, is_empty, contains, if◌then◌else◌, Result, ok, err, ◌>>=◌, ◌>>◌,
  raise_if,
}
use liki.Governance.Base.{
  Error, External, Datetime, utc, non_empty, some_items, below_minimum, unserialized_version,
  invalid_transition, promotion_unevaluated, transition_without_evidence,
}
use liki.Governance.Evidence.{ArtifactProvenance}
use liki.Governance.Proposal.{
  ProposalStatus, proposed, classified, reviewing, replayed, tested, shadow, canary, ready,
  promoted, monitoring, rolled_back, vetoed, frozen, stale_approval, rejected, status_eq,
  GovernanceProposal,
}

pub record ProposalStateTransition : Type 0 where
  pub proposal_id : String
  pub proposal_version : ℕ
  pub state_before : ProposalStatus
  pub state_after : ProposalStatus
  pub state_version_before : ℕ
  pub state_version_after : ℕ
  pub actor_principal : String
  pub evidence : List ArtifactProvenance
  pub created_at : ℕ

-- The bounds of the numeric fields, and `_serialized_version_chain`.
unfoldable pub validate_transition : ProposalStateTransition → Result Error ProposalStateTransition
unfolding some_items
validate_transition t = do
  raise_if (ltb t.proposal_version 1) below_minimum
  raise_if (ltb t.state_version_before 1) below_minimum
  raise_if (ltb t.state_version_after 2) below_minimum
  some_items t.evidence
  raise_if (not (nat_beq t.state_version_after (t.state_version_before + 1))) unserialized_version
  ok t

-- `flow.get(proposal.status, set())`
unfoldable pub flow : ProposalStatus → List ProposalStatus
flow proposed = classified ∷ []
flow classified = reviewing ∷ []
flow reviewing = replayed ∷ []
flow replayed = tested ∷ []
flow tested = shadow ∷ []
flow shadow = canary ∷ []
flow canary = ready ∷ []
flow ready = promoted ∷ []
flow promoted = monitoring ∷ rolled_back ∷ []
flow monitoring = rolled_back ∷ []
flow _ = []

abbrev pub universal : List ProposalStatus
universal = frozen ∷ stale_approval ∷ vetoed ∷ rejected ∷ []

-- `to_status in allowed`
unfoldable pub is_allowed : ProposalStatus → ProposalStatus → Bool
unfolding flow
is_allowed from to = contains (flow from ++ universal) to

-- `promotion_evaluation is ProposalStatus.PROMOTED`
abbrev pub is_promotion : Option ProposalStatus → Bool
is_promotion none = false
is_promotion (some s) = s == promoted

unfoldable pub transition_proposal :
    External
    → GovernanceProposal
    → ℕ
    → ProposalStatus
    → String
    → List ArtifactProvenance
    → Datetime
    → Option ProposalStatus
    → Result Error ProposalStateTransition
transition_proposal ext proposal state_version to_status actor evidence now evaluation = do
  at ← utc now
  raise_if (not (is_allowed proposal.status to_status)) invalid_transition
  raise_if (to_status == promoted && not (is_promotion evaluation)) promotion_unevaluated
  raise_if (is_empty evidence) transition_without_evidence
  principal ← non_empty ext actor
  validate_transition (record {
    proposal_id = proposal.proposal_id;
    proposal_version = proposal.proposal_version;
    state_before = proposal.status;
    state_after = to_status;
    state_version_before = state_version;
    state_version_after = state_version + 1;
    actor_principal = principal;
    evidence = evidence;
    created_at = at;
  })
