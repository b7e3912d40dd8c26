-- ===== src/Governance/Proposal.antt =====
-- governance/domain.py: proposals, their severity classes and statuses, and classifications.
use liki.Common.{
  ℕ, String, List, Option, Bool, true, Comparable, nat_beq, ltb, ◌≡◌, ◌↔◌, arith, Result, ok, ◌>>◌,
  raise_if,
}
use liki.Governance.Base.{Error, floor_downgrade}
use liki.Governance.Evidence.{EvidenceReference, ApprovalSnapshot}

pub data ChangeClass : Type 0 where
  green amber red : ChangeClass

-- `_severity_rank`, and `_rank` of governance/policy.py
abbrev pub severity_rank : ChangeClass → ℕ
severity_rank green = 0
severity_rank amber = 1
severity_rank red = 2

pub data ProposalStatus : Type 0 where
  proposed classified reviewing replayed tested shadow canary ready promoted : ProposalStatus
  monitoring rolled_back vetoed frozen stale_approval rejected : ProposalStatus

-- The place of a status in the enumeration, by which statuses are compared.
abbrev pub status_index : ProposalStatus → ℕ
status_index proposed = 0
status_index classified = 1
status_index reviewing = 2
status_index replayed = 3
status_index tested = 4
status_index shadow = 5
status_index canary = 6
status_index ready = 7
status_index promoted = 8
status_index monitoring = 9
status_index rolled_back = 10
status_index vetoed = 11
status_index frozen = 12
status_index stale_approval = 13
status_index rejected = 14

abbrev pub status_beq : ProposalStatus → ProposalStatus → Bool
status_beq a b = nat_beq (status_index a) (status_index b)

pub status_beq_iff : (a b : ProposalStatus) → (status_beq a b ≡ true) ↔ (a ≡ b)
status_beq_iff a b = ground arith

instance abbrev pub status_eq : Comparable ProposalStatus
status_eq = record { same = status_beq; same_iff = status_beq_iff }

pub record GovernanceProposal : Type 0 where
  pub proposal_id : String
  pub proposal_version : ℕ
  pub authored_by : String
  pub declared_class : ChangeClass
  pub problem : String
  pub proposed_change : String
  pub affected_modules : List String
  pub affected_paths : List String
  pub protected_controls : List String
  pub evidence : List EvidenceReference
  pub counterevidence : List EvidenceReference
  pub historical_replay_plan : String
  pub risk_if_changed : String
  pub risk_if_not_changed : String
  pub rollback_plan : String
  pub owner_attention_required : Bool
  pub real_money_enablement : Bool
  pub approval_snapshot : ApprovalSnapshot
  pub status : ProposalStatus
  pub created_at : ℕ
  pub classification_source : Option String
  pub complete_evidence_at : Option ℕ
  pub owner_notification_delivered_at : Option ℕ
  pub promotion_eligible_at : Option ℕ
  pub owner_veto_at : Option ℕ
  pub owner_approval_at : Option ℕ
  pub promoted_at : Option ℕ
  pub rollback_policy_id : Option String

pub record Classification : Type 0 where
  pub proposal_id : String
  pub policy_id : String
  pub policy_version : String
  pub classifier_principal : String
  pub deterministic_floor : ChangeClass
  pub final_class : ChangeClass
  pub matched_controls : List String
  pub policy_content_hash : String
  pub classified_at : ℕ

-- `_cannot_downgrade_floor`
unfoldable pub validate_classification : Classification → Result Error Classification
validate_classification c = do
  raise_if (ltb (severity_rank c.final_class) (severity_rank c.deterministic_floor)) floor_downgrade
  ok c
