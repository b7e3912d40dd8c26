-- ===== src/Governance/Promotion/Conditions.antt =====
-- What a promotion demands, stated of the records and not by the tests of the code.
use liki.Common.{
  ℕ, ◌+◌, ◌≤◌, ◌<◌, string_eq, pair_eq, List, [], ◌++◌, map, Option, some, true, false, ◌≡◌, ◌≢◌,
  ◌⊎◌, All, Distinct, length, select, contains, intersects,
}
use liki.Common.Int.{pos}
use liki.Governance.Base.{External, Datetime}
use liki.Governance.Evidence.{ApprovalSnapshot, pass}
use liki.Governance.Proposal.{green, red, vetoed, GovernanceProposal, Classification}
use liki.Governance.Review.{
  GovernanceReview, MaterialObjection, SynthesisRecord, LifecycleEvidence, OwnerDelivery,
  OwnerDecision, is_resolved, correlation_fingerprint, lifecycle_hash, checks,
}
use liki.Governance.Incident.{Incident, ChangeSet, is_settled}
use liki.Governance.Promotion.{
  required_reviews, required_audits, is_adversarial, correlation_domain, veto_window,
}

module _ (ext : External) (c : Classification) (p : GovernanceProposal)
    (reviews : List GovernanceReview) (l : LifecycleEvidence)
    (synthesis : Option SynthesisRecord) where
  -- The reviews, the lifecycle evidence and the synthesis are enough for the class.
  pub record IsSupported : Type 0 where
    pub enough : required_reviews c.final_class ≤ length reviews
    pub on_subject : All (λ r. r.proposal_id ≡ p.proposal_id) reviews
    pub by_others : All (λ r. r.reviewer_principal ≢ p.authored_by) reviews
    pub disclosed :
        Distinct (map correlation_domain reviews)
        ⊎ ((s : SynthesisRecord) × (synthesis ≡ some s) × (s.residual_correlation_limitations ≢ []))
    pub tested : l.tests ≢ []
    pub passing : All (λ k. k.result ≡ pass) (checks l)
    pub separate :
        c.final_class ≢ green
        → (s : SynthesisRecord) × (synthesis ≡ some s)
          × (s.synthesized_by ≢ p.authored_by)
          × (s.synthesized_by ≢ c.classifier_principal)
    pub staged : c.final_class ≢ green → (l.replay ≢ []) × (l.shadow ≢ []) × (l.canary ≢ [])
    pub audited : required_audits c.final_class ≤ length (select (is_adversarial ext) reviews)
    pub settled :
        All
          (λ r.
            All (λ (o : MaterialObjection). is_resolved o.disposition ≡ true) r.material_objections)
          reviews

-- The change set holds the proposal, on the approved snapshot, and tests its interactions.
pub record IsCurrent (p : GovernanceProposal) (s : ChangeSet) : Type 0 where
  pub member : contains s.proposal_ids p.proposal_id ≡ true
  pub same_snapshot : s.approval_snapshot_hash ≡ p.approval_snapshot.snapshot_hash
  pub interactions_tested :
      1 < length s.proposal_ids → (s.interaction_test_artifacts ≢ []) × (s.interaction_tests ≢ [])

-- The delivery came after the evidence was complete, its veto window has passed, and nothing was
-- checked since.
pub record IsDelivered (ext : External) (p : GovernanceProposal) (l : LifecycleEvidence) (now : ℕ)
    (d : OwnerDelivery) : Type 0 where
  pub complete : (at : ℕ) × (p.complete_evidence_at ≡ some at) × (at ≤ d.delivered_at)
  pub same_evidence : d.lifecycle_snapshot_hash ≡ lifecycle_hash ext l
  pub nothing_later : All (λ k. k.executed_at ≤ d.delivered_at) (checks l)
  pub window_passed : d.delivered_at + veto_window ≤ now

-- An incident that is settled or touches neither the proposal's scopes nor a policy version.
abbrev pub IsClear : GovernanceProposal → Incident → Type 0
IsClear p i =
    (is_settled i.status ≡ true)
    ⊎ ((intersects (p.affected_modules ++ p.affected_paths) i.affected_modules ≡ false)
        × (i.affected_policy_versions ≡ []))

module _ (ext : External) (p : GovernanceProposal) (c : Classification)
    (reviews : List GovernanceReview) (l : LifecycleEvidence) (current : ApprovalSnapshot)
    (now : Datetime) (synthesis : Option SynthesisRecord) (delivery : Option OwnerDelivery)
    (decision : Option OwnerDecision) (incidents : List Incident)
    (change_set : Option ChangeSet) where
  -- All that stands between a proposal and its promotion.
  pub record IsPromotable : Type 0 where
    pub at_utc : now.utc_offset ≡ some (pos 0)
    pub same_proposal : c.proposal_id ≡ p.proposal_id
    pub decided_here : (d : OwnerDecision) → decision ≡ some d → d.proposal_id ≡ p.proposal_id
    pub not_vetoed :
        (p.status ≢ vetoed) × ((d : OwnerDecision) → decision ≡ some d → d.vetoed ≡ false)
    pub no_real_money : p.real_money_enablement ≡ false
    pub clear : All (IsClear p) incidents
    pub fresh : p.approval_snapshot.snapshot_hash ≡ current.snapshot_hash
    pub current_set : (s : ChangeSet) → change_set ≡ some s → IsCurrent p s
    pub groups_differ :
        Distinct (map (λ (r : GovernanceReview). r.profile.independence_group_id) reviews)
    pub profiles_differ :
        Distinct (map (λ (r : GovernanceReview). correlation_fingerprint ext r.profile) reviews)
    pub supported : IsSupported ext c p reviews l synthesis
    pub owner_approved :
        c.final_class ≡ red → (d : OwnerDecision) × (decision ≡ some d) × (d.approved ≡ true)
    pub owner_informed :
        c.final_class ≢ red
        → (d : OwnerDelivery) × (delivery ≡ some d) × IsDelivered ext p l now.instant d
