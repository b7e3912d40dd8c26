-- ===== src/Governance/Promotion.antt =====
-- governance/domain.py: `_requirements_met` and `evaluate_promotion`.
pub mod Conditions
pub mod Evidence
pub mod Verdict
pub mod Safety
mod Tests
use text.Mathlib.Text.{starts_with}
use liki.Common.{
  ℕ, ◌+◌, ◌*◌, String, Comparable, string_eq, pair_eq, ◌==◌, List, [], ◌∷◌, ◌++◌, map, Option, none,
  some, Bool, true, false, not, ◌&&◌, ◌||◌, ltb, leb, any, select, length, is_empty, is_some,
  contains, intersects, all_distinct, if◌then◌else◌, Result, ok, err, ◌>>=◌,
}
use liki.Governance.Base.{Error, External, Datetime, utc}
use liki.Governance.Evidence.{AutomatedCheck, ApprovalSnapshot, is_fail}
use liki.Governance.Proposal.{
  ChangeClass, green, amber, red, ProposalStatus, reviewing, ready, promoted, vetoed, frozen,
  stale_approval, rejected, status_eq, GovernanceProposal, Classification,
}
use liki.Governance.Review.{
  GovernanceReview, SynthesisRecord, LifecycleEvidence, OwnerDelivery, OwnerDecision, is_unresolved,
  checks, has_failure, lifecycle_hash, check_unique_independence,
}
use liki.Governance.Incident.{Incident, ChangeSet, is_settled, is_untested}

-- One constructor for each reason that `_requirements_met` may give.
pub data Reason : Type 0 where
  too_few_reviews review_mismatch author_reviews undisclosed_correlation no_tests failed_check :
      Reason
  synthesis_not_separate incomplete_lifecycle too_few_audits unresolved_objection : Reason

-- `required_reviews`
abbrev pub required_reviews : ChangeClass → ℕ
required_reviews green = 3
required_reviews amber = 5
required_reviews red = 7

-- The adversarial audits that the last two tests on the class ask for.
abbrev pub required_audits : ChangeClass → ℕ
required_audits green = 0
required_audits amber = 1
required_audits red = 2

-- `final_class in {AMBER, RED}`
abbrev pub is_material : ChangeClass → Bool
is_material green = false
is_material amber = true
is_material red = true

-- `needle in text`
unfoldable pub has_substring : String → String → Bool
has_substring needle String.[] = starts_with "" needle
has_substring needle (String.◌∷◌ c s) =
    starts_with (String.◌∷◌ c s) needle || has_substring needle s

unfoldable pub is_adversarial : External → GovernanceReview → Bool
unfolding has_substring
is_adversarial ext r = has_substring "adversarial" (ext.lower r.profile.reviewer_mandate)

abbrev pub correlation_domain : GovernanceReview → String × (String × String)
correlation_domain r =
    (r.profile.provider_correlation_domain, (r.profile.model_family, r.profile.model_version))

-- `synthesis is None or not synthesis.residual_correlation_limitations`
abbrev pub lacks_disclosure : Option SynthesisRecord → Bool
lacks_disclosure none = true
lacks_disclosure (some s) = is_empty s.residual_correlation_limitations

-- `synthesis is None or synthesis.synthesized_by in {author, classifier}`
abbrev pub lacks_separate_synthesis :
    GovernanceProposal → Classification → Option SynthesisRecord → Bool
lacks_separate_synthesis p c none = true
lacks_separate_synthesis p c (some s) =
    s.synthesized_by == p.authored_by || s.synthesized_by == c.classifier_principal

abbrev pub has_unresolved : GovernanceReview → Bool
has_unresolved r = any (λ o. is_unresolved o.disposition) r.material_objections

-- `if b: reasons.append(reason)`
abbrev pub append_if : Bool → Reason → List Reason → List Reason
append_if b reason reasons = if b then reasons ++ reason ∷ [] else reasons

unfoldable pub requirements_met :
    External
    → Classification
    → GovernanceProposal
    → List GovernanceReview
    → LifecycleEvidence
    → Option SynthesisRecord
    → List Reason
requirements_met ext c p reviews lifecycle synthesis =
    let r0 = append_if (ltb (length reviews) (required_reviews c.final_class)) too_few_reviews [] in
    let r1 =
      append_if (any (λ r. not (r.proposal_id == p.proposal_id)) reviews) review_mismatch r0 in
    let r2 =
      append_if (any (λ r. r.reviewer_principal == p.authored_by) reviews) author_reviews r1 in
    let r3 =
      append_if (not (all_distinct (map correlation_domain reviews)) && lacks_disclosure synthesis)
        undisclosed_correlation r2 in
    let r4 = append_if (is_empty lifecycle.tests) no_tests r3 in
    let r5 = append_if (has_failure lifecycle) failed_check r4 in
    let r6 =
      append_if (is_material c.final_class && lacks_separate_synthesis p c synthesis)
        synthesis_not_separate r5 in
    let r7 =
      append_if
        (is_material c.final_class
          && (is_empty lifecycle.replay
              || is_empty lifecycle.tests
              || is_empty lifecycle.shadow
              || is_empty lifecycle.canary))
        incomplete_lifecycle r6 in
    let r8 =
      append_if (ltb (length (select (is_adversarial ext) reviews)) (required_audits c.final_class))
        too_few_audits r7 in
    append_if (any has_unresolved reviews) unresolved_objection r8

-- `mark_stale_if_snapshot_changed`
unfoldable pub mark_stale_if_snapshot_changed : ApprovalSnapshot → ApprovalSnapshot → Bool
mark_stale_if_snapshot_changed approved current =
    not (approved.snapshot_hash == current.snapshot_hash)

-- `_incident_relevant`
unfoldable pub incident_relevant : Incident → GovernanceProposal → Bool
incident_relevant i p =
    intersects (p.affected_modules ++ p.affected_paths) i.affected_modules
    || not (is_empty i.affected_policy_versions)

abbrev pub decided_elsewhere : GovernanceProposal → Option OwnerDecision → Bool
decided_elsewhere p none = false
decided_elsewhere p (some d) = not (d.proposal_id == p.proposal_id)

abbrev pub is_vetoed : Option OwnerDecision → Bool
is_vetoed none = false
is_vetoed (some d) = d.vetoed

abbrev pub is_approved : Option OwnerDecision → Bool
is_approved none = false
is_approved (some d) = d.approved

abbrev pub change_set_stale : GovernanceProposal → Option ChangeSet → Bool
change_set_stale p none = false
change_set_stale p (some c) =
    not (contains c.proposal_ids p.proposal_id)
    || not (c.approval_snapshot_hash == p.approval_snapshot.snapshot_hash)
    || is_untested c

-- A check failed at the delivery to the owner or later.
abbrev pub failed_after : LifecycleEvidence → Option OwnerDelivery → Bool
failed_after l none = false
failed_after l (some d) =
    any (λ item. is_fail item.result && leb d.delivered_at item.executed_at) (checks l)

-- 24 hours, in microseconds
abbrev pub veto_window : ℕ
veto_window = 24 * 3600 * 1000000

-- `complete_evidence_at is None or delivered_at < complete_evidence_at`
abbrev pub delivered_early : OwnerDelivery → Option ℕ → Bool
delivered_early d none = true
delivered_early d (some complete) = ltb d.delivered_at complete

-- The branches of `evaluate_promotion` on the owner's delivery.
unfoldable pub evaluate_delivery :
    External → GovernanceProposal → LifecycleEvidence → ℕ → Option OwnerDelivery → ProposalStatus
evaluate_delivery ext p l now none = ready
evaluate_delivery ext p l now (some d) =
    if delivered_early d p.complete_evidence_at
    then ready
    else if not (d.lifecycle_snapshot_hash == lifecycle_hash ext l)
    then ready
    else if any (λ check. ltb d.delivered_at check.executed_at) (checks l)
    then ready
    else if ltb now (d.delivered_at + veto_window)
    then ready
    else promoted

abbrev pub is_red : ChangeClass → Bool
is_red red = true
is_red _ = false

-- The branches behind the test for independent reviews.
unfoldable pub evaluate_evidence :
    External
    → GovernanceProposal
    → Classification
    → List GovernanceReview
    → LifecycleEvidence
    → ℕ
    → Option SynthesisRecord
    → Option OwnerDelivery
    → Option OwnerDecision
    → ProposalStatus
evaluate_evidence ext p c reviews l now synthesis delivery decision =
    if failed_after l delivery
    then frozen
    else if not (is_empty (requirements_met ext c p reviews l synthesis))
    then reviewing
    else if is_red c.final_class
    then (if is_approved decision then promoted else ready)
    else evaluate_delivery ext p l now delivery

abbrev pub blocks : GovernanceProposal → Incident → Bool
blocks p i = not (is_settled i.status) && incident_relevant i p

unfoldable pub evaluate_promotion :
    External
    → GovernanceProposal
    → Classification
    → List GovernanceReview
    → LifecycleEvidence
    → ApprovalSnapshot
    → Datetime
    → Option SynthesisRecord
    → Option OwnerDelivery
    → Option OwnerDecision
    → List Incident
    → Option ChangeSet
    → Result Error ProposalStatus
evaluate_promotion ext p c reviews l current now synthesis delivery decision incidents change_set =
    do
      at ← utc now
      ok (
          if not (c.proposal_id == p.proposal_id)
          then rejected
          else if decided_elsewhere p decision
          then rejected
          else if p.status == vetoed || is_vetoed decision
          then vetoed
          else if p.real_money_enablement
          then rejected
          else if any (blocks p) incidents
          then frozen
          else if mark_stale_if_snapshot_changed p.approval_snapshot current
          then stale_approval
          else if change_set_stale p change_set
          then stale_approval
          else elim (check_unique_independence ext reviews) [
            | err _ ↦ rejected
            | ok values ↦ evaluate_evidence ext p c values l at synthesis delivery decision
          ])
