-- ===== src/Governance/Promotion/Safety.antt =====
-- What no evidence can bring about, and that time alone takes no promotion back.
use liki.Common.{◌≤◌, string_eq, List, Option, some, true, ◌≡◌, ◌⊎◌, arith, Result, ok}
use liki.Common.Int.{pos}
use liki.Governance.Base.{Error, External, Datetime, utc}
use liki.Governance.Evidence.{ApprovalSnapshot}
use liki.Governance.Proposal.{
  ProposalStatus, promoted, rejected, vetoed, GovernanceProposal, Classification,
}
use liki.Governance.Review.{
  GovernanceReview, SynthesisRecord, LifecycleEvidence, OwnerDelivery, OwnerDecision,
}
use liki.Governance.Incident.{Incident, ChangeSet}
use liki.Governance.Promotion.{evaluate_promotion}
use liki.Governance.Promotion.Verdict.{evaluate_promotion_iff}

module _ (ext : External) (p : GovernanceProposal) (c : Classification)
    (reviews : List GovernanceReview) (l : LifecycleEvidence) (current : ApprovalSnapshot)
    (synthesis : Option SynthesisRecord) (delivery : Option OwnerDelivery)
    (decision : Option OwnerDecision) (incidents : List Incident)
    (change_set : Option ChangeSet) where
  abbrev answer_at : Datetime → Result Error ProposalStatus
  answer_at now =
      evaluate_promotion ext p c reviews l current now synthesis delivery decision incidents
        change_set

  -- A proposal that enables real money is REJECTED or VETOED, whatever else is given.
  pub evaluate_promotion_real_money :
      (now : Datetime) (s : ProposalStatus)
      → p.real_money_enablement ≡ true
      → answer_at now ≡ ok s
      → (s ≡ rejected) ⊎ (s ≡ vetoed)
  unfolding evaluate_promotion utc
  evaluate_promotion_real_money now s money h = ground arith

  -- With the same inputs, what is PROMOTED at one time is PROMOTED at every later time.
  pub evaluate_promotion_later :
      (now later : Datetime)
      → now.instant ≤ later.instant
      → later.utc_offset ≡ some (pos 0)
      → answer_at now ≡ ok promoted
      → answer_at later ≡ ok promoted
  evaluate_promotion_later now later le aware h =
      let q =
        (evaluate_promotion_iff ext p c reviews l current now synthesis delivery decision incidents
            change_set).0
          h in
      (evaluate_promotion_iff ext p c reviews l current later synthesis delivery decision incidents
          change_set).1
        (record {
          at_utc = aware;
          same_proposal = q.same_proposal;
          decided_here = q.decided_here;
          not_vetoed = q.not_vetoed;
          no_real_money = q.no_real_money;
          clear = q.clear;
          fresh = q.fresh;
          current_set = q.current_set;
          groups_differ = q.groups_differ;
          profiles_differ = q.profiles_differ;
          supported = q.supported;
          owner_approved = q.owner_approved;
          owner_informed = λ n.
              let (d, given, delivered) = q.owner_informed n in
              (
                d,
                given,
                record {
                  complete = delivered.complete;
                  same_evidence = delivered.same_evidence;
                  nothing_later = delivered.nothing_later;
                  window_passed = omega (arith, delivered.window_passed, le);
                },
              );
        })
