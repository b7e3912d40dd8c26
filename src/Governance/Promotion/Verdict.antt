-- ===== src/Governance/Promotion/Verdict.antt =====
-- `evaluate_promotion` answers PROMOTED exactly for a proposal that meets every condition, and what
-- its other answers mean.
use liki.Common.{
  ℕ, String, string_eq, pair_eq, nat_eq, ◌==◌, List, map, Option, none, some, true, false, ◌&&◌,
  ◌≡◌, ◌≢◌, ◌⊎◌, ◌↔◌, inl, inr, refl, arith, ltb, leb, any, all_distinct, all_distinct_iff,
  Distinct, All, All-map, All-of_any, any_of_All, Bool-cases, Option-cases, Result, ok, err,
}
use liki.Common.Int.{pos, int_eq}
use liki.Governance.Base.{Error, External, Datetime, utc, repeated_group, repeated_profile}
use liki.Governance.Evidence.{ApprovalSnapshot, pass, is_fail}
use liki.Governance.Proposal.{
  red, ProposalStatus, promoted, vetoed, status_eq, GovernanceProposal, Classification,
}
use liki.Governance.Review.{
  GovernanceReview, SynthesisRecord, LifecycleEvidence, OwnerDelivery, OwnerDecision, checks,
  lifecycle_hash, correlation_fingerprint, check_unique_independence,
}
use liki.Governance.Incident.{Incident, ChangeSet}
use liki.Governance.Promotion.{
  mark_stale_if_snapshot_changed, incident_relevant, decided_elsewhere, is_vetoed, is_approved,
  change_set_stale, failed_after, evaluate_delivery, is_red, evaluate_evidence, blocks,
  evaluate_promotion,
}
use liki.Governance.Promotion.Conditions.{
  IsSupported, IsCurrent, IsDelivered, IsClear, IsPromotable,
}
use liki.Governance.Promotion.Evidence.{requirements_met_iff}

-- The parts of the ladder, one lemma for each.
IsClear-iff : (p : GovernanceProposal) (i : Incident) → (blocks p i ≡ false) ↔ IsClear p i
unfolding incident_relevant
IsClear-iff p i = (λ h. ground arith, λ h. ground arith)

IsCurrent-iff :
    (p : GovernanceProposal) (s : ChangeSet) → (change_set_stale p (some s) ≡ false) ↔ IsCurrent p s
IsCurrent-iff p s = (
  λ h.
      ground (arith, string_eq.same_iff s.approval_snapshot_hash p.approval_snapshot.snapshot_hash),
  λ h.
      ground (arith, string_eq.same_iff s.approval_snapshot_hash p.approval_snapshot.snapshot_hash),
)

module _ (ext : External) (p : GovernanceProposal) (l : LifecycleEvidence) (now : ℕ) where
  IsDelivered-of_promoted :
      (d : OwnerDelivery)
      → evaluate_delivery ext p l now (some d) ≡ promoted
      → IsDelivered ext p l now d
  unfolding evaluate_delivery
  IsDelivered-of_promoted d h = record {
    complete = elim (Option-cases p.complete_evidence_at) [
      | inl never ↦ absurd (ground arith)
      | inr (at, e) ↦ (at, e, ground (arith, e))
    ];
    same_evidence =
        ground (arith, string_eq.same_iff d.lifecycle_snapshot_hash (lifecycle_hash ext l));
    nothing_later =
        All-map (λ k g. ground arith) (checks l)
          (All-of_any (λ check. ltb d.delivered_at check.executed_at) (checks l) (ground arith));
    window_passed = ground arith;
  }

  promoted_of_delivered :
      (d : OwnerDelivery)
      → IsDelivered ext p l now d
      → evaluate_delivery ext p l now (some d) ≡ promoted
  unfolding evaluate_delivery
  promoted_of_delivered d h =
      let (at, e, early) = h.complete in
      let later =
        any_of_All (λ check. ltb d.delivered_at check.executed_at) (checks l)
          (All-map (λ k g. ground arith) (checks l) h.nothing_later) in
      ground (
        arith,
        e,
        early,
        later,
        string_eq.same_iff d.lifecycle_snapshot_hash (lifecycle_hash ext l),
      )

  promoted_of_given :
      (delivery : Option OwnerDelivery) (d : OwnerDelivery)
      → delivery ≡ some d
      → IsDelivered ext p l now d
      → evaluate_delivery ext p l now delivery ≡ promoted
  promoted_of_given delivery d e h = rw e (promoted_of_delivered d h)

  delivery_iff :
      (delivery : Option OwnerDelivery)
      → (evaluate_delivery ext p l now delivery ≡ promoted)
        ↔ ((d : OwnerDelivery) × (delivery ≡ some d) × IsDelivered ext p l now d)
  unfolding evaluate_delivery
  delivery_iff none = (λ h. cc, λ h. ground arith)
  delivery_iff (some d) =
      (λ h. (d, refl, IsDelivered-of_promoted d h), λ h. promoted_of_given (some d) h.0 h.1 h.2)

module _ (ext : External) (reviews : List GovernanceReview) where
  abbrev groups : List String
  groups = map (λ (r : GovernanceReview). r.profile.independence_group_id) reviews

  abbrev fingerprints : List String
  fingerprints = map (λ (r : GovernanceReview). correlation_fingerprint ext r.profile) reviews

  -- The test raises, or returns the reviews as they are and no group or profile is repeated.
  pub independence_cases :
      ((check_unique_independence ext reviews ≡ ok reviews)
        × Distinct groups
        × Distinct fingerprints)
      ⊎ ((e : Error) × (check_unique_independence ext reviews ≡ err e)
          × (¬ (Distinct groups × Distinct fingerprints)))
  unfolding check_unique_independence
  independence_cases = elim (Bool-cases (all_distinct groups)) [
    | inr same ↦ inr (repeated_group, rw same refl, λ d. ground (arith, all_distinct_iff groups))
    | inl g ↦ elim (Bool-cases (all_distinct fingerprints)) [
      | inl f ↦
          inl (ground arith, (all_distinct_iff groups).0 g, (all_distinct_iff fingerprints).0 f)
      | inr same ↦
          inr (
            repeated_profile,
            rw (g, same) refl,
            λ d. ground (arith, all_distinct_iff fingerprints),
          )
    ]
  ]

failed_after_of_passing :
    (l : LifecycleEvidence) (delivery : Option OwnerDelivery)
    → All (λ k. k.result ≡ pass) (checks l)
    → failed_after l delivery ≡ false
failed_after_of_passing l none h = refl
failed_after_of_passing l (some d) h =
    any_of_All (λ item. is_fail item.result && leb d.delivered_at item.executed_at) (checks l)
      (All-map (λ k g. ground arith) (checks l) h)

approval_of :
    (o : Option OwnerDecision)
    → is_approved o ≡ true
    → (d : OwnerDecision) × (o ≡ some d) × (d.approved ≡ true)
approval_of none h = cc
approval_of (some d) h = (d, refl, h)

Distinct-of_ok :
    (ext : External) (reviews : List GovernanceReview)
    → check_unique_independence ext reviews ≡ ok reviews
    → Distinct (groups ext reviews) × Distinct (fingerprints ext reviews)
Distinct-of_ok ext reviews h = elim (independence_cases ext reviews) [
  | inl (_, g, f) ↦ (g, f)
  | inr (e, raised, _) ↦ absurd (ground (arith, raised))
]

ok_of_Distinct :
    (ext : External) (reviews : List GovernanceReview)
    → Distinct (groups ext reviews) × Distinct (fingerprints ext reviews)
    → check_unique_independence ext reviews ≡ ok reviews
ok_of_Distinct ext reviews d = elim (independence_cases ext reviews) [
  | inl (given, _, _) ↦ given
  | inr (_, _, n) ↦ absurd (n d)
]

module _ (ext : External) (p : GovernanceProposal) (c : Classification)
    (reviews : List GovernanceReview) (l : LifecycleEvidence) (current : ApprovalSnapshot)
    (now : Datetime) (synthesis : Option SynthesisRecord) (delivery : Option OwnerDelivery)
    (decision : Option OwnerDecision) (incidents : List Incident)
    (change_set : Option ChangeSet) where
  abbrev answer : Result Error ProposalStatus
  answer =
      evaluate_promotion ext p c reviews l current now synthesis delivery decision incidents
        change_set

  abbrev late_answer : ProposalStatus
  late_answer = evaluate_evidence ext p c reviews l now.instant synthesis delivery decision

  -- The tests of the ladder, all failed, and the answer of its last part.
  record Passed : Type 0 where
    aware : now.utc_offset ≡ some (pos 0)
    t0 : (c.proposal_id == p.proposal_id) ≡ true
    t1 : decided_elsewhere p decision ≡ false
    t2 : (p.status == vetoed) ≡ false
    t3 : is_vetoed decision ≡ false
    t4 : p.real_money_enablement ≡ false
    t5 : any (blocks p) incidents ≡ false
    t6 : mark_stale_if_snapshot_changed p.approval_snapshot current ≡ false
    t7 : change_set_stale p change_set ≡ false
    t8 : check_unique_independence ext reviews ≡ ok reviews
    t9 : late_answer ≡ promoted

  Passed_of_promoted : answer ≡ ok promoted → Passed
  unfolding evaluate_promotion utc
  Passed_of_promoted h = ground (arith, independence_cases ext reviews, int_eq.same_iff)

  promoted_of_Passed : Passed → answer ≡ ok promoted
  unfolding evaluate_promotion utc
  promoted_of_Passed q = ground (arith, q.t8)

  -- The last part of the ladder.
  late_of_promoted :
      late_answer ≡ promoted
      → IsSupported ext c p reviews l synthesis
        × (c.final_class ≡ red → (d : OwnerDecision) × (decision ≡ some d) × (d.approved ≡ true))
        × (c.final_class ≢ red
            → (d : OwnerDelivery) × (delivery ≡ some d) × IsDelivered ext p l now.instant d)
  unfolding evaluate_evidence
  late_of_promoted h = (
    (requirements_met_iff ext c p reviews l synthesis).0 (ground arith),
    λ e. approval_of decision (ground arith),
    λ n. (delivery_iff ext p l now.instant delivery).0 (ground arith),
  )

  promoted_of_late :
      IsSupported ext c p reviews l synthesis
      → (c.final_class ≡ red → (d : OwnerDecision) × (decision ≡ some d) × (d.approved ≡ true))
      → (c.final_class ≢ red
          → (d : OwnerDelivery) × (delivery ≡ some d) × IsDelivered ext p l now.instant d)
      → late_answer ≡ promoted
  unfolding evaluate_evidence
  promoted_of_late s approved informed =
      let support = (requirements_met_iff ext c p reviews l synthesis).1 s in
      let passing = failed_after_of_passing l delivery s.passing in
      elim (Bool-cases (is_red c.final_class)) [
        | inl r ↦
            let (d, e, yes_given) = approved (ground arith) in
            rw (passing, support, r) (ground (arith, e, yes_given))
        | inr n ↦
            rw (passing, support, n)
              ((delivery_iff ext p l now.instant delivery).1 (informed (ground arith)))
      ]

  IsPromotable_of_Passed :
      Passed
      → IsPromotable ext p c reviews l current now synthesis delivery decision incidents change_set
  unfolding mark_stale_if_snapshot_changed
  IsPromotable_of_Passed q =
      let (support, approval, delivered) = late_of_promoted q.t9 in
      let (groups_differ, profiles_differ) = Distinct-of_ok ext reviews q.t8 in
      record {
        at_utc = q.aware;
        same_proposal = ground (arith, q.t0, string_eq.same_iff c.proposal_id p.proposal_id);
        decided_here =
            λ d e. ground (arith, q.t1, e, string_eq.same_iff d.proposal_id p.proposal_id);
        not_vetoed = (ground (arith, q.t2), λ d e. ground (arith, q.t3, e));
        no_real_money = q.t4;
        clear =
            All-map (λ i h. (IsClear-iff p i).0 h) incidents (All-of_any (blocks p) incidents q.t5);
        fresh = ground (
          arith,
          q.t6,
          string_eq.same_iff p.approval_snapshot.snapshot_hash current.snapshot_hash,
        );
        current_set = λ s e. (IsCurrent-iff p s).0 (rw e at q.t7);
        groups_differ = groups_differ;
        profiles_differ = profiles_differ;
        supported = support;
        owner_approved = approval;
        owner_informed = delivered;
      }

  Passed_of_IsPromotable :
      IsPromotable ext p c reviews l current now synthesis delivery decision incidents change_set
      → Passed
  unfolding mark_stale_if_snapshot_changed
  Passed_of_IsPromotable q = record {
    aware = q.at_utc;
    t0 = ground (arith, q.same_proposal, string_eq.same_iff c.proposal_id p.proposal_id);
    t1 = elim (Option-cases decision) [
      | inl e ↦ rw e
      | inr (d, e) ↦
          ground (arith, e, q.decided_here d e, string_eq.same_iff d.proposal_id p.proposal_id)
    ];
    t2 = ground (arith, q.not_vetoed);
    t3 = elim (Option-cases decision) [
      | inl e ↦ rw e
      | inr (d, e) ↦ ground (arith, e, q.not_vetoed.1 d e)
    ];
    t4 = q.no_real_money;
    t5 = any_of_All (blocks p) incidents (All-map (λ i h. (IsClear-iff p i).1 h) incidents q.clear);
    t6 = ground (
      arith,
      q.fresh,
      string_eq.same_iff p.approval_snapshot.snapshot_hash current.snapshot_hash,
    );
    t7 = elim (Option-cases change_set) [
      | inl e ↦ rw e
      | inr (s, e) ↦ rw e ((IsCurrent-iff p s).1 (q.current_set s e))
    ];
    t8 = ok_of_Distinct ext reviews (q.groups_differ, q.profiles_differ);
    t9 = promoted_of_late q.supported q.owner_approved q.owner_informed;
  }

  pub evaluate_promotion_iff :
      (answer ≡ ok promoted)
      ↔ IsPromotable ext p c reviews l current now synthesis delivery decision incidents change_set
  evaluate_promotion_iff = (
    λ h. IsPromotable_of_Passed (Passed_of_promoted h),
    λ q. promoted_of_Passed (Passed_of_IsPromotable q),
  )
