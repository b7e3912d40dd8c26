-- ===== src/Governance/Promotion/Evidence.antt =====
-- `_requirements_met` gives no reason exactly when the evidence supports the proposal.
use liki.Common.{
  string_eq, pair_eq, ◌==◌, List, [], ◌∷◌, map, Option, none, some, Bool, true, false, not, ◌&&◌,
  ◌||◌, ◌≡◌, ◌≢◌, ◌↔◌, inl, inr, refl, arith, ltb, any, is_empty, length, select, all_distinct,
  all_distinct_iff, All-map, All-of_any, any_of_All, Bool-cases,
}
use liki.Governance.Base.{External}
use liki.Governance.Evidence.{is_fail}
use liki.Governance.Proposal.{GovernanceProposal, Classification}
use liki.Governance.Review.{
  GovernanceReview, SynthesisRecord, LifecycleEvidence, is_unresolved, checks, has_failure,
}
use liki.Governance.Promotion.{
  Reason, required_reviews, required_audits, is_adversarial, is_material, correlation_domain,
  append_if, requirements_met, lacks_disclosure, lacks_separate_synthesis, has_unresolved,
}
use liki.Governance.Promotion.Conditions.{IsSupported}

is_empty-append_if :
    (b : Bool) (r : Reason) (rs : List Reason)
    → is_empty (append_if b r rs) ≡ (is_empty rs && not b)
is_empty-append_if true r [] = refl
is_empty-append_if true r (x ∷ rs) = refl
is_empty-append_if false r [] = refl
is_empty-append_if false r (x ∷ rs) = refl

and_not : (a b : Bool) → (a && not b) ≡ true → (a ≡ true) × (b ≡ false)
and_not a b h = ground arith

disclosure_of :
    (o : Option SynthesisRecord)
    → lacks_disclosure o ≡ false
    → (s : SynthesisRecord) × (o ≡ some s) × (s.residual_correlation_limitations ≢ [])
disclosure_of none h = cc
disclosure_of (some s) h = (s, refl, ground arith)

separate_of :
    (p : GovernanceProposal) (c : Classification) (o : Option SynthesisRecord)
    → lacks_separate_synthesis p c o ≡ false
    → (s : SynthesisRecord) × (o ≡ some s)
      × (s.synthesized_by ≢ p.authored_by)
      × (s.synthesized_by ≢ c.classifier_principal)
separate_of p c none h = cc
separate_of p c (some s) h = (
  s,
  refl,
  ground (arith, string_eq.same_iff s.synthesized_by p.authored_by),
  ground (arith, string_eq.same_iff s.synthesized_by c.classifier_principal),
)

module _ (ext : External) (c : Classification) (p : GovernanceProposal)
    (reviews : List GovernanceReview) (l : LifecycleEvidence)
    (synthesis : Option SynthesisRecord) where
  -- The tests of the code, each of which must fail.
  pub record Passed : Type 0 where
    p0 : ltb (length reviews) (required_reviews c.final_class) ≡ false
    p1 : any (λ r. not (r.proposal_id == p.proposal_id)) reviews ≡ false
    p2 : any (λ r. r.reviewer_principal == p.authored_by) reviews ≡ false
    p3 : (not (all_distinct (map correlation_domain reviews)) && lacks_disclosure synthesis) ≡ false
    p4 : is_empty l.tests ≡ false
    p5 : has_failure l ≡ false
    p6 : (is_material c.final_class && lacks_separate_synthesis p c synthesis) ≡ false
    p7 :
        (is_material c.final_class
          && (is_empty l.replay || is_empty l.tests || is_empty l.shadow || is_empty l.canary))
        ≡ false
    p8 : ltb (length (select (is_adversarial ext) reviews)) (required_audits c.final_class) ≡ false
    p9 : any has_unresolved reviews ≡ false

  Passed_of_empty : is_empty (requirements_met ext c p reviews l synthesis) ≡ true → Passed
  unfolding requirements_met
  Passed_of_empty h =
      let (a9, b9) = and_not _ _ (simp is_empty-append_if at h) in
      let (a8, b8) = and_not _ _ a9 in
      let (a7, b7) = and_not _ _ a8 in
      let (a6, b6) = and_not _ _ a7 in
      let (a5, b5) = and_not _ _ a6 in
      let (a4, b4) = and_not _ _ a5 in
      let (a3, b3) = and_not _ _ a4 in
      let (a2, b2) = and_not _ _ a3 in
      let (a1, b1) = and_not _ _ a2 in
      let (a0, b0) = and_not true _ a1 in
      record {
        p0 = b0;
        p1 = b1;
        p2 = b2;
        p3 = b3;
        p4 = b4;
        p5 = b5;
        p6 = b6;
        p7 = b7;
        p8 = b8;
        p9 = b9;
      }

  empty_of_Passed : Passed → is_empty (requirements_met ext c p reviews l synthesis) ≡ true
  unfolding requirements_met
  empty_of_Passed q =
      simp is_empty-append_if (rw (q.p0, q.p1, q.p2, q.p3, q.p6, q.p7, q.p4, q.p5, q.p8, q.p9) refl)

  IsSupported_of_Passed : Passed → IsSupported ext c p reviews l synthesis
  unfolding has_failure
  IsSupported_of_Passed q = record {
    enough = ground (arith, q.p0);
    on_subject =
        All-map (λ r h. ground (arith, string_eq.same_iff r.proposal_id p.proposal_id)) reviews
          (All-of_any (λ r. not (r.proposal_id == p.proposal_id)) reviews q.p1);
    by_others =
        All-map (λ r h. ground (arith, string_eq.same_iff r.reviewer_principal p.authored_by))
          reviews (All-of_any (λ r. r.reviewer_principal == p.authored_by) reviews q.p2);
    disclosed = elim (Bool-cases (all_distinct (map correlation_domain reviews))) [
      | inl differ ↦ inl ((all_distinct_iff (map correlation_domain reviews)).0 differ)
      | inr shared ↦ inr (disclosure_of synthesis (ground (arith, q.p3)))
    ];
    tested = ground (arith, q.p4);
    passing =
        All-map (λ k h. ground arith) (checks l)
          (All-of_any (λ item. is_fail item.result) (checks l) q.p5);
    separate = λ material. separate_of p c synthesis (ground (arith, q.p6));
    staged = ground (arith, q.p7);
    audited = ground (arith, q.p8);
    settled =
        All-map
          (λ r h.
            All-map (λ o g. ground arith) r.material_objections
              (All-of_any (λ o. is_unresolved o.disposition) r.material_objections h))
          reviews (All-of_any has_unresolved reviews q.p9);
  }

  Passed_of_IsSupported : IsSupported ext c p reviews l synthesis → Passed
  unfolding has_failure
  Passed_of_IsSupported q = record {
    p0 = ground (arith, q.enough);
    p1 =
        any_of_All (λ r. not (r.proposal_id == p.proposal_id)) reviews
          (All-map (λ r h. ground (arith, string_eq.same_iff r.proposal_id p.proposal_id)) reviews
            q.on_subject);
    p2 =
        any_of_All (λ r. r.reviewer_principal == p.authored_by) reviews
          (All-map (λ r h. ground (arith, string_eq.same_iff r.reviewer_principal p.authored_by))
            reviews q.by_others);
    p3 = elim q.disclosed [
      | inl differ ↦ rw ((all_distinct_iff (map correlation_domain reviews)).1 differ)
      | inr (s, given, limits) ↦ ground (arith, given)
    ];
    p4 = ground (arith, q.tested);
    p5 =
        any_of_All (λ item. is_fail item.result) (checks l)
          (All-map (λ k h. ground arith) (checks l) q.passing);
    p6 = elim (Bool-cases (is_material c.final_class)) [
      | inr light ↦ rw light
      | inl material ↦
          let (s, given, other, third) = q.separate (ground arith) in
          ground (
            arith,
            given,
            string_eq.same_iff s.synthesized_by p.authored_by,
            string_eq.same_iff s.synthesized_by c.classifier_principal,
          )
    ];
    p7 = ground (arith, q.staged, q.tested);
    p8 = ground (arith, q.audited);
    p9 = any_of_All has_unresolved reviews (
        All-map
          (λ r h.
            any_of_All (λ o. is_unresolved o.disposition) r.material_objections
              (All-map (λ o g. ground arith) r.material_objections h))
          reviews q.settled);
  }

  pub requirements_met_iff :
      (is_empty (requirements_met ext c p reviews l synthesis) ≡ true)
      ↔ IsSupported ext c p reviews l synthesis
  requirements_met_iff = (
    λ h. IsSupported_of_Passed (Passed_of_empty h),
    λ s. empty_of_Passed (Passed_of_IsSupported s),
  )
