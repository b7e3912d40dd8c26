-- ===== src/Governance/Classify/Record.antt =====
-- What a classification records: the floor of the triggered controls, the larger of the floor and
-- the declared class, and the matched controls as a sorted list without repetition.
use liki.Common.{
  Among, String, string_eq, some, ◌==◌, [], ◌∷◌, true, false, ◌≤◌, ◌≡◌, refl, ◌≢◌, ◌⊎◌, ◌||◌, ◌&&◌,
  arith, contains, to_set, Distinct, to_set-Distinct, contains-to_set, All, if◌then◌else◌, ok, leb,
  All-map, contains-append, ◌∙◌,
}
use Prim.Native.Nat.{max}
use liki.Common.Sorting.{
  sort_by, str_leb, IsSorted, sort_by-IsSorted, str_leb_total, sort_by-Distinct, contains-sort_by,
}
use liki.Common.Int.{pos}
use liki.Governance.Base.{External, Datetime, utc, non_empty}
use liki.Governance.Proposal.{
  ChangeClass, red, green, severity_rank, GovernanceProposal, Classification,
  validate_classification,
}
use liki.Governance.Policy.{GovernancePolicy, triggers, floor_for, floor_from}
use liki.Governance.Classify.{proposal_floor, classify_proposal}
use liki.Governance.Classify.Floor.{
  triggered_ids, floor_from_matched, floor_from_upper, floor_from_attained,
}

module _ (ext : External) (p : GovernanceProposal) (policy : GovernancePolicy) (who : String)
    (now : Datetime) where
  abbrev floor : ChangeClass
  floor = (proposal_floor policy p).0

  -- The parts of a classification that was accepted.
  record Accepted (c : Classification) : Type 0 where
    other_author : who ≢ p.authored_by
    floor_kept : c.deterministic_floor ≡ floor
    final_taken : c.final_class ≡ (
        if leb (severity_rank floor) (severity_rank p.declared_class)
        then p.declared_class
        else floor)
    controls_kept : c.matched_controls ≡ sort_by str_leb (to_set (proposal_floor policy p).1)

  classify_proposal-Accepted :
      (c : Classification) → classify_proposal ext p policy who now ≡ ok c → Accepted c
  unfolding classify_proposal validate_classification non_empty utc
  classify_proposal-Accepted c h = ground (arith, string_eq.same_iff who p.authored_by)

  -- The floor bounds from above the class of each control of the policy that the proposal triggers;
  -- it is RED for real money, and otherwise GREEN or the class of one of the policy's controls that
  -- is triggered.
  pub classify_proposal_floor :
      (c : Classification)
      → classify_proposal ext p policy who now ≡ ok c
      → All
          (λ control.
            triggers p.affected_paths p.protected_controls control ≡ true
            → severity_rank control.minimum_class ≤ severity_rank c.deterministic_floor)
          policy.protected_controls
        × (p.real_money_enablement ≡ true → c.deterministic_floor ≡ red)
        × (p.real_money_enablement ≡ false
            → (c.deterministic_floor ≡ green)
              ⊎ Among
                  (λ control.
                    (triggers p.affected_paths p.protected_controls control ≡ true)
                    × (control.minimum_class ≡ c.deterministic_floor))
                  policy.protected_controls)
  unfolding proposal_floor floor_for
  classify_proposal_floor c h =
      let a = classify_proposal-Accepted c h in
      let cs = policy.protected_controls in
      let paths = p.affected_paths in
      let controls = p.protected_controls in
      (
        All-map (λ control upper hit. ground (arith, upper hit, a.floor_kept)) cs
            (floor_from_upper paths controls cs green []),
        λ money. ground (arith, a.floor_kept),
        λ none_asked.
            let e : c.deterministic_floor ≡ (floor_from paths controls cs green []).0 =
              ground (arith, a.floor_kept) in
            rw e (floor_from_attained paths controls cs green []),
      )

  -- The final class is the larger of the floor and the class that the author declared, and the
  -- classifier is not the author.
  pub classify_proposal_final :
      (c : Classification)
      → classify_proposal ext p policy who now ≡ ok c
      → (severity_rank c.final_class
          ≡ max (severity_rank c.deterministic_floor) (severity_rank p.declared_class))
        × (p.real_money_enablement ≡ true → c.final_class ≡ red)
        × (who ≢ p.authored_by)
  unfolding proposal_floor
  classify_proposal_final c h =
      let a = classify_proposal-Accepted c h in
      (
        ground (arith, a.final_taken, a.floor_kept),
        λ money. ground (arith, a.final_taken),
        a.other_author,
      )

  -- The matched controls are in order and without repetition, and are the identifiers of the
  -- triggered controls, with the mark of real money where the proposal asks for it.
  pub classify_proposal_matched :
      (c : Classification)
      → classify_proposal ext p policy who now ≡ ok c
      → IsSorted str_leb c.matched_controls
        × Distinct c.matched_controls
        × ((id : String)
            → contains c.matched_controls id ≡ (
                contains
                  (triggered_ids p.affected_paths p.protected_controls policy.protected_controls)
                  id
                || (p.real_money_enablement && (id == "real_money_enablement"))))
  unfolding proposal_floor floor_for
  classify_proposal_matched c h =
      let a = classify_proposal-Accepted c h in
      let all = (proposal_floor policy p).1 in
      rw a.controls_kept (
        sort_by-IsSorted str_leb str_leb_total (to_set all),
        sort_by-Distinct str_leb (to_set all) (to_set-Distinct all),
        λ id.
            contains-sort_by str_leb (to_set all) id
            ∙ contains-to_set all id
            ∙ ground (
              arith,
              floor_from_matched p.affected_paths p.protected_controls policy.protected_controls
                  green [],
              contains-append
                  (triggered_ids p.affected_paths p.protected_controls policy.protected_controls)
                  ("real_money_enablement" ∷ []) id,
            ),
      )

  -- What is recorded where the classifier's name, once stripped, is the author's.
  abbrev recorded_for_author : Classification
  recorded_for_author = record {
    proposal_id = p.proposal_id;
    policy_id = policy.policy_id;
    policy_version = policy.policy_version;
    classifier_principal = p.authored_by;
    deterministic_floor = floor;
    final_class =
        (if leb (severity_rank floor) (severity_rank p.declared_class)
          then p.declared_class
          else floor);
    matched_controls = sort_by str_leb (to_set (proposal_floor policy p).1);
    policy_content_hash = policy.content_hash;
    classified_at = now.instant;
  }

  -- The author's own name with white space around it passes the test on the author, and the record
  -- then names the author as the classifier.
  pub classify_proposal_padded_author :
      now.utc_offset ≡ some (pos 0)
      → ext.strip who ≡ p.authored_by
      → who ≢ p.authored_by
      → p.authored_by ≢ ""
      → (c : Classification) × (classify_proposal ext p policy who now ≡ ok c)
        × (c.classifier_principal ≡ p.authored_by)
  unfolding classify_proposal validate_classification non_empty utc
  classify_proposal_padded_author aware padded other named = (
    recorded_for_author,
    ground (arith, string_eq.same_iff who p.authored_by, string_eq.same_iff p.authored_by ""),
    refl,
  )
