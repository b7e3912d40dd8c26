-- ===== src/Governance/Classify/Tests.antt =====
-- Classifications of the sample proposal, which touches a path under an AMBER control.
use liki.Common.{Among, String, string_eq, [], ◌∷◌, true, false, ◌≡◌, ◌≢◌, ◌≤◌, ◌⊎◌, refl, ok, All}
use liki.Common.Sorting.{sort_by, str_leb}
use liki.Governance.Base.{utc, non_empty}
use liki.Governance.Proposal.{
  Classification, green, amber, red, severity_rank, validate_classification,
}
use liki.Governance.Policy.{floor_for, triggers, path_under, raise_floor}
use liki.Governance.Classify.{proposal_floor, classify_proposal}
use liki.Governance.Classify.Record.{classify_proposal_floor, classify_proposal_padded_author}
use liki.Governance.Samples.{plain, at, proposal, policy}

abbrev amber_record : Classification
amber_record = record {
  proposal_id = "p1";
  policy_id = "gov";
  policy_version = "1";
  classifier_principal = "bob";
  deterministic_floor = amber;
  final_class = amber;
  matched_controls = "core" ∷ [];
  policy_content_hash = "h3";
  classified_at = 2;
}

classified_amber : classify_proposal plain proposal policy "bob" (at 2) ≡ ok amber_record
unfolding classify_proposal utc proposal_floor floor_for triggers path_under raise_floor non_empty
    validate_classification sort_by str_leb
classified_amber = refl

classify_proposal_floor_example :
    All
      (λ control.
        triggers proposal.affected_paths proposal.protected_controls control ≡ true
        → severity_rank control.minimum_class ≤ severity_rank amber_record.deterministic_floor)
      policy.protected_controls
    × (proposal.real_money_enablement ≡ true → amber_record.deterministic_floor ≡ red)
    × (proposal.real_money_enablement ≡ false
        → (amber_record.deterministic_floor ≡ green)
          ⊎ Among
              (λ control.
                (triggers proposal.affected_paths proposal.protected_controls control ≡ true)
                × (control.minimum_class ≡ amber_record.deterministic_floor))
              policy.protected_controls)
classify_proposal_floor_example =
    classify_proposal_floor plain proposal policy "bob" (at 2) amber_record classified_amber

padded_differs : ◌≢◌ {A = String} " ann" "ann"
padded_differs p = cc ((string_eq.same_iff " ann" "ann").1 p)

ann_is_named : ◌≢◌ {A = String} "ann" ""
ann_is_named p = cc ((string_eq.same_iff "ann" "").1 p)

classify_proposal_padded_author_example :
    (c : Classification) × (classify_proposal plain proposal policy " ann" (at 2) ≡ ok c)
    × (c.classifier_principal ≡ "ann")
classify_proposal_padded_author_example =
    classify_proposal_padded_author plain proposal policy " ann" (at 2) refl refl padded_differs
      ann_is_named
