-- ===== src/Governance/Classify.antt =====
-- governance/domain.py: `classify_proposal`, which applies the protected-path floor.
pub mod Floor
pub mod Record
mod Tests
use liki.Common.{
  String, string_eq, ◌==◌, List, [], ◌∷◌, ◌++◌, Bool, true, false, leb, to_set, if◌then◌else◌,
  Result, ok, ◌>>=◌, ◌>>◌, raise_if,
}
use liki.Common.Sorting.{sort_by, str_leb}
use liki.Governance.Base.{Error, External, Datetime, utc, non_empty, author_classifies}
use liki.Governance.Proposal.{
  ChangeClass, red, severity_rank, GovernanceProposal, Classification, validate_classification,
}
use liki.Governance.Policy.{GovernancePolicy, floor_for}

-- The floor and the matched controls, with the rule on real money.
unfoldable pub proposal_floor : GovernancePolicy → GovernanceProposal → ChangeClass × List String
proposal_floor policy proposal =
    let (floor, controls) = floor_for policy proposal.affected_paths proposal.protected_controls in
    if proposal.real_money_enablement
    then (red, controls ++ "real_money_enablement" ∷ [])
    else (floor, controls)

-- The text fields taken from the proposal and the policy were validated with them.
unfoldable pub classify_proposal :
    External
    → GovernanceProposal
    → GovernancePolicy
    → String
    → Datetime
    → Result Error Classification
classify_proposal ext proposal policy classifier_principal now = do
  at ← utc now
  raise_if (classifier_principal == proposal.authored_by) author_classifies
  let (floor, controls) = proposal_floor policy proposal
  let declared = proposal.declared_class
  principal ← non_empty ext classifier_principal
  validate_classification (record {
    proposal_id = proposal.proposal_id;
    policy_id = policy.policy_id;
    policy_version = policy.policy_version;
    classifier_principal = principal;
    deterministic_floor = floor;
    final_class = (if leb (severity_rank floor) (severity_rank declared) then declared else floor);
    matched_controls = sort_by str_leb (to_set controls);
    policy_content_hash = policy.content_hash;
    classified_at = at;
  })
