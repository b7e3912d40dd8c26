-- ===== src/Governance/Review.antt =====
-- governance/domain.py: blind reviews, the synthesis, the lifecycle evidence, and what the owner says.
use liki.Common.{
  ℕ, String, string_eq, List, ◌++◌, Bool, true, false, not, ◌&&◌, any, is_empty, map, all_distinct,
  Result, ok, ◌>>◌, raise_if,
}
use liki.Common.Json.{text, object, end, member, array_of}
use liki.Governance.Base.{
  Error, External, canonical_hash, some_items, visible_verdicts, unresolved_without_evidence,
  not_one_decision, repeated_group, repeated_profile,
}
use liki.Governance.Evidence.{
  ArtifactProvenance, AutomatedCheck, EvidenceReference, check_json, is_fail,
}

pub data ReviewVerdict : Type 0 where
  support concerns reject : ReviewVerdict

pub data ObjectionDisposition : Type 0 where
  open_objection falsified accepted_risk more_evidence blocked : ObjectionDisposition

pub record IndependenceProfile : Type 0 where
  pub provider_correlation_domain : String
  pub model_family : String
  pub model_version : String
  pub reviewer_mandate : String
  pub prompt_template_version : String
  pub evidence_ordering : List String
  pub prior_verdicts_visible : Bool
  pub shared_tools_retrieval_policy : String
  pub known_shared_contamination : List String
  pub independence_group_id : String
  pub fresh_context_id : String

-- `_blind_fresh_context`
unfoldable pub validate_profile : IndependenceProfile → Result Error IndependenceProfile
unfolding some_items
validate_profile p = do
  some_items p.evidence_ordering
  raise_if p.prior_verdicts_visible visible_verdicts
  ok p

unfoldable pub correlation_fingerprint : External → IndependenceProfile → String
correlation_fingerprint ext p = canonical_hash ext (
    object (
      member "provider_correlation_domain" (text p.provider_correlation_domain) (
        member "model_family" (text p.model_family) (
          member "model_version" (text p.model_version) (
            member "prompt_template_version" (text p.prompt_template_version) (
              member "evidence_ordering" (array_of text p.evidence_ordering) (
                member "shared_tools_retrieval_policy" (text p.shared_tools_retrieval_policy) (
                  member "known_shared_contamination" (array_of text p.known_shared_contamination)
                    end))))))))

pub record MaterialObjection : Type 0 where
  pub objection_id : String
  pub statement : String
  pub disposition : ObjectionDisposition
  pub resolution_evidence : List EvidenceReference

-- `disposition in {FALSIFIED, ACCEPTED_RISK}`
abbrev pub is_resolved : ObjectionDisposition → Bool
is_resolved falsified = true
is_resolved accepted_risk = true
is_resolved _ = false

-- `_terminal_resolution_has_evidence`
unfoldable pub validate_objection : MaterialObjection → Result Error MaterialObjection
validate_objection o = do
  raise_if (is_resolved o.disposition && is_empty o.resolution_evidence) unresolved_without_evidence
  ok o

-- `disposition in {OPEN, MORE_EVIDENCE, BLOCKED}`
abbrev pub is_unresolved : ObjectionDisposition → Bool
is_unresolved open_objection = true
is_unresolved more_evidence = true
is_unresolved blocked = true
is_unresolved _ = false

-- `confidence_advisory`, a float that nothing reads, is left out.
pub record GovernanceReview : Type 0 where
  pub council_review_id : String
  pub proposal_id : String
  pub reviewer_principal : String
  pub profile : IndependenceProfile
  pub evidence_manifest_hash : String
  pub inspected_evidence : List ArtifactProvenance
  pub verdict : ReviewVerdict
  pub material_objections : List MaterialObjection
  pub created_at : ℕ

pub record SynthesisRecord : Type 0 where
  pub proposal_id : String
  pub synthesized_by : String
  pub source_review_ids : List String
  pub synthesis_artifact : ArtifactProvenance
  pub residual_correlation_limitations : List String
  pub created_at : ℕ

pub record LifecycleEvidence : Type 0 where
  pub replay : List AutomatedCheck
  pub tests : List AutomatedCheck
  pub shadow : List AutomatedCheck
  pub canary : List AutomatedCheck

-- `LifecycleEvidence.checks`
unfoldable pub checks : LifecycleEvidence → List AutomatedCheck
checks l = l.replay ++ (l.tests ++ (l.shadow ++ l.canary))

-- `LifecycleEvidence.has_failure`
unfoldable pub has_failure : LifecycleEvidence → Bool
has_failure l = any (λ item. is_fail item.result) (checks l)

-- `LifecycleEvidence.snapshot_hash`
unfoldable pub lifecycle_hash : External → LifecycleEvidence → String
lifecycle_hash ext l = canonical_hash ext (
    object (
      member "replay" (array_of (check_json ext) l.replay) (
        member "tests" (array_of (check_json ext) l.tests) (
          member "shadow" (array_of (check_json ext) l.shadow)
            (member "canary" (array_of (check_json ext) l.canary) end)))))

pub record OwnerDelivery : Type 0 where
  pub authoritative_channel : String
  pub notification_id : String
  pub provider_message_id : String
  pub delivered_at : ℕ
  pub lifecycle_snapshot_hash : String

pub record OwnerDecision : Type 0 where
  pub proposal_id : String
  pub owner_principal : String
  pub approved : Bool
  pub vetoed : Bool
  pub decision_artifact : ArtifactProvenance
  pub decided_at : ℕ

bool_beq : Bool → Bool → Bool
bool_beq true b = b
bool_beq false b = not b

-- `_one_decision`
unfoldable pub validate_decision : OwnerDecision → Result Error OwnerDecision
unfolding bool_beq
validate_decision d = do raise_if (bool_beq d.approved d.vetoed) not_one_decision; ok d

-- `_check_unique_independence`
unfoldable pub check_unique_independence :
    External → List GovernanceReview → Result Error (List GovernanceReview)
check_unique_independence ext reviews = do
  let groups = map (λ (r : GovernanceReview). r.profile.independence_group_id) reviews
  let fingerprints = map (λ (r : GovernanceReview). correlation_fingerprint ext r.profile) reviews
  raise_if (not (all_distinct groups)) repeated_group
  raise_if (not (all_distinct fingerprints)) repeated_profile
  ok reviews
