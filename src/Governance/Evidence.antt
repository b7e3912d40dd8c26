-- ===== src/Governance/Evidence.antt =====
-- governance/domain.py: artifacts, automated checks, and the snapshot that an approval is bound to.
use liki.Common.{
  ℕ, String, string_eq, nat_eq, pair_eq, ◌==◌, List, Bool, true, false, Result, ok, ◌>>◌, raise_if,
  if◌then◌else◌, not,
}
use liki.Common.Json.{Json, text, object, end, member, array_of}
use liki.Common.Sorting.{sort_by, str_leb}
use liki.Governance.Base.{Error, External, some_items, canonical_hash, snapshot_hash_mismatch}

pub record ArtifactProvenance : Type 0 where
  pub artifact_id : String
  pub content_hash : String
  pub authenticated_principal : String
  pub environment_fingerprint : String
  pub code_fingerprint : String
  pub classification : String

pub data CheckResult : Type 0 where
  pass fail : CheckResult

pub record AutomatedCheck : Type 0 where
  pub check_id : String
  pub check_kind : String
  pub result : CheckResult
  pub result_artifact : ArtifactProvenance
  pub executed_at : ℕ

-- `item.result == "FAIL"`
abbrev pub is_fail : CheckResult → Bool
is_fail pass = false
is_fail fail = true

pub record EvidenceReference : Type 0 where
  pub role : String
  pub artifact : ArtifactProvenance

pub record SnapshotDependency : Type 0 where
  pub scope : String
  pub version : String
  pub content_hash : String

pub record ApprovalSnapshot : Type 0 where
  pub dependencies : List SnapshotDependency
  pub known_incident_ids : List String
  pub evidence_hashes : List String
  pub snapshot_hash : String

-- `model_dump(mode="json")` of the records that are hashed.
unfoldable pub artifact_json : ArtifactProvenance → Json
artifact_json a = object (
    member "artifact_id" (text a.artifact_id) (
      member "content_hash" (text a.content_hash) (
        member "authenticated_principal" (text a.authenticated_principal) (
          member "environment_fingerprint" (text a.environment_fingerprint) (
            member "code_fingerprint" (text a.code_fingerprint)
              (member "classification" (text a.classification) end))))))

result_text : CheckResult → String
result_text pass = "PASS"
result_text fail = "FAIL"

unfoldable pub check_json : External → AutomatedCheck → Json
unfolding artifact_json result_text
check_json ext c = object (
    member "check_id" (text c.check_id) (
      member "check_kind" (text c.check_kind) (
        member "result" (text (result_text c.result)) (
          member "result_artifact" (artifact_json c.result_artifact)
            (member "executed_at" (text (ext.datetime_text c.executed_at)) end)))))

dependency_json : SnapshotDependency → Json
dependency_json d = object (
    member "scope" (text d.scope)
      (member "version" (text d.version) (member "content_hash" (text d.content_hash) end)))

-- The order of `key=lambda item: (item["scope"], item["version"])`.
unfoldable pub dependency_leb : SnapshotDependency → SnapshotDependency → Bool
dependency_leb a b =
    if a.scope == b.scope then str_leb a.version b.version else str_leb a.scope b.scope

-- The body that `_matches_contents` hashes.
unfoldable pub snapshot_body : ApprovalSnapshot → Json
unfolding dependency_json
snapshot_body s = object (
    member "dependencies" (array_of dependency_json (sort_by dependency_leb s.dependencies)) (
      member "known_incident_ids" (array_of text (sort_by str_leb s.known_incident_ids))
        (member "evidence_hashes" (array_of text (sort_by str_leb s.evidence_hashes)) end)))

-- Validation of an `ApprovalSnapshot`: its field bounds, and `_matches_contents`.
unfoldable pub validate_snapshot : External → ApprovalSnapshot → Result Error ApprovalSnapshot
validate_snapshot ext s = do
  some_items s.dependencies
  some_items s.evidence_hashes
  raise_if (not (s.snapshot_hash == canonical_hash ext (snapshot_body s))) snapshot_hash_mismatch
  ok s
