-- ===== src/Governance/ModelRisk.antt =====
-- governance/domain.py: the records of model risk, `assess_model_admission` and
-- `find_common_dependencies`.
pub mod Admission
pub mod Dependencies
mod Tests
use liki.Common.{
  ℕ, String, string_eq, ◌==◌, List, [], ◌∷◌, ◌++◌, map, Option, none, some, Bool, true, false, not,
  ◌&&◌, ◌||◌, is_some, is_empty, length, ltb, select, contains, intersects, if◌then◌else◌, Result,
  ok, err, ◌>>=◌, ◌>>◌, raise_if,
}
use liki.Governance.Base.{
  Error, development_reused, retirement_undated, retirement_unexpected, model_card_missing,
  consumed_reused,
}
use liki.Governance.Evidence.{ArtifactProvenance, AutomatedCheck}

pub data ModelType : Type 0 where
  strategy risk cost execution statistics data_transform router third_party other : ModelType

pub data Materiality : Type 0 where
  critical material supporting : Materiality

pub data ModelStatus : Type 0 where
  development shadow approved watch suspended retired : ModelStatus

pub record ModelCard : Type 0 where
  pub card_artifact : ArtifactProvenance
  pub purpose : String
  pub scope : String
  pub assumptions : List String
  pub limitations : List String
  pub dependencies : List String

pub record ModelValidation : Type 0 where
  pub validation_id : String
  pub validator_principal : String
  pub validation_evidence : List ArtifactProvenance
  pub conceptual_soundness : AutomatedCheck
  pub implementation_correctness : AutomatedCheck
  pub sensitivity : AutomatedCheck
  pub monitoring_thresholds : List String
  pub challenger_evidence : List ArtifactProvenance
  pub completed_at : ℕ

pub record ModelRecord : Type 0 where
  pub model_id : String
  pub model_type : ModelType
  pub owner_role : String
  pub developer_principals : List String
  pub developer_artifacts : List ArtifactProvenance
  pub purpose : String
  pub allowed_uses : List String
  pub prohibited_uses : List String
  pub materiality : Materiality
  pub inputs : List String
  pub outputs : List String
  pub assumptions : List String
  pub limitations : List String
  pub dependencies : List String
  pub validation_status : String
  pub champion_challenger_status : String
  pub monitoring_plan_id : String
  pub version : String
  pub status : ModelStatus
  pub development_evidence : List ArtifactProvenance
  pub validation_evidence : List ArtifactProvenance
  pub monitoring_evidence : List ArtifactProvenance
  pub recalibration_consumed_evidence : List ArtifactProvenance
  pub model_card : Option ModelCard
  pub created_at : ℕ
  pub updated_at : ℕ
  pub validation_due_at : Option ℕ
  pub retired_at : Option ℕ
  pub replacement_model_id : Option String

abbrev pub is_retired : ModelStatus → Bool
is_retired retired = true
is_retired _ = false

-- `status in {SUSPENDED, WATCH}`
abbrev pub is_blocked_status : ModelStatus → Bool
is_blocked_status suspended = true
is_blocked_status watch = true
is_blocked_status _ = false

-- `materiality in {CRITICAL, MATERIAL}`
abbrev pub is_material_model : Materiality → Bool
is_material_model supporting = false
is_material_model _ = true

abbrev pub hashes : List ArtifactProvenance → List String
hashes = map (λ (a : ArtifactProvenance). a.content_hash)

-- `_model_lifecycle_consistency`
unfoldable pub validate_model : ModelRecord → Result Error ModelRecord
validate_model r = do
  let validation = hashes r.validation_evidence
  raise_if (intersects (hashes r.development_evidence) validation) development_reused
  raise_if (is_retired r.status && not (is_some r.retired_at)) retirement_undated
  raise_if (not (is_retired r.status) && is_some r.retired_at) retirement_unexpected
  raise_if (is_material_model r.materiality && not (is_some r.model_card)) model_card_missing
  raise_if (intersects validation (hashes r.recalibration_consumed_evidence)) consumed_reused
  ok r

-- The texts that the decision may give.
pub data Ground : Type 0 where
  is_retired_model blocking_status unvalidated self_validated reused_evidence requirements_hold :
      Ground

pub record AdmissionDecision : Type 0 where
  pub admissible : Bool
  pub reasons : List Ground

-- The `if`/`elif` on the validation of a material model.
unfoldable pub validation_grounds : ModelRecord → Option ModelValidation → List Ground
validation_grounds r none = unvalidated ∷ []
validation_grounds r (some v) =
    if contains r.developer_principals v.validator_principal
    then self_validated ∷ []
    else if intersects (hashes v.validation_evidence)
        (hashes r.development_evidence ++ hashes r.recalibration_consumed_evidence)
    then reused_evidence ∷ []
    else []

unfoldable pub admission_grounds : ModelRecord → Option ModelValidation → List Ground
unfolding validation_grounds
admission_grounds r v =
    (if is_retired r.status then is_retired_model ∷ [] else [])
    ++ ((if is_blocked_status r.status then blocking_status ∷ [] else [])
        ++ (if is_material_model r.materiality then validation_grounds r v else []))

unfoldable pub assess_model_admission : ModelRecord → Option ModelValidation → AdmissionDecision
assess_model_admission r v =
    let reasons = admission_grounds r v in
    record {
      admissible = is_empty reasons;
      reasons = (if is_empty reasons then requirements_hold ∷ [] else reasons);
    }

-- A dict from dependencies to model identifiers, in insertion order.
abbrev pub Index : Type 0
Index = List (String × List String)

-- `by_dependency.setdefault(dependency, []).append(model_id)`
unfoldable pub append_at : String → String → Index → Index
append_at d id [] = (d, id ∷ []) ∷ []
append_at d id ((k, ids) ∷ m) =
    if d == k then (k, ids ++ id ∷ []) ∷ m else (k, ids) ∷ append_at d id m

unfoldable pub index_dependencies : String → List String → Index → Index
index_dependencies id [] m = m
index_dependencies id (d ∷ ds) m = index_dependencies id ds (append_at d id m)

unfoldable pub index_records : List ModelRecord → Index → Index
index_records [] m = m
index_records (r ∷ rs) m = index_records rs (index_dependencies r.model_id r.dependencies m)

unfoldable pub find_common_dependencies : List ModelRecord → Index
find_common_dependencies rs = select (λ e. ltb 1 (length e.1)) (index_records rs [])
