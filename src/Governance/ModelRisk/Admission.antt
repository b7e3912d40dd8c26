-- ===== src/Governance/ModelRisk/Admission.antt =====
-- When a model is admitted.
use liki.Common.{
  string_eq, [], ◌++◌, Option, none, some, true, false, ◌≡◌, ◌≢◌, ◌↔◌, refl, arith, contains,
  intersects, Bool-cases, inl, inr,
}
use liki.Governance.ModelRisk.{
  ModelRecord, ModelValidation, supporting, watch, suspended, retired, hashes, validation_grounds,
  admission_grounds, assess_model_admission, is_material_model,
}

-- A validator who is no developer, on evidence that neither development nor recalibration used.
pub record IsIndependent (r : ModelRecord) (v : ModelValidation) : Type 0 where
  pub outside : contains r.developer_principals v.validator_principal ≡ false
  pub unused :
      intersects
        (hashes v.validation_evidence)
        (hashes r.development_evidence ++ hashes r.recalibration_consumed_evidence)
      ≡ false

none_of_independent :
    (r : ModelRecord) (o : Option ModelValidation) (w : ModelValidation)
    → o ≡ some w
    → IsIndependent r w
    → validation_grounds r o ≡ []
unfolding validation_grounds
none_of_independent r o w given d = rw (given, validation_grounds) (rw (d.outside, d.unused) refl)

grounds_none :
    (r : ModelRecord) (o : Option ModelValidation)
    → validation_grounds r o ≡ []
    → (w : ModelValidation) × (o ≡ some w) × IsIndependent r w
unfolding validation_grounds
grounds_none r none h = cc
grounds_none r (some w) h = (w, refl, ground arith)

module _ (r : ModelRecord) (v : Option ModelValidation) where
  -- A model is admitted exactly when it is not retired, suspended or on watch, and, if it is
  -- critical or material, has an independent validation.
  pub assess_model_admission_iff : ((assess_model_admission r v).admissible ≡ true) ↔ (
      (r.status ≢ retired)
      × (r.status ≢ suspended)
      × (r.status ≢ watch)
      × (r.materiality ≢ supporting → (w : ModelValidation) × (v ≡ some w) × IsIndependent r w))
  unfolding assess_model_admission admission_grounds
  assess_model_admission_iff = (
    λ h. (ground arith, ground arith, ground arith, λ m. grounds_none r v (ground arith)),
    λ (kept, running, quiet, validated). elim (Bool-cases (is_material_model r.materiality)) [
      | inr light ↦ ground arith
      | inl material ↦
          let (w, given, independent) = validated (ground arith) in
          ground (arith, none_of_independent r v w given independent)
    ],
  )
