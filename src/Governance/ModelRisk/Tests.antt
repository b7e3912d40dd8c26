-- ===== src/Governance/ModelRisk/Tests.antt =====
-- A material model without validation, and two models that share a dependency.
use liki.Common.{
  string_eq, [], ◌∷◌, none, some, true, false, ◌≡◌, ◌≢◌, ◌↔◌, refl, ltb, length, if◌then◌else◌,
}
use liki.Governance.ModelRisk.{
  ModelValidation, retired, suspended, watch, supporting, admission_grounds, assess_model_admission,
  append_at, index_dependencies, index_records, find_common_dependencies,
}
use liki.Governance.ModelRisk.Admission.{IsIndependent, assess_model_admission_iff}
use liki.Governance.ModelRisk.Dependencies.{lookup, uses, lookup-find_common_dependencies}
use liki.Governance.Samples.{model_named}

not_admitted : (assess_model_admission (model_named "m1") none).admissible ≡ false
unfolding assess_model_admission admission_grounds
not_admitted = refl

assess_model_admission_iff_example :
    ((assess_model_admission (model_named "m1") none).admissible ≡ true) ↔ (
      ((model_named "m1").status ≢ retired)
      × ((model_named "m1").status ≢ suspended)
      × ((model_named "m1").status ≢ watch)
      × ((model_named "m1").materiality ≢ supporting
          → (w : ModelValidation) × (none ≡ some w) × IsIndependent (model_named "m1") w))
assess_model_admission_iff_example = assess_model_admission_iff (model_named "m1") none

shared_numpy :
    find_common_dependencies (model_named "m1" ∷ model_named "m2" ∷ [])
    ≡ ("numpy", "m1" ∷ "m2" ∷ []) ∷ []
unfolding find_common_dependencies index_records index_dependencies append_at
shared_numpy = refl

lookup-find_common_dependencies_example :
    lookup "numpy" (find_common_dependencies (model_named "m1" ∷ model_named "m2" ∷ [])) ≡ (
      if ltb 1 (length (uses "numpy" (model_named "m1" ∷ model_named "m2" ∷ [])))
      then uses "numpy" (model_named "m1" ∷ model_named "m2" ∷ [])
      else [])
lookup-find_common_dependencies_example =
    lookup-find_common_dependencies "numpy" (model_named "m1" ∷ model_named "m2" ∷ [])
