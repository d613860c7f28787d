-- ===== src/Service/Listing.antt =====
-- backend/src/service/routers/registry.py: the summary of the registry that the dashboard shows.
use drift_triage_co_pilot.Prelude.{ℕ, String, Option, none, some, List, [], ◌∷◌}
use drift_triage_co_pilot.Floating.{Float}
use drift_triage_co_pilot.Service.Promotion.{ModelVersion, Stage, tag}
use drift_triage_co_pilot.Ml.Register.{registered_name}

-- The entries that are read again; the run's identifier and the threshold are only shown.
pub record VersionSummary (F : Type 0) : Type 0 where
  pub version : ℕ
  pub auc : F
  pub recall : F
  pub stage : Stage

pub record RegistrySummary (F : Type 0) : Type 0 where
  pub model_name : String
  pub production : Option (VersionSummary F)
  pub staging : Option (VersionSummary F)

module _ {F : Type 0} ⦃f : Float F⦄ where
  -- `_version_info`
  unfoldable pub version_info : List (ModelVersion F) → Option (VersionSummary F)
  version_info [] = none
  version_info (v ∷ vs) =
      some (record { version = v.version; auc = tag v.auc; recall = tag v.recall; stage = v.stage })

  -- `_fetch_registry`, from the versions that MLflow lists at each stage.
  unfoldable pub fetch_registry :
      (in_production in_staging : List (ModelVersion F)) → RegistrySummary F
  unfolding version_info
  fetch_registry in_production in_staging = record {
    model_name = registered_name;
    production = version_info in_production;
    staging = version_info in_staging;
  }
