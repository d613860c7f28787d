-- ===== src/Ml/Register.antt =====
-- backend/src/ml/register.py: a version is registered as Staging, and the service loads Production or Staging.
-- MLflow's store is an interface: `R` is its state, and `P` the type of a fitted pipeline.
pub mod RoundTrip
pub mod Memory
use drift_triage_co_pilot.Prelude.{
  ℕ, Bool, true, false, String, ◌&◌, str_int, Option, none, some, List, [], ◌∷◌, max, if◌then◌else◌,
  Result, ok, raised, ◌>>=◌, ◌>>◌, Exception, runtime_error, value_error, other_error,
}
use drift_triage_co_pilot.Floating.{Float, nought}
use drift_triage_co_pilot.Settings.{Settings}
use drift_triage_co_pilot.Service.Promotion.{Stage, staging, production}

-- `MODEL_NAME`
abbrev pub registered_name : String
registered_name = "drift-triage-classifier"

-- A version as `get_latest_versions` lists it.
pub record VersionInfo : Type 0 where
  pub version : ℕ
  pub run_id : String
  pub source : String

pub record Mlflow (P R : Type 0) : Type 0 where
  -- `get_latest_versions(name, stages=[stage])`, where `none` is the MlflowException
  pub get_latest_versions : String → Stage → R → Option (List VersionInfo)
  -- `mlflow.sklearn.load_model(source)`
  pub load_pipeline : String → R → P
  -- `get_model_version(name, version).tags.get(key)` and `get_run(run_id).data.params.get(key)`
  pub version_tag : String → ℕ → String → R → Option String
  pub run_param : String → String → R → Option String
  -- the numbers of `search_model_versions(f"name='{name}'")`
  pub search_model_versions : String → R → List ℕ
  -- a run with one logged parameter and the pipeline, registered as a new version of the name
  pub log_model : String → P → (key value : String) → R → R
  -- `transition_model_version_stage(name, version, "Staging", archive_existing_versions=True)`
  pub transition_to_staging : String → ℕ → R → R
  pub set_model_version_tag : String → ℕ → (key value : String) → R → R

-- `sorted(versions, key=...)[-1]` of the versions, after the first.
unfoldable pub latest_of : ℕ → List ℕ → ℕ
latest_of v [] = v
latest_of v (u ∷ us) = latest_of (max v u) us

-- What `register_model` reads of the `TrainResult`.
pub record Trained (F P : Type 0) : Type 0 where
  pub pipeline : P
  pub auc : F
  pub recall : F
  pub val_recall : F

-- The calls of `register_model` on files and on the registered model, each with what it raises, if anything.
pub record Calls : Type 0 where
  -- `_sha256_of(MODEL_OUTPUT_PATH)`, whose file may be missing
  pub artifact_hash : Result (Unit {0})
  -- `save_reference_stats(ref_stats)`
  pub save_reference_stats : Result (Unit {0})
  -- `mlflow.sklearn.load_model(staging_uri)`
  pub load_staging : Result (Unit {0})

-- No call raises.
abbrev pub answering : Calls
answering = record { artifact_hash = ok tt; save_reference_stats = ok tt; load_staging = ok tt }

-- What is done before the run is started.
abbrev pub before_run : Calls → Result (Unit {0})
before_run calls = calls.artifact_hash >> calls.save_reference_stats

module _ {F P R : Type 0} ⦃f : Float F⦄ (ml : Mlflow P R) where
  -- The recall tag: the one that the threshold was tuned for, where it is more than 0.
  abbrev pub recall_tag : Trained F P → F
  recall_tag result = if f.lt nought result.val_recall then result.val_recall else result.recall

  -- The tags of the promotion gates and of the service.
  unfoldable pub tag_version : Trained F P → F → ℕ → R → R
  tag_version result threshold v r =
      ml.set_model_version_tag registered_name v "recall" (f.str (recall_tag result)) (
        ml.set_model_version_tag registered_name v "auc" (f.str result.auc)
          (ml.set_model_version_tag registered_name v "operating_threshold" (f.str threshold) r))

  -- What follows the run, once the versions are listed.
  unfoldable pub stage_latest : Trained F P → F → List ℕ → R → Result ℕ × R
  unfolding latest_of tag_version
  stage_latest result threshold [] r =
      (raised (runtime_error ("No versions found for model '" & registered_name & "'")), r)
  stage_latest result threshold (v ∷ vs) r =
      let latest_version = latest_of v vs in
      (
        ok latest_version,
        tag_version result threshold latest_version
            (ml.transition_to_staging registered_name latest_version r),
      )

  -- `register_model` without `split_data`, as the worker calls it. The calls of MLflow answer. The result here is the version and not the identifier of the run.
  unfoldable pub register_model : Calls → Trained F P → F → R → Result ℕ × R
  unfolding stage_latest
  register_model calls result threshold r =
      let logged =
        ml.log_model registered_name result.pipeline "operating_threshold" (f.str threshold) r in
      let staged =
        stage_latest result threshold (ml.search_model_versions registered_name logged) logged in
      elim (before_run calls) [
        | raised e ↦ (raised e, r)
        | ok _ ↦ (staged.0 >>= λ version. calls.load_staging >> ok version, staged.1)
      ]

module _ {P R : Type 0} (ml : Mlflow P R) where
  -- The versions that `load_model` chooses from: of Production, or else of Staging.
  unfoldable pub serving_versions : String → R → List VersionInfo
  serving_versions model_name r = elim (ml.get_latest_versions model_name production r) [
    | none ↦ []
    | some (v ∷ vs) ↦ v ∷ vs
    | some [] ↦ elim (ml.get_latest_versions model_name staging r) [ none ↦ [] | some vs ↦ vs ]
  ]

  -- The text of the threshold: the version's tag, or the parameter of its run.
  unfoldable pub threshold_tag : String → VersionInfo → R → Option String
  threshold_tag model_name v r =
      elim (ml.version_tag model_name v.version "operating_threshold" r) [
        | some text ↦ some text
        | none ↦ ml.run_param v.run_id "operating_threshold" r
      ]

module _ {F P R : Type 0} (ml : Mlflow P R) where
  -- `float_of` is `float(text)`, where `none` is the ValueError.
  unfoldable pub load_from :
      (float_of : String → Option F) → String → List VersionInfo → R → Result (P × F)
  unfolding threshold_tag
  load_from float_of model_name [] r = raised (
      runtime_error
        ("No Production or Staging model found for '" & model_name & "'. Run `make train` first."))
  load_from float_of model_name (v ∷ vs) r = elim (threshold_tag ml model_name v r) [
    | none ↦ raised (
        runtime_error (
          "No operating threshold found for "
          & model_name
          & " v"
          & str_int v.version
          & ". Re-train to register the threshold."))
    | some text ↦ elim (float_of text) [
      | none ↦ raised (value_error "could not convert string to float")
      | some threshold ↦ ok (ml.load_pipeline v.source r, threshold)
    ]
  ]

  unfoldable pub load_model : (float_of : String → Option F) → String → R → Result (P × F)
  unfolding serving_versions load_from
  load_model float_of model_name r =
      load_from float_of model_name (serving_versions ml model_name r) r
