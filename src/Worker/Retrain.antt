-- ===== src/Worker/Retrain.antt =====
-- backend/src/worker/retrain.py: a full retrain, registered as Staging, and its promotion where it is not worse than
-- Production. The dataset is an argument.
pub mod Gates
use drift_triage_co_pilot.Prelude.{
  ℕ, Bool, true, false, String, Option, none, some, List, [], ◌∷◌, if◌then◌else◌, Result, ok,
  raised, other_error, value_error, ◌>>=◌, collect, map,
}
use drift_triage_co_pilot.Floating.{Float, nought}
use drift_triage_co_pilot.Settings.{Settings}
use drift_triage_co_pilot.Ml.Threshold.{find_threshold}
use drift_triage_co_pilot.Ml.Train.{DataSplit, Sklearn, TrainResult, train}
use drift_triage_co_pilot.Ml.Data.Split.{Columns, Labelled, Split}
use drift_triage_co_pilot.Ml.Reference.{ReferenceStats}
use drift_triage_co_pilot.Ml.Reference.Compute.{Pandas, compute_reference_stats}
use drift_triage_co_pilot.Ml.Register.{Mlflow, Calls, VersionInfo, Trained, register_model}
use drift_triage_co_pilot.Service.Promotion.{
  Registry, PromotionRequest, production_auc, staging, handle_promote,
}
use drift_triage_co_pilot.Worker.Dedup.{Job}
use drift_triage_co_pilot.Worker.Jobs.{
  Outcome, DeadLetter, finish_try, model_name, raise_for_status,
}

abbrev pub retrain_request : Job → (new_version : ℕ) → PromotionRequest
retrain_request job new_version = record {
  model_name = model_name;
  target_version = new_version;
  investigation_id = job.investigation_id;
  hil_approval_id = job.hil_approval_id;
}

abbrev pub trained_of : {F X : Type 0} → TrainResult F X → Trained F (X → List F)
trained_of result = record {
  pipeline = result.pipeline;
  auc = result.auc;
  recall = result.recall;
  val_recall = result.val_recall;
}

module _ {F X R : Type 0} ⦃f : Float F⦄ ⦃g : Registry F R⦄ (settings : Settings F)
    (sk : Sklearn F X) (ml : Mlflow (X → List F) R) (pd : Pandas F)
    (frame : List (Columns F) → X) where
  -- The labels that scikit-learn is given; it takes no NaN.
  abbrev label_of : Labelled F → Result ℕ
  label_of row = elim row.y [ none ↦ raised (value_error "Input y contains NaN.") | some y ↦ ok y ]

  -- The loaded dataset as the training reads it; `frame` gives the table of features of the rows.
  unfoldable pub data_split : Split F → (dataset_hash : String) → Result (DataSplit X)
  data_split split dataset_hash = do
    y_train ← collect label_of split.train
    y_val ← collect label_of split.val
    y_test ← collect label_of split.test
    ok (record {
      X_train = frame (map (λ row. row.x) split.train);
      X_val = frame (map (λ row. row.x) split.val);
      X_test = frame (map (λ row. row.x) split.test);
      y_train = y_train;
      y_val = y_val;
      y_test = y_test;
      dataset_hash = dataset_hash;
    })

  -- What is done before the registration: the model, the threshold on the validation set, and the reference
  -- statistics of the test set.
  unfoldable pub trained :
      Result (Split F × String) → Result (TrainResult F X × F × ReferenceStats F)
  unfolding data_split
  trained loaded = do
    dataset ← loaded
    split ← data_split dataset.0 dataset.1
    result ← train sk settings split
    threshold ←
        find_threshold settings sk.precision_recall_curve result.pipeline split.X_val split.y_val
          none
    ref_stats ←
        compute_reference_stats pd (λ rows. result.pipeline (frame rows)) dataset.0 dataset.1
    ok (result, threshold, ref_stats)

  -- The versions of Staging are listed; `none` is the exception of MLflow.
  unfoldable pub promote_staged :
      Job → (new_auc : F) → Option (List VersionInfo) → R → Result (Unit {0}) × R
  promote_staged job new_auc none r = (raised (other_error "MlflowException"), r)
  promote_staged job new_auc (some []) r = (ok tt, r)
  promote_staged job new_auc (some (v ∷ vs)) r =
      let answer =
        handle_promote settings settings.promotion_api_key (retrain_request job v.version) r in
      if f.le (production_auc (g.latest_production model_name r)) new_auc
      then (raise_for_status answer.0, answer.1)
      else (ok tt, r)

  -- What follows the registration.
  unfoldable pub after_register : Job → F → Result ℕ × R → Result (Unit {0}) × R
  unfolding promote_staged
  after_register job new_auc (raised e, r) = (raised e, r)
  after_register job new_auc (ok v, r) =
      promote_staged job new_auc (ml.get_latest_versions model_name staging r) r

  -- The `try` of the job.
  unfoldable pub retrain_body : Result (Split F × String) → Calls → Job → R → Result (Unit {0}) × R
  unfolding trained after_register
  retrain_body loaded calls job r = elim (trained loaded) [
    | raised e ↦ (raised e, r)
    | ok (result, threshold, ref_stats) ↦
        after_register job result.auc (register_model ml calls (trained_of result) threshold r)
  ]

  unfoldable pub retrain :
      Result (Split F × String)
      → Calls
      → (job_try : ℕ) → Job
      → R
      → List DeadLetter
      → (Outcome × List DeadLetter) × R
  unfolding retrain_body finish_try
  retrain loaded calls job_try job r letters =
      let done = retrain_body loaded calls job r in (finish_try job_try job done.0 letters, done.1)
