-- ===== src/Worker/Replay.antt =====
-- backend/src/worker/replay_test.py: the test set is run through the serving model, and its metrics are logged to the run
-- of the Production version. The dataset is an argument; `log_metrics` appends to what is logged.
use drift_triage_co_pilot.Prelude.{
  ℕ, String, Option, none, some, List, [], ◌∷◌, ◌++◌, Result, ok, raised, other_error, ◌>>=◌,
}
use drift_triage_co_pilot.Floating.{Float}
use drift_triage_co_pilot.Ml.Train.{DataSplit, Sklearn, Metrics, evaluate_with_threshold}
use drift_triage_co_pilot.Ml.Register.{Mlflow, VersionInfo, registered_name, load_model}
use drift_triage_co_pilot.Service.Promotion.{production}
use drift_triage_co_pilot.Worker.Dedup.{Job}
use drift_triage_co_pilot.Worker.Jobs.{Outcome, DeadLetter, finish_try}

-- `mlflow.log_metrics(metrics)` in the run of the identifier.
pub record LoggedMetrics (F : Type 0) : Type 0 where
  pub run_id : String
  pub metrics : Metrics F

module _ {F X R : Type 0} ⦃f : Float F⦄ (sk : Sklearn F X) (ml : Mlflow (X → List F) R)
    (float_of : String → Option F) where
  -- The metrics of the test set at the serving threshold.
  unfoldable pub replay_metrics : Result (DataSplit X) → R → Result (Metrics F)
  replay_metrics loaded r = do
    serving ← load_model ml float_of registered_name r
    split ← loaded
    ok (evaluate_with_threshold sk split.y_test (serving.0 split.X_test) serving.1)

  -- The versions of Production are listed; `none` is the exception of MLflow.
  unfoldable pub log_replay :
      Metrics F
      → Option (List VersionInfo)
      → List (LoggedMetrics F)
      → Result (Unit {0}) × List (LoggedMetrics F)
  log_replay metrics none logs = (raised (other_error "MlflowException"), logs)
  log_replay metrics (some []) logs = (ok tt, logs)
  log_replay metrics (some (v ∷ vs)) logs =
      (ok tt, logs ++ record { run_id = v.run_id; metrics = metrics } ∷ [])

  -- One try of the job.
  unfoldable pub replay_test :
      Result (DataSplit X)
      → (job_try : ℕ) → Job
      → R
      → List DeadLetter
      → List (LoggedMetrics F)
      → (Outcome × List DeadLetter) × List (LoggedMetrics F)
  unfolding replay_metrics log_replay finish_try
  replay_test loaded job_try job r letters logs = elim (replay_metrics loaded r) [
    | raised e ↦ (finish_try job_try job (raised e) letters, logs)
    | ok metrics ↦
        let done = log_replay metrics (ml.get_latest_versions registered_name production r) logs in
        (finish_try job_try job done.0 letters, done.1)
  ]
