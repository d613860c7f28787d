-- ===== src/Ml/Train.antt =====
-- backend/src/ml/train.py, lines 103-218: the candidates and the choice among them. What `sklearn` fits and measures
-- is a parameter; the report files are not part of the model.
pub mod Best
use drift_triage_co_pilot.Prelude.{
  ℕ, Bool, true, false, String, Option, none, some, List, [], ◌∷◌, map, if◌then◌else◌, Result, ok,
  raised, value_error, collect, ◌>>=◌,
}
use drift_triage_co_pilot.Floating.{Float}
use drift_triage_co_pilot.Settings.{Settings}
use drift_triage_co_pilot.Ml.Choice.{best_by}
use drift_triage_co_pilot.Ml.Threshold.{Curve, find_threshold}

-- The part of `DataSplit` that training reads; `X` is the type of a table of features.
pub record DataSplit (X : Type 0) : Type 0 where
  pub X_train : X
  pub X_val : X
  pub X_test : X
  pub y_train : List ℕ
  pub y_val : List ℕ
  pub y_test : List ℕ
  pub dataset_hash : String

-- `build_pipeline(...)` of a candidate, fitted, as its `predict_proba`; and `sklearn.metrics`.
pub record Sklearn (F X : Type 0) : Type 0 where
  pub fit : String → X → List ℕ → X → List F
  pub precision_recall_curve : List ℕ → List F → Curve F
  pub accuracy_score : List ℕ → List ℕ → F
  pub precision_score : List ℕ → List ℕ → F
  pub recall_score : List ℕ → List ℕ → F
  pub f1_score : List ℕ → List ℕ → F
  pub roc_auc_score : List ℕ → List F → F

-- `CANDIDATE_MODELS`
abbrev pub candidate_models : List String
candidate_models = "dummy" ∷ "logistic_regression" ∷ "random_forest" ∷ "extra_trees" ∷ []

pub record Metrics (F : Type 0) : Type 0 where
  pub threshold : F
  pub accuracy : F
  pub precision : F
  pub recall : F
  pub f1 : F
  pub roc_auc : F

-- `results[model_name]`, with its key.
pub record CandidateResult (F X : Type 0) : Type 0 where
  pub model_name : String
  pub pipeline : X → List F
  pub threshold : F
  pub train_metrics : Metrics F
  pub val_metrics : Metrics F
  pub train_val_auc_gap : F

pub record TrainResult (F X : Type 0) : Type 0 where
  pub pipeline : X → List F
  pub model_name : String
  pub auc : F
  pub recall : F
  pub precision : F
  pub f1 : F
  pub accuracy : F
  pub threshold : F
  pub val_recall : F
  pub all_results : List (CandidateResult F X)
  pub dataset_hash : String
  pub train_val_auc_gap : F

module _ {F X : Type 0} ⦃f : Float F⦄ (sk : Sklearn F X) where
  -- `(y_proba >= threshold).astype(int)`
  abbrev pub classify : List F → F → List ℕ
  classify y_proba threshold = map (λ p. if f.le threshold p then 1 else 0) y_proba

  unfoldable pub evaluate_with_threshold : List ℕ → List F → F → Metrics F
  evaluate_with_threshold y_true y_proba threshold =
      let y_pred = classify y_proba threshold in
      record {
        threshold = threshold;
        accuracy = sk.accuracy_score y_true y_pred;
        precision = sk.precision_score y_true y_pred;
        recall = sk.recall_score y_true y_pred;
        f1 = sk.f1_score y_true y_pred;
        roc_auc = sk.roc_auc_score y_true y_proba;
      }

  -- What a candidate's run gives, once its threshold is found.
  unfoldable pub candidate_result : DataSplit X → String → F → CandidateResult F X
  unfolding evaluate_with_threshold
  candidate_result split model_name threshold =
      let pipeline = sk.fit model_name split.X_train split.y_train in
      let val_metrics = evaluate_with_threshold split.y_val (pipeline split.X_val) threshold in
      let train_metrics =
        evaluate_with_threshold split.y_train (pipeline split.X_train) threshold in
      record {
        model_name = model_name;
        pipeline = pipeline;
        threshold = threshold;
        train_metrics = train_metrics;
        val_metrics = val_metrics;
        train_val_auc_gap = f.sub train_metrics.roc_auc val_metrics.roc_auc;
      }

  unfoldable pub train_candidate : Settings F → DataSplit X → String → Result (CandidateResult F X)
  train_candidate settings split model_name =
      find_threshold settings sk.precision_recall_curve
        (sk.fit model_name split.X_train split.y_train) split.X_val split.y_val none
      >>= λ threshold. ok (candidate_result split model_name threshold)

  -- `results[n]["val_metrics"]["f1"]`
  abbrev pub val_f1 : CandidateResult F X → F
  val_f1 r = r.val_metrics.f1

  unfoldable pub train_result :
      DataSplit X → List (CandidateResult F X) → CandidateResult F X → TrainResult F X
  train_result split results best =
      let test_metrics =
        evaluate_with_threshold split.y_test (best.pipeline split.X_test) best.threshold in
      record {
        pipeline = best.pipeline;
        model_name = best.model_name;
        auc = test_metrics.roc_auc;
        recall = test_metrics.recall;
        precision = test_metrics.precision;
        f1 = test_metrics.f1;
        accuracy = test_metrics.accuracy;
        threshold = best.threshold;
        val_recall = best.val_metrics.recall;
        all_results = results;
        dataset_hash = split.dataset_hash;
        train_val_auc_gap = best.train_val_auc_gap;
      }

  -- `max(results, ...)` and what follows it.
  unfoldable pub choose : DataSplit X → List (CandidateResult F X) → Result (TrainResult F X)
  unfolding train_result
  choose split [] = raised (value_error "max() arg is an empty sequence")
  choose split (r ∷ rs) = ok (train_result split (r ∷ rs) (best_by val_f1 r rs))

  unfoldable pub train : Settings F → DataSplit X → Result (TrainResult F X)
  unfolding train_candidate choose
  train settings split = collect (train_candidate settings split) candidate_models >>= choose split
