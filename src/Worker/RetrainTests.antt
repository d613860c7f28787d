-- ===== src/Worker/RetrainTests.antt =====
-- The theorem on the retrain job at a concrete dataset, and a store of one version.
use drift_triage_co_pilot.Prelude.{
  ℕ, ◌*◌, String, Result, length, ◌≡◌, ◌⊎◌, none, some, List, [], ◌∷◌, ok, raised, Exception,
}
use drift_triage_co_pilot.Settings.{default_settings}
use drift_triage_co_pilot.Floating.Fixed.{Fixed, fixed_float}
use drift_triage_co_pilot.Ml.Train.{Sklearn, TrainResult}
use drift_triage_co_pilot.Ml.Register.{Mlflow, answering, before_run, register_model}
use drift_triage_co_pilot.Ml.Data.Split.{Columns, Labelled, Split, number}
use drift_triage_co_pilot.Ml.Reference.{ReferenceStats}
use drift_triage_co_pilot.Ml.Reference.Compute.{Pandas}
use drift_triage_co_pilot.Service.Promotion.{Registry, ModelVersion, staging, production, Stage}
use drift_triage_co_pilot.Worker.Dedup.{Job, retrain as retrain_action}
use drift_triage_co_pilot.Worker.Retrain.{trained_of, trained, retrain}
use drift_triage_co_pilot.Worker.Retrain.Gates.{MayPromote, retrain-MayPromote}

-- The stages of the one version, with what was done to it.
abbrev Registered : Type 0
Registered = Stage

abbrev version_at : Stage → ModelVersion Fixed
version_at stage = record {
  version = 1;
  stage = stage;
  auc = some 90_000_000;
  recall = some 80_000_000;
}

abbrev serving : Stage → List (ModelVersion Fixed)
serving production = version_at production ∷ []
serving other = []

instance abbrev one_registry : Registry Fixed Registered
one_registry = record {
  get_model_version = λ name v r. some (version_at r);
  latest_production = λ name r. serving r;
  transition_stage = λ name v stage r. stage;
}

abbrev scores : List Fixed
scores = 20_000_000 ∷ 50_000_000 ∷ []

abbrev one_store : Mlflow (List Fixed → List Fixed) Registered
one_store = record {
  get_latest_versions =
      λ name stage r. some (record { version = 1; run_id = "u1"; source = "s" } ∷ []);
  load_pipeline = λ source r. λ xs. xs;
  version_tag = λ name v key r. none;
  run_param = λ run_id key r. none;
  search_model_versions = λ name r. 1 ∷ [];
  log_model = λ name p key value r. r;
  transition_to_staging = λ name v r. staging;
  set_model_version_tag = λ name v key value r. r;
}

abbrev sklearn : Sklearn Fixed (List Fixed)
sklearn = record {
  fit = λ name x y. λ xs. xs;
  precision_recall_curve = λ y p. record {
    precisions = 40_000_000 ∷ 100_000_000 ∷ [];
    recalls = 100_000_000 ∷ 0 ∷ [];
    thresholds = 20_000_000 ∷ [];
  };
  accuracy_score = λ y p. 80_000_000;
  precision_score = λ y p. 60_000_000;
  recall_score = λ y p. 80_000_000;
  f1_score = λ y p. 68_000_000;
  roc_auc_score = λ y p. 90_000_000;
}

abbrev row : ℕ → ℕ → Labelled Fixed
row age label = record { x = ("age", number (age * 100_000_000)) ∷ []; y = some label }

abbrev split : Split Fixed
split = record {
  train = row 30 0 ∷ row 50 1 ∷ [];
  val = row 31 0 ∷ row 51 1 ∷ [];
  test = row 32 0 ∷ row 52 1 ∷ [];
  numeric_columns = "age" ∷ [];
  categorical_columns = [];
}

abbrev pandas : Pandas Fixed
pandas = record {
  mean = λ xs. 0;
  std = λ xs. 0;
  quantile = λ xs q. q;
  arange = λ a b step. a ∷ [];
  parse = λ s. none;
  value_counts = λ cs. [];
  unique = λ ys. (0, length ys) ∷ [];
}

-- The features of each row are given by one score of two.
abbrev frame : List (Columns Fixed) → List Fixed
frame rows = scores

abbrev job : Job
job = record {
  job_type = retrain_action;
  investigation_id = "i1";
  idempotency_key = "retrain:i1";
  model_version = 1;
  hil_approval_id = "h1";
  job_id = "j1";
  enqueued_at = 10;
}

abbrev loaded : Result (Split Fixed × String)
loaded = ok (split, "d1")

retrain-MayPromote_example :
    let settings = default_settings {F = Fixed} "key" in
    let made = trained {R = Registered} settings sklearn one_store pandas frame loaded in
    let after =
      (retrain settings sklearn one_store pandas frame loaded answering 1 job production []).1 in
    ((e : Exception) × (made ≡ raised e) × (after ≡ production))
    ⊎ ((result : TrainResult Fixed (List Fixed)) × (threshold : Fixed) × (ref_stats : ReferenceStats
          Fixed)
        × (made ≡ ok (result, threshold, ref_stats))
        × (((e : Exception) × (before_run answering ≡ raised e) × (after ≡ production))
            ⊎ ((before_run answering ≡ ok tt)
                × MayPromote settings sklearn one_store pandas frame job result.auc
                    (register_model one_store answering (trained_of result) threshold production).1
                    after)))
retrain-MayPromote_example =
    retrain-MayPromote (default_settings "key") sklearn one_store pandas frame loaded answering 1
      job production []
