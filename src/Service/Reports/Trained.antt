-- ===== src/Service/Reports/Trained.antt =====
-- backend/src/ml/reference_stats.py with backend/src/service/routers/drift.py: reports by the statistics of a training.
use drift_triage_co_pilot.Prelude.{
  ℕ, ◌≤◌, ◌<◌, ◌≡◌, String, List, length, min, All, Occurs, Result, ok,
}
use drift_triage_co_pilot.Floating.{Float, Numpy}
use drift_triage_co_pilot.Floating.Laws.{IsOrdered, IsSigned, IsNumpy}
use drift_triage_co_pilot.Settings.{Settings}
use drift_triage_co_pilot.Drift.Report.{DriftReport}
use drift_triage_co_pilot.Drift.Report.Payload.{IsValidated}
use drift_triage_co_pilot.Ml.Data.Split.{Columns, Labelled, Split, load_data}
use drift_triage_co_pilot.Ml.Data.Split.Typed.{IsTyped, load_data-IsNumeric}
use drift_triage_co_pilot.Ml.Reference.{ReferenceStats}
use drift_triage_co_pilot.Ml.Reference.Compute.{Pandas, compute_reference_stats}
use drift_triage_co_pilot.Ml.Reference.Sound.{
  IsNumeric, HasShares, compute_reference_stats-IsReference,
}
use drift_triage_co_pilot.Service.Predictions.{Table}
use drift_triage_co_pilot.Service.Reports.{compute_drift}
use drift_triage_co_pilot.Service.Reports.Window.{compute_drift_total}

module _ {F : Type 0} ⦃f : Float F⦄ (np : Numpy F) (pd : Pandas F) (o : IsOrdered F)
    (sg : IsSigned F) (n : IsNumpy F np) (settings : Settings F) where
  -- With statistics of a test set whose numeric columns hold numbers.
  compute_drift-compute_reference_stats :
      (predict_proba : List (Columns F) → List F) (split : Split F)
      (dataset_hash report_id : String) (timestamp : ℕ) (rows : Table F) (model_name : String)
      (model_version : ℕ)
      → HasShares pd
      → 0 < length split.test
      → All (IsNumeric split.test) split.numeric_columns
      → (stats : ReferenceStats F) × (r : DriftReport F) × (compute_reference_stats pd predict_proba
            split dataset_hash
          ≡ ok stats)
        × (compute_drift np settings report_id timestamp stats rows model_name model_version ≡ ok r)
        × IsValidated r
        × (r.window_size ≡ min settings.drift_window_size (length rows))
        × (length r.psi_results ≤ 10)
        × (length r.chi2_results ≤ 10)
  compute_drift-compute_reference_stats predict_proba split dataset_hash report_id timestamp rows
        model_name model_version shares filled numbers =
      let (stats, computed, is) =
        compute_reference_stats-IsReference pd predict_proba split dataset_hash shares filled
          numbers in
      let (r, built, fine, covers, psi, chi2, _, _, _) =
        compute_drift_total np o sg n settings report_id timestamp stats rows model_name
          model_version is in
      (stats, r, computed, built, fine, covers, psi, chi2)

  -- If the rows of the second part of a split are rows of what was split, each row of the file has a number in each
  -- numeric column of the file, and the shares of values are not negative: from every dataset that is loaded from
  -- the file with a test set that has rows, the reference statistics are computed; and with them a report is
  -- computed from every table of predictions. It passes its validation, covers the newest rows, as many as there
  -- are up to the configured window, and has at most ten numeric and ten categorical results.
  pub compute_drift-load_data :
      (train_test_split : F → List (Labelled F) → Result (List (Labelled F) × List (Labelled F)))
      (csv : List (Columns F)) (split : Split F) (predict_proba : List (Columns F) → List F)
      (dataset_hash report_id : String) (timestamp : ℕ) (rows : Table F) (model_name : String)
      (model_version : ℕ)
      → HasShares pd
      → ((size : F) (all : List (Labelled F)) (parts : List (Labelled F) × List (Labelled F))
            (row : Labelled F)
          → train_test_split size all ≡ ok parts
          → Occurs row parts.1
          → Occurs row all)
      → All IsTyped csv
      → load_data settings train_test_split csv ≡ ok split
      → 0 < length split.test
      → (stats : ReferenceStats F) × (r : DriftReport F) × (compute_reference_stats pd predict_proba
            split dataset_hash
          ≡ ok stats)
        × (compute_drift np settings report_id timestamp stats rows model_name model_version ≡ ok r)
        × IsValidated r
        × (r.window_size ≡ min settings.drift_window_size (length rows))
        × (length r.psi_results ≤ 10)
        × (length r.chi2_results ≤ 10)
  compute_drift-load_data train_test_split csv split predict_proba dataset_hash report_id timestamp
        rows model_name model_version shares drawn typed loaded filled =
      compute_drift-compute_reference_stats predict_proba split dataset_hash report_id timestamp
        rows model_name model_version shares filled
        (load_data-IsNumeric settings train_test_split csv split drawn typed loaded)
