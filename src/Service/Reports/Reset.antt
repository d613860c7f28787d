-- ===== src/Service/Reports/Reset.antt =====
-- backend/src/service/routers/drift.py, `reset_drift`: the first report after a reset.
use drift_triage_co_pilot.Prelude.{
  ℕ, zero, suc, take, ◌≡◌, refl, Bool, true, false, String, none, some, [], Result, ok,
}
use drift_triage_co_pilot.Floating.{Float, Numpy}
use drift_triage_co_pilot.Settings.{Settings}
use drift_triage_co_pilot.Drift.Severity.{low, max_severity}
use drift_triage_co_pilot.Drift.Report.{
  DriftReport, DriftWebhookPayload, aggregate_severity, build_drift_report, report_to_webhook,
}
use drift_triage_co_pilot.Ml.Reference.{ReferenceStats}
use drift_triage_co_pilot.Drift.Output.{no_output_drift}
use drift_triage_co_pilot.Service.Predictions.{Prediction, fetch_rolling_window}
use drift_triage_co_pilot.Service.Alerts.{deliver, last_severity_of, maybe_emit_severity_webhook}
use drift_triage_co_pilot.Service.Reports.{
  DriftState, report_on, compute_drift, cached, serve_locked, get_drift_report, reset_drift,
}

take-nil : {A : Type 0} (n : ℕ) → take {A = A} n [] ≡ []
take-nil zero = refl
take-nil (suc n) = refl

module _ {F : Type 0} ⦃f : Float F⦄ (np : Numpy F) (settings : Settings F) where
  abbrev placeholder : String → ℕ → ReferenceStats F → String → ℕ → DriftReport F
  placeholder report_id timestamp ref_stats model_name model_version = record {
    report_id = report_id;
    model_name = model_name;
    model_version = model_version;
    timestamp = timestamp;
    psi_results = [];
    chi2_results = [];
    output_drift = no_output_drift ref_stats.output_proportions;
    severity = low;
    window_size = 0;
  }

  compute_drift-nil :
      (report_id : String) (timestamp : ℕ) (ref_stats : ReferenceStats F) (model_name : String)
      (model_version : ℕ)
      → compute_drift np settings report_id timestamp ref_stats [] model_name model_version
        ≡ ok (placeholder report_id timestamp ref_stats model_name model_version)
  unfolding compute_drift report_on fetch_rolling_window build_drift_report aggregate_severity
      max_severity
  compute_drift-nil report_id timestamp ref_stats model_name model_version =
      rw (take-nil {A = Prediction F} settings.drift_window_size) refl

first_served :
    {F : Type 0} (force : Bool) (arrived locked stored : ℕ) (r : DriftReport F)
    → get_drift_report force none arrived none locked (ok r) stored
      ≡ record { answer = ok r; cache = some (r, stored); task = some r }
unfolding get_drift_report serve_locked cached
first_served true arrived locked stored r = refl
first_served false arrived locked stored r = refl

module _ {F W : Type 0} ⦃f : Float F⦄ (np : Numpy F) (settings : Settings F)
    (post : DriftWebhookPayload F → W → Result (Unit {0}) × W) where
  -- The first request after a reset, forced or not, computes a report of severity low over an empty window, stores
  -- it and starts its task; and the task, run before any other, tries to deliver it as a change from no severity.
  pub reset_drift-report :
      (state : DriftState F) (ref_stats : ReferenceStats F) (report_id : String) (timestamp : ℕ)
      (model_name : String) (model_version : ℕ) (force : Bool) (arrived locked stored : ℕ)
      (event_id : String) (w : W)
      → let clean = reset_drift state in
        (r : DriftReport F) × (r.severity ≡ low)
        × (r.window_size ≡ 0)
        × (get_drift_report force clean.drift_cache arrived clean.drift_cache locked
              (compute_drift np settings report_id timestamp ref_stats clean.predictions model_name
                model_version)
              stored
            ≡ record { answer = ok r; cache = some (r, stored); task = some r })
        × (maybe_emit_severity_webhook post event_id r clean.drift_alert_state
              clean.drift_alert_state w
            ≡ deliver post r (report_to_webhook event_id r none) [] w)
  unfolding reset_drift maybe_emit_severity_webhook last_severity_of
  reset_drift-report state ref_stats report_id timestamp model_name model_version force arrived
        locked stored event_id w =
      (
        placeholder np settings report_id timestamp ref_stats model_name model_version,
        refl,
        refl,
        rw (compute_drift-nil np settings report_id timestamp ref_stats model_name model_version) (
            first_served force arrived locked stored
              (placeholder np settings report_id timestamp ref_stats model_name model_version)),
        refl,
      )
