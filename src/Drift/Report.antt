-- ===== src/Drift/Report.antt =====
-- backend/src/drift/severity.py: the aggregate report and the versioned webhook payload (contract v1).
-- A timestamp is a number, and the identifiers that `uuid4` draws are arguments.
pub mod Aggregate
pub mod Payload
use drift_triage_co_pilot.Prelude.{
  ℕ, ◌≤◌, ◌≡◌, Bool, true, false, not, ◌&&◌, ◌||◌, String, ◌&◌, truthy, str_int, List, [], ◌∷◌,
  ◌++◌, map, take, all_of, ◌==◌, nat_eq, ltb, leb, if◌then◌else◌, Option, none, some, Result, ok,
  raised, value_error, validation_error, ◌>>=◌,
}
use drift_triage_co_pilot.Prelude.Sorting.{sorted_by}
use drift_triage_co_pilot.Floating.{Float, ◌≼◌, nought, one}
use drift_triage_co_pilot.Drift.Severity.{
  Severity, severity_order, severity_text, severity_eq, max_severity,
}
use drift_triage_co_pilot.Drift.Psi.{PsiResult}
use drift_triage_co_pilot.Drift.Chi2.{Chi2Result}
use drift_triage_co_pilot.Drift.Output.{OutputDriftResult}

pub record DriftReport (F : Type 0) : Type 0 where
  pub report_id : String
  pub model_name : String
  pub model_version : ℕ
  pub timestamp : ℕ
  pub psi_results : List (PsiResult F)
  pub chi2_results : List (Chi2Result F)
  pub output_drift : OutputDriftResult F
  pub severity : Severity
  pub window_size : ℕ

pub data Metric : Type 0 where
  psi chi2 : Metric

pub record WebhookPsiResult (F : Type 0) : Type 0 where
  pub feature : String
  pub psi : F
  pub severity : Severity

pub record WebhookChi2Result (F : Type 0) : Type 0 where
  pub feature : String
  pub statistic : F
  pub p_value : F
  pub severity : Severity

pub record WebhookOutputDrift (F : Type 0) : Type 0 where
  pub psi : F
  pub severity : Severity

pub record WebhookTopFeature (F : Type 0) : Type 0 where
  pub feature : String
  pub metric : Metric
  pub value : F
  pub severity : Severity

pub record WebhookDriftSummary : Type 0 where
  pub text : String
  pub window_size : ℕ
  pub output_drift_severity : Severity

-- `schema_version` is the constant "v1".
pub record DriftWebhookPayload (F : Type 0) : Type 0 where
  pub event_id : String
  pub report_id : String
  pub previous_severity : Option Severity
  pub model_name : String
  pub model_version : ℕ
  pub severity : Severity
  pub created_at : ℕ
  pub drift_summary : WebhookDriftSummary
  pub top_features : List (WebhookTopFeature F)
  pub psi_results : List (WebhookPsiResult F)
  pub chi2_results : List (WebhookChi2Result F)
  pub output_drift : WebhookOutputDrift F
  pub window_size : ℕ

module _ {F : Type 0} where
  -- `all_severities`
  abbrev pub all_severities :
      List (PsiResult F) → List (Chi2Result F) → OutputDriftResult F → List Severity
  all_severities psi_results chi2_results output_drift =
      map (λ r. r.severity) psi_results
      ++ (map (λ r. r.severity) chi2_results ++ output_drift.severity ∷ [])

  unfoldable pub aggregate_severity :
      List (PsiResult F) → List (Chi2Result F) → OutputDriftResult F → Result Severity
  aggregate_severity psi_results chi2_results output_drift =
      elim (max_severity (all_severities psi_results chi2_results output_drift)) [
        | none ↦ raised (value_error "max() arg is an empty sequence")
        | some s ↦ ok s
      ]

  unfoldable pub build_drift_report :
      (report_id : String) (timestamp : ℕ) (model_name : String) (model_version : ℕ)
      → List (PsiResult F)
      → List (Chi2Result F)
      → OutputDriftResult F
      → ℕ
      → Result (DriftReport F)
  build_drift_report report_id timestamp model_name model_version psi_results chi2_results
        output_drift window_size =
      do
        severity ← aggregate_severity psi_results chi2_results output_drift
        ok (record {
          report_id = report_id;
          model_name = model_name;
          model_version = model_version;
          timestamp = timestamp;
          psi_results = psi_results;
          chi2_results = chi2_results;
          output_drift = output_drift;
          severity = severity;
          window_size = window_size;
        })

  -- The features of both tests, the numeric ones first.
  unfoldable pub feature_summaries : DriftReport F → List (WebhookTopFeature F)
  feature_summaries report =
      map (λ r. record { feature = r.feature; metric = psi; value = r.psi; severity = r.severity })
        report.psi_results
      ++ map
          (λ r. record {
            feature = r.feature;
            metric = chi2;
            value = r.statistic;
            severity = r.severity;
          })
          report.chi2_results

  -- `f"Drift severity changed from ..."`
  unfoldable pub summary_text : DriftReport F → Option Severity → String
  summary_text report previous_severity =
      "Drift severity changed from "
      & elim previous_severity [ none ↦ "none" | some s ↦ severity_text s ]
      & " to "
      & severity_text report.severity
      & " for "
      & report.model_name
      & " v"
      & str_int report.model_version
      & "."

module _ {F : Type 0} ⦃f : Float F⦄ where
  -- The key of `sorted(..., reverse=True)` is (order of the severity, value), compared as a pair; a
  -- descending stable sort lets `x` stay in front of `y` unless the key of `x` is less.
  unfoldable pub ranks_before : WebhookTopFeature F → WebhookTopFeature F → Bool
  ranks_before x y = not (
      ltb (severity_order x.severity) (severity_order y.severity)
      || (severity_order x.severity == severity_order y.severity && f.lt x.value y.value))

  unfoldable pub top_features : DriftReport F → List (WebhookTopFeature F)
  unfolding feature_summaries ranks_before
  top_features report = take 5 (sorted_by ranks_before (feature_summaries report))

  -- What the `Field` constraints of the payload and its parts ask.
  unfoldable pub satisfies_contract : DriftWebhookPayload F → Bool
  satisfies_contract p =
      truthy p.event_id
      && (truthy p.report_id
          && (truthy p.model_name
              && (leb 1 p.model_version
                  && (truthy p.drift_summary.text
                      && (all_of (λ t. f.le nought t.value) p.top_features
                          && (all_of (λ r. f.le nought r.psi) p.psi_results
                              && (all_of
                                    (λ r.
                                      f.le nought r.statistic
                                      && (f.le nought r.p_value && f.le r.p_value one))
                                    p.chi2_results
                                  && f.le nought p.output_drift.psi)))))))

  -- The payload as `report_to_webhook` fills it in, before its validation.
  unfoldable pub webhook_fields :
      (event_id : String) → DriftReport F → Option Severity → DriftWebhookPayload F
  unfolding top_features summary_text
  webhook_fields event_id report previous_severity = record {
    event_id = event_id;
    report_id = report.report_id;
    previous_severity = previous_severity;
    model_name = report.model_name;
    model_version = report.model_version;
    severity = report.severity;
    created_at = report.timestamp;
    drift_summary = record {
      text = summary_text report previous_severity;
      window_size = report.window_size;
      output_drift_severity = report.output_drift.severity;
    };
    top_features = top_features report;
    psi_results =
        map (λ r. record { feature = r.feature; psi = r.psi; severity = r.severity })
          report.psi_results;
    chi2_results =
        map
          (λ r. record {
            feature = r.feature;
            statistic = r.statistic;
            p_value = r.p_value;
            severity = r.severity;
          })
          report.chi2_results;
    output_drift = record {
      psi = report.output_drift.psi;
      severity = report.output_drift.severity;
    };
    window_size = report.window_size;
  }

  unfoldable pub report_to_webhook :
      (event_id : String) → DriftReport F → Option Severity → Result (DriftWebhookPayload F)
  report_to_webhook event_id report previous_severity =
      let payload = webhook_fields event_id report previous_severity in
      if satisfies_contract payload
      then ok payload
      else raised (validation_error "DriftWebhookPayload")
