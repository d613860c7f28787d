-- ===== src/Drift/Tests.antt =====
-- The theorems on the drift tests at concrete inputs, over the fixed-point numbers of `Floating.Fixed`.
use mathlib.Core.List.{Perm}
use drift_triage_co_pilot.Prelude.{
  ℕ, ◌<◌, ◌≡◌, refl, ◌⊎◌, true, String, none, some, List, [], ◌∷◌, ◌++◌, ok, All, Occurs, length,
  min, arith,
}
use mathlib.Core.Option
use drift_triage_co_pilot.Prelude.Sorting.{IsSortedBy}
use drift_triage_co_pilot.Settings.{default_settings}
use drift_triage_co_pilot.Floating.{◌≼◌, nought, one}
use drift_triage_co_pilot.Floating.Fixed.{
  Fixed, fixed_float, fixed_numpy, Fixed-IsOrdered, Fixed-IsSigned, Fixed-IsNumpy,
}
use drift_triage_co_pilot.Drift.Severity.{low, high, IsAtMost}
use drift_triage_co_pilot.Drift.Psi.{PsiResult, psi_severity, psi_result}
use drift_triage_co_pilot.Drift.Psi.Bounds.{psi_result_total}
use drift_triage_co_pilot.Drift.Chi2.{Chi2Result, chi2_severity, chi2_result}
use drift_triage_co_pilot.Drift.Chi2.Bounds.{chi2_result_total}
use drift_triage_co_pilot.Drift.Output.{
  OutputDriftResult, Proportions, compute_output_drift, no_output_drift,
}
use drift_triage_co_pilot.Drift.Output.Reference.{compute_output_drift_total}
use drift_triage_co_pilot.Drift.Report.{
  DriftReport, DriftWebhookPayload, WebhookTopFeature, all_severities, build_drift_report,
  top_features, feature_summaries, ranks_before, report_to_webhook,
}
use drift_triage_co_pilot.Drift.Report.Aggregate.{build_drift_report_max}
use drift_triage_co_pilot.Drift.Report.Payload.{
  IsValidated, SameTests, top_features-greatest, report_to_webhook-valid,
}

abbrev ages : List Fixed
ages = 1_800_000_000 ∷ 2_500_000_000 ∷ 4_400_000_000 ∷ []

abbrev later_ages : List Fixed
later_ages = 4_000_000_000 ∷ 6_100_000_000 ∷ []

psi_result_total_example :
    (r : PsiResult Fixed) × (psi_result fixed_numpy "age" ages later_ages 10 ≡ ok r)
    × (nought ≼ r.psi)
    × (r.feature ≡ "age")
    × (r.severity ≡ psi_severity r.psi)
    × (r.reference_n ≡ length ages)
    × (r.current_n ≡ length later_ages)
psi_result_total_example =
    psi_result_total fixed_numpy Fixed-IsOrdered Fixed-IsSigned Fixed-IsNumpy "age" ages later_ages
      10 (omega arith) (omega arith)

abbrev shares : List (String × Fixed)
shares = ("cellular", 60_000_000) ∷ ("telephone", 40_000_000) ∷ []

abbrev contacts : List String
contacts = "cellular" ∷ "cellular" ∷ []

chi2_result_total_example :
    (r : Chi2Result Fixed) × (chi2_result fixed_numpy
        (default_settings "key")
        "contact"
        shares
        contacts
        none
      ≡ ok r)
    × (nought ≼ r.statistic)
    × (nought ≼ r.p_value)
    × (r.p_value ≼ one)
    × (r.severity
        ≡ chi2_severity r.p_value
            (Option.get_or none (default_settings {F = Fixed} "key").drift_chi2_alpha))
    × (r.current_n ≡ length contacts)
chi2_result_total_example =
    chi2_result_total fixed_numpy Fixed-IsOrdered Fixed-IsSigned Fixed-IsNumpy
      (default_settings "key") "contact" shares contacts none (refl, (refl, tt))

abbrev age_drift : PsiResult Fixed
age_drift = record {
  feature = "age";
  psi = 31_000_000;
  severity = high;
  reference_n = 3;
  current_n = 2;
}

abbrev output_drift : OutputDriftResult Fixed
output_drift = record {
  psi = 2_000_000;
  severity = low;
  reference_class_1_rate = 11_000_000;
  current_class_1_rate = 12_000_000;
  current_n = 500;
}

build_drift_report_max_example :
    (r : DriftReport Fixed) × (build_drift_report "r1" 7 "bank" 2
        (age_drift ∷ [])
        []
        output_drift
        500
      ≡ ok r)
    × All (λ p. IsAtMost r.severity p.severity) r.psi_results
    × All (λ c. IsAtMost r.severity c.severity) r.chi2_results
    × IsAtMost r.severity r.output_drift.severity
    × Occurs r.severity (all_severities (age_drift ∷ []) [] output_drift)
    × (r.psi_results ≡ age_drift ∷ [])
    × (r.chi2_results ≡ [])
    × (r.output_drift ≡ output_drift)
    × (r.window_size ≡ 500)
build_drift_report_max_example =
    build_drift_report_max "r1" 7 "bank" 2 (age_drift ∷ []) [] output_drift 500

abbrev labels : List ℕ
labels = 1 ∷ 0 ∷ []

abbrev proportions : Proportions Fixed
proportions = record { class_0 = some 89_000_000; class_1 = some 11_000_000 }

compute_output_drift_total_example :
    (r : OutputDriftResult Fixed) × (compute_output_drift fixed_numpy proportions labels ≡ ok r)
    × (nought ≼ r.psi)
    × (r.current_n ≡ 2)
    × ((labels ≡ []) × (r ≡ no_output_drift proportions)
        ⊎ (0 < 2) × (r.severity ≡ psi_severity r.psi))
compute_output_drift_total_example =
    compute_output_drift_total fixed_numpy Fixed-IsOrdered Fixed-IsSigned Fixed-IsNumpy proportions
      labels

abbrev report : DriftReport Fixed
report = record {
  report_id = "r1";
  model_name = "bank";
  model_version = 2;
  timestamp = 7;
  psi_results = age_drift ∷ [];
  chi2_results = [];
  output_drift = output_drift;
  severity = high;
  window_size = 500;
}

report-IsValidated : IsValidated report
report-IsValidated = record {
  psi_nonneg = (refl, tt);
  statistic_nonneg = tt;
  p_value_nonneg = tt;
  p_value-le-one = tt;
  output_nonneg = refl;
}

top_features-greatest_example :
    (rest : List (WebhookTopFeature Fixed)) × Perm
      (top_features report ++ rest)
      (feature_summaries report)
    × (length (top_features report) ≡ min 5 (length (feature_summaries report)))
    × IsSortedBy ranks_before (top_features report ++ rest)
    × All (λ t. All (λ u. ranks_before t u ≡ true) rest) (top_features report)
top_features-greatest_example = top_features-greatest Fixed-IsOrdered report report-IsValidated

report_to_webhook-valid_example :
    (p : DriftWebhookPayload Fixed) × (report_to_webhook "e1" report (some low) ≡ ok p)
    × (p.severity ≡ high)
    × (p.previous_severity ≡ some low)
    × (p.report_id ≡ "r1")
    × (p.top_features ≡ top_features report)
    × (p.window_size ≡ 500)
    × SameTests report p
report_to_webhook-valid_example =
    report_to_webhook-valid Fixed-IsOrdered "e1" report (some low) refl refl refl (omega arith)
      report-IsValidated
