-- ===== src/Drift/Report/Aggregate.antt =====
-- backend/src/drift/severity.py: the aggregate severity.
use drift_triage_co_pilot.Prelude.{
  ℕ, ◌≡◌, refl, String, List, [], ◌∷◌, ◌++◌, map, some, ok, All, All-of_map, All-append_left,
  All-append_right, Occurs,
}
use drift_triage_co_pilot.Drift.Severity.{Severity, IsAtMost, max_severity, max_severity-cons}
use drift_triage_co_pilot.Drift.Psi.{PsiResult}
use drift_triage_co_pilot.Drift.Chi2.{Chi2Result}
use drift_triage_co_pilot.Drift.Output.{OutputDriftResult}
use drift_triage_co_pilot.Drift.Report.{
  DriftReport, all_severities, aggregate_severity, build_drift_report,
}

max_of_append :
    (xs ys : List Severity) (s : Severity)
    → (m : Severity) × (max_severity (xs ++ (ys ++ s ∷ [])) ≡ some m)
      × All (IsAtMost m) (xs ++ (ys ++ s ∷ []))
      × Occurs m (xs ++ (ys ++ s ∷ []))
max_of_append [] [] s = max_severity-cons s []
max_of_append [] (y ∷ ys) s = max_severity-cons y (ys ++ s ∷ [])
max_of_append (x ∷ xs) ys s = max_severity-cons x (xs ++ (ys ++ s ∷ []))

module _ {F : Type 0} where
  -- Whatever the results, the report is built; it keeps what it was given, and its severity is at least
  -- that of each numeric test, of each categorical test and of the output drift, and is one of them.
  pub build_drift_report_max :
      (report_id : String) (timestamp : ℕ) (name : String) (version : ℕ) (psi : List (PsiResult F))
      (chi2 : List (Chi2Result F)) (out : OutputDriftResult F) (window : ℕ)
      → (r : DriftReport F) × (build_drift_report report_id timestamp name version psi chi2 out
            window
          ≡ ok r)
        × All (λ p. IsAtMost r.severity p.severity) r.psi_results
        × All (λ c. IsAtMost r.severity c.severity) r.chi2_results
        × IsAtMost r.severity r.output_drift.severity
        × Occurs r.severity (all_severities psi chi2 out)
        × (r.psi_results ≡ psi)
        × (r.chi2_results ≡ chi2)
        × (r.output_drift ≡ out)
        × (r.window_size ≡ window)
  unfolding build_drift_report aggregate_severity
  build_drift_report_max report_id timestamp name version psi chi2 out window =
      let ps = map (λ r. r.severity) psi in
      let cs = map (λ r. r.severity) chi2 in
      let (m, e, most, occurs) = max_of_append ps cs out.severity in
      let later = All-append_right (IsAtMost m) ps (cs ++ out.severity ∷ []) most in
      let last = All-append_right (IsAtMost m) cs (out.severity ∷ []) later in
      (
        record {
          report_id = report_id;
          model_name = name;
          model_version = version;
          timestamp = timestamp;
          psi_results = psi;
          chi2_results = chi2;
          output_drift = out;
          severity = m;
          window_size = window;
        },
        rw (e, aggregate_severity) refl,
        All-of_map (IsAtMost m) (λ r. r.severity) psi (All-append_left (IsAtMost m) ps _ most),
        All-of_map (IsAtMost m) (λ r. r.severity) chi2 (All-append_left (IsAtMost m) cs _ later),
        last.0,
        occurs,
        refl,
        refl,
        refl,
        refl,
      )

  -- The report, field by field.
  pub build_drift_report-fields :
      (report_id : String) (timestamp : ℕ) (name : String) (version : ℕ) (psi : List (PsiResult F))
      (chi2 : List (Chi2Result F)) (out : OutputDriftResult F) (window : ℕ)
      → (s : Severity) × (build_drift_report report_id timestamp name version psi chi2 out window
          ≡ ok (record {
            report_id = report_id;
            model_name = name;
            model_version = version;
            timestamp = timestamp;
            psi_results = psi;
            chi2_results = chi2;
            output_drift = out;
            severity = s;
            window_size = window;
          }))
  unfolding build_drift_report aggregate_severity
  build_drift_report-fields report_id timestamp name version psi chi2 out window =
      let ps = map (λ r. r.severity) psi in
      let cs = map (λ r. r.severity) chi2 in
      let (m, e, most, occurs) = max_of_append ps cs out.severity in
      (m, rw (e, build_drift_report, aggregate_severity) refl)
