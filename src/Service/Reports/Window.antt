-- ===== src/Service/Reports/Window.antt =====
-- backend/src/service/routers/drift.py, `_compute_drift`: the report over any window, and its webhook.
use drift_triage_co_pilot.Prelude.{
  ℕ, ◌≤◌, ◌<◌, ◌≡◌, refl, subst, ◌∙◌, String, none, some, List, [], ◌∷◌, map, length, min,
  length-take, All, All-imp, inl, inr, Bool-cases, Option-cases, ok, arith, collect-ok, ◌==◌,
  string_eq,
}
use drift_triage_co_pilot.Floating.{Float, Numpy, ◌≼◌, nought, one}
use drift_triage_co_pilot.Floating.Laws.{IsOrdered, IsSigned, IsNumpy}
use drift_triage_co_pilot.Settings.{Settings}
use drift_triage_co_pilot.Drift.Psi.{PsiResult, psi_result}
use drift_triage_co_pilot.Drift.Psi.Bounds.{psi_result_total}
use drift_triage_co_pilot.Drift.Chi2.{Chi2Result, chi2_result}
use drift_triage_co_pilot.Drift.Chi2.Bounds.{chi2_result_total}
use drift_triage_co_pilot.Drift.Output.{no_output_drift}
use drift_triage_co_pilot.Drift.Output.Reference.{compute_output_drift_total}
use drift_triage_co_pilot.Drift.Report.{DriftReport, build_drift_report}
use drift_triage_co_pilot.Drift.Report.Aggregate.{build_drift_report-fields}
use drift_triage_co_pilot.Drift.Report.Payload.{IsValidated}
use drift_triage_co_pilot.Ml.Data.{numeric_features, categorical_features}
use drift_triage_co_pilot.Ml.Reference.{NumericStats, ReferenceStats, lookup, IsReference}
use drift_triage_co_pilot.Service.Predictions.{Prediction, Table, fetch_rolling_window}
use drift_triage_co_pilot.Service.Reports.{
  known, collect_column, number_columns, numeric_column, categorical_column, psi_results_of,
  chi2_results_of, report_on, compute_drift,
}

module _ {V : Type 0} (P : V → Type 0) where
  lookup-All :
      (key : String) (d : List (String × V)) (v : V)
      → All (λ e. P e.1) d
      → lookup key d ≡ some v
      → P v
  lookup-All key [] v all found = ground (arith, found)
  lookup-All key ((k, w) ∷ d) v all found = elim (Bool-cases (k == key)) [
    | inl same ↦
        subst (λ o. elim o [ none ↦ Unit | some u ↦ P u ]) (rw (same, lookup) at found) all.0
    | inr other ↦ lookup-All key d v all.1 (rw (other, lookup) at found)
  ]

  known-All :
      (Q : String → Type 0) (names : List String) (d : List (String × V))
      → All Q names
      → All (λ e. P e.1) d
      → All (λ e. Q e.0 × P e.1) (known names d)
  unfolding known
  known-All Q [] d named all = tt
  known-All Q (feat ∷ names) d named all = elim (Option-cases (lookup feat d)) [
    | inl absent ↦ rw (absent, known) (known-All Q names d named.1 all)
    | inr (v, found) ↦
        rw (found, known)
          ((named.0, lookup-All feat d v all found), known-All Q names d named.1 all)
  ]

All-Unit : (names : List String) → All (λ _. Unit {0}) names
All-Unit [] = tt
All-Unit (feat ∷ names) = (tt, All-Unit names)

All-right :
    {V : Type 0} (Q : String → Type 0) (P : V → Type 0) (d : List (String × V))
    → All (λ e. Q e.0 × P e.1) d
    → All (λ e. P e.1) d
All-right Q P [] h = tt
All-right Q P (e ∷ d) h = (h.0.1, All-right Q P d h.1)

length-known :
    {V : Type 0} (names : List String) (d : List (String × V))
    → length (known names d) ≤ length names
unfolding known
length-known [] d = omega arith
length-known (feat ∷ names) d = elim (Option-cases (lookup feat d)) [
  | inl absent ↦ rw (absent, known) (omega (arith, length-known names d))
  | inr (v, found) ↦ rw (found, known) (omega (arith, length-known names d))
]

module _ {A V : Type 0} (columns : A → List (String × V)) where
  -- Every row has the column.
  abbrev HasColumn : String → Type 0
  HasColumn feat = (x : A) → (v : V) × (lookup feat (columns x) ≡ some v)

  length-collect_column :
      (feat : String) (xs : List A)
      → HasColumn feat
      → length (collect_column columns feat xs) ≡ length xs
  unfolding collect_column
  length-collect_column feat [] has = refl
  length-collect_column feat (x ∷ xs) has =
      let (v, found) = has x in
      rw (found, collect_column) (omega (arith, length-collect_column feat xs has))

module _ {F : Type 0} ⦃f : Float F⦄ where
  numeric-HasColumn :
      All (HasColumn (λ (row : Prediction F). number_columns row.features)) numeric_features
  numeric-HasColumn = (
    λ x. (_, refl),
    (
      λ x. (_, refl),
      (
        λ x. (_, refl),
        (
          λ x. (_, refl),
          (
            λ x. (_, refl),
            (
              λ x. (_, refl),
              (λ x. (_, refl), (λ x. (_, refl), (λ x. (_, refl), (λ x. (_, refl), tt)))),
            ),
          ),
        ),
      ),
    ),
  )

module _ {F : Type 0} ⦃f : Float F⦄ (np : Numpy F) (o : IsOrdered F) (sg : IsSigned F)
    (n : IsNumpy F np) (settings : Settings F) where
  -- A known feature of either test.
  abbrev IsSampled : String × NumericStats F → Type 0
  IsSampled e =
      HasColumn (λ (row : Prediction F). number_columns row.features) e.0
      × (0 < length e.1.reference_values)

  abbrev HasShares : String × List (String × F) → Type 0
  HasShares e = All (λ g. nought ≼ g.1) e.1

  abbrev IsProper : Chi2Result F → Type 0
  IsProper r = (nought ≼ r.statistic) × (nought ≼ r.p_value) × (r.p_value ≼ one)

  psi_of :
      (df : List (Prediction F)) (e : String × NumericStats F)
      → 0 < length df
      → IsSampled e
      → (r : PsiResult F) × (psi_result np e.0 e.1.reference_values (numeric_column e.0 df) 10
          ≡ ok r)
        × (nought ≼ r.psi)
  psi_of df e filled sampled =
      let (r, built, nonneg, _, _, _, _) =
        psi_result_total np o sg n e.0 e.1.reference_values (numeric_column e.0 df) 10 sampled.1 (
          omega (
            arith,
            filled,
            length-collect_column (λ (row : Prediction F). number_columns row.features) e.0 df
                sampled.0,
          )) in
      (r, built, nonneg)

  chi2_of :
      (df : List (Prediction F)) (e : String × List (String × F))
      → HasShares e
      → (r : Chi2Result F) × (chi2_result np settings e.0 e.1 (categorical_column e.0 df) none
          ≡ ok r)
        × IsProper r
  chi2_of df e shares =
      let (r, built, stat, p_low, p_high, _, _) =
        chi2_result_total np o sg n settings e.0 e.1 (categorical_column e.0 df) none shares in
      (r, built, (stat, p_low, p_high))

  psi_results_of-ok :
      (ref_stats : ReferenceStats F) (df : List (Prediction F))
      → IsReference ref_stats
      → 0 < length df
      → (rs : List (PsiResult F)) × (psi_results_of np settings ref_stats df ≡ ok rs)
        × All (λ r. nought ≼ r.psi) rs
        × (length rs ≤ 10)
  unfolding psi_results_of
  psi_results_of-ok ref_stats df is filled =
      let (rs, e, fine, long) =
        collect-ok _ IsSampled (λ r. nought ≼ r.psi) (λ e given. psi_of df e filled given)
          (known numeric_features ref_stats.numeric)
          (known-All (λ stats. 0 < length stats.reference_values) _ numeric_features
            ref_stats.numeric numeric-HasColumn is.samples) in
      (rs, e, fine, omega (arith, long, length-known numeric_features ref_stats.numeric))

  chi2_results_of-ok :
      (ref_stats : ReferenceStats F) (df : List (Prediction F))
      → IsReference ref_stats
      → (rs : List (Chi2Result F)) × (chi2_results_of np settings ref_stats df ≡ ok rs)
        × All IsProper rs
        × (length rs ≤ 10)
  unfolding chi2_results_of
  chi2_results_of-ok ref_stats df is =
      let (rs, e, fine, long) =
        collect-ok _ HasShares IsProper (chi2_of df)
          (known categorical_features ref_stats.categorical)
          (All-right (λ _. Unit) (λ shares. All (λ g. nought ≼ g.1) shares) _
            (known-All (λ shares. All (λ g. nought ≼ g.1) shares) (λ _. Unit) categorical_features
              ref_stats.categorical (All-Unit categorical_features) is.shares)) in
      (rs, e, fine, omega (arith, long, length-known categorical_features ref_stats.categorical))

  results-IsValidated :
      (r : DriftReport F)
      → All (λ p. nought ≼ p.psi) r.psi_results
      → All IsProper r.chi2_results
      → nought ≼ r.output_drift.psi
      → IsValidated r
  results-IsValidated r psi chi2 output = record {
    psi_nonneg = psi;
    statistic_nonneg = All-imp IsProper _ (λ c h. h.0) r.chi2_results chi2;
    p_value_nonneg = All-imp IsProper _ (λ c h. h.1) r.chi2_results chi2;
    p_value-le-one = All-imp IsProper _ (λ c h. h.2) r.chi2_results chi2;
    output_nonneg = output;
  }

  -- What is said of a report over `size` rows.
  record IsReport (r : DriftReport F) (size : ℕ) : Type 0 where
    validated : IsValidated r
    covers : r.window_size ≡ size
    psi_at_most : length r.psi_results ≤ 10
    chi2_at_most : length r.chi2_results ≤ 10

  report_on_total :
      (report_id : String) (timestamp : ℕ) (ref_stats : ReferenceStats F) (df : List (Prediction F))
      (model_name : String) (model_version : ℕ)
      → IsReference ref_stats
      → (r : DriftReport F) × (report_on np settings report_id timestamp ref_stats df model_name
            model_version
          ≡ ok r)
        × IsReport r (length df)
        × (r.report_id ≡ report_id)
        × (r.model_name ≡ model_name)
        × (r.model_version ≡ model_version)
  unfolding report_on
  report_on_total report_id timestamp ref_stats [] model_name model_version is =
      let (s, e) =
        build_drift_report-fields report_id timestamp model_name model_version [] []
          (no_output_drift ref_stats.output_proportions) 0 in
      (
        _,
        e,
        record {
          validated = results-IsValidated _ tt tt (o.nought_le 0 0);
          covers = refl;
          psi_at_most = omega arith;
          chi2_at_most = omega arith;
        },
        refl,
        refl,
        refl,
      )
  report_on_total report_id timestamp ref_stats (row ∷ rows) model_name model_version is =
      let (ps, psi_built, psi_fine, psi_few) =
        psi_results_of-ok ref_stats (row ∷ rows) is (omega arith) in
      let (cs, chi2_built, chi2_fine, chi2_few) = chi2_results_of-ok ref_stats (row ∷ rows) is in
      let (out, out_built, out_fine, counted, cases) =
        compute_output_drift_total np o sg n ref_stats.output_proportions
          (map (λ p. p.label) (row ∷ rows)) in
      let (s, e) =
        build_drift_report-fields report_id timestamp model_name model_version ps cs out
          (length (row ∷ rows)) in
      let built : report_on np settings report_id timestamp ref_stats (row ∷ rows) model_name
            model_version
          ≡ build_drift_report report_id timestamp model_name model_version ps cs out
              (length (row ∷ rows)) =
        rw (psi_built, chi2_built, out_built) refl in
      (
        _,
        built ∙ e,
        record {
          validated = results-IsValidated _ psi_fine chi2_fine out_fine;
          covers = refl;
          psi_at_most = psi_few;
          chi2_at_most = chi2_few;
        },
        refl,
        refl,
        refl,
      )

  -- With reference statistics whose numeric samples are not empty and whose shares are not negative, a report is
  -- computed from every table of predictions. It passes its validation, covers the newest rows, as many as there
  -- are up to the configured window, and has at most ten numeric and ten categorical results.
  pub compute_drift_total :
      (report_id : String) (timestamp : ℕ) (ref_stats : ReferenceStats F) (rows : Table F)
      (model_name : String) (model_version : ℕ)
      → IsReference ref_stats
      → (r : DriftReport F) × (compute_drift np settings report_id timestamp ref_stats rows
            model_name model_version
          ≡ ok r)
        × IsValidated r
        × (r.window_size ≡ min settings.drift_window_size (length rows))
        × (length r.psi_results ≤ 10)
        × (length r.chi2_results ≤ 10)
        × (r.report_id ≡ report_id)
        × (r.model_name ≡ model_name)
        × (r.model_version ≡ model_version)
  unfolding compute_drift fetch_rolling_window
  compute_drift_total report_id timestamp ref_stats rows model_name model_version is =
      let df = fetch_rolling_window rows settings.drift_window_size in
      let (r, e, fine, id_kept, name_kept, version_kept) =
        report_on_total report_id timestamp ref_stats df model_name model_version is in
      (
        r,
        e,
        fine.validated,
        fine.covers ∙ length-take settings.drift_window_size rows,
        fine.psi_at_most,
        fine.chi2_at_most,
        id_kept,
        name_kept,
        version_kept,
      )
