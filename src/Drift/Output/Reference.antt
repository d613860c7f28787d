-- ===== src/Drift/Output/Reference.antt =====
-- backend/src/drift/output_drift.py: the results of `compute_output_drift`.
use drift_triage_co_pilot.Prelude.{
  ℕ, suc, ◌<◌, ◌≡◌, refl, ◌⊎◌, inl, inr, List, [], ◌∷◌, map, arith, length, length-append,
  length-replicate, ok, ◌==◌, nat_eq, false,
}
use drift_triage_co_pilot.Floating.{Float, Numpy, ◌≼◌, nought}
use drift_triage_co_pilot.Floating.Laws.{IsOrdered, IsSigned, IsNumpy}
use drift_triage_co_pilot.Drift.Psi.{psi_severity}
use drift_triage_co_pilot.Drift.Psi.Bounds.{compute_psi-nonneg}
use drift_triage_co_pilot.Drift.Output.{
  OutputDriftResult, Proportions, class_1_rate, reference_series, no_output_drift,
  compute_output_drift,
}

module _ {F : Type 0} ⦃f : Float F⦄ (np : Numpy F) (o : IsOrdered F) (sg : IsSigned F)
    (n : IsNumpy F np) where
  reference_series-pos : (r : F) → 0 < length (reference_series r)
  unfolding reference_series
  reference_series-pos r = rw (length-append, length-replicate) (omega arith)

  -- The output drift is computed for every window: an empty one gives the low placeholder, and any other
  -- an index that is not negative, with the severity of that index.
  pub compute_output_drift_total :
      (p : Proportions F) (labels : List ℕ)
      → (r : OutputDriftResult F) × (compute_output_drift np p labels ≡ ok r)
        × (nought ≼ r.psi)
        × (r.current_n ≡ length labels)
        × ((labels ≡ []) × (r ≡ no_output_drift p)
            ⊎ (0 < length labels) × (r.severity ≡ psi_severity r.psi))
  unfolding compute_output_drift
  compute_output_drift_total p [] =
      (no_output_drift p, refl, o.nought_le 0 0, refl, inl (refl, refl))
  compute_output_drift_total p (l ∷ ls) =
      let series = map (λ n. f.literal n 0) (l ∷ ls) in
      let (psi, e, nonneg) =
        compute_psi-nonneg np o sg n (reference_series (class_1_rate p)) series 2 (f.literal 1 8)
          (sg.epsilon_pos 8 refl) (reference_series-pos (class_1_rate p)) (omega arith) in
      (
        record {
          psi = psi;
          severity = psi_severity psi;
          reference_class_1_rate = class_1_rate p;
          current_class_1_rate = np.mean series;
          current_n = length (l ∷ ls);
        },
        (let filled : (suc (length ls) == 0) ≡ false = ground arith in rw (filled, e, nonneg) refl),
        nonneg,
        refl,
        inr (omega arith, refl),
      )
