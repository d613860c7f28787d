-- ===== src/Drift/Output.antt =====
-- backend/src/drift/output_drift.py: the stability index of the predicted classes.
pub mod Reference
use mathlib.Core.Option
use drift_triage_co_pilot.Prelude.{
  ℕ, ◌≡◌, Bool, String, List, [], ◌++◌, map, ◌==◌, nat_eq, length, replicate, if◌then◌else◌, Option,
  none, some, Result, ok, raised, validation_error, ◌>>=◌,
}
use drift_triage_co_pilot.Floating.{Float, Numpy, ◌≼◌, nought, one}
use drift_triage_co_pilot.Drift.Severity.{Severity, low}
use drift_triage_co_pilot.Drift.Psi.{psi_severity, compute_psi}

pub record OutputDriftResult (F : Type 0) : Type 0 where
  pub psi : F
  pub severity : Severity
  pub reference_class_1_rate : F
  pub current_class_1_rate : F
  pub current_n : ℕ

-- `reference_proportions`, with what `.get` finds under "0" and "1"
pub record Proportions (F : Type 0) : Type 0 where
  pub class_0 : Option F
  pub class_1 : Option F

module _ {F : Type 0} ⦃f : Float F⦄ where
  -- `reference_proportions.get("1", 0.0)`
  abbrev pub class_1_rate : Proportions F → F
  class_1_rate p = Option.get_or p.class_1 nought

  -- `pd.Series([0.0] * 100 + [1.0] * int(ref_rate * 100))`
  unfoldable pub reference_series : F → List F
  reference_series ref_rate =
      replicate 100 nought ++ replicate (f.to_int (f.mul ref_rate (f.literal 100 0))) one

  -- The placeholder for an empty window.
  abbrev pub no_output_drift : Proportions F → OutputDriftResult F
  no_output_drift p = record {
    psi = nought;
    severity = low;
    reference_class_1_rate = class_1_rate p;
    current_class_1_rate = nought;
    current_n = 0;
  }

  -- The labels of the window are 0 and 1.
  unfoldable pub compute_output_drift :
      Numpy F → Proportions F → List ℕ → Result (OutputDriftResult F)
  unfolding psi_severity reference_series
  compute_output_drift np reference_proportions current_predictions =
      let cur_series = map (λ n. f.literal n 0) current_predictions in
      let computed : Result (OutputDriftResult F) = do
        psi ←
            compute_psi np (reference_series (class_1_rate reference_proportions)) cur_series 2
              (f.literal 1 8)
        if f.le nought psi
            then ok (record {
              psi = psi;
              severity = psi_severity psi;
              reference_class_1_rate = class_1_rate reference_proportions;
              current_class_1_rate = np.mean cur_series;
              current_n = length current_predictions;
            })
            else raised (validation_error "OutputDriftResult")
      in if length current_predictions == 0
        then ok (no_output_drift reference_proportions)
        else computed
