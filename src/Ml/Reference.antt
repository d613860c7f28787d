-- ===== src/Ml/Reference.antt =====
-- backend/src/ml/reference_stats.py: the statistics that the drift tests compare with. A dict is a list of its
-- pairs, and a lookup finds the first.
pub mod Compute
pub mod Sound
use drift_triage_co_pilot.Prelude.{
  true, false, ℕ, ◌<◌, length, All, String, Option, none, some, List, [], ◌∷◌, ◌==◌, string_eq,
}
use drift_triage_co_pilot.Drift.Output.{Proportions}
use drift_triage_co_pilot.Floating.{Float, ◌≼◌, nought}

pub record NumericStats (F : Type 0) : Type 0 where
  pub mean : F
  pub std : F
  pub quantiles : List F
  pub reference_values : List F

pub record ReferenceStats (F : Type 0) : Type 0 where
  pub numeric : List (String × NumericStats F)
  pub categorical : List (String × List (String × F))
  pub output_proportions : Proportions F
  pub dataset_hash : String

abbrev pub lookup {ℓ} : {V : Type ℓ} → String → List (String × V) → Option V
lookup key [] = none
lookup key ((k, v) ∷ d) =
    let rest = lookup key d in elim (k == key) [ true ↦ some v | false ↦ rest ]

-- What a drift report needs of the statistics: no numeric sample is empty, and no share is negative.
pub record IsReference {F : Type 0} ⦃f : Float F⦄ (ref_stats : ReferenceStats F) : Type 0 where
  pub samples : All (λ e. 0 < length e.1.reference_values) ref_stats.numeric
  pub shares : All (λ e. All (λ g. nought ≼ g.1) e.1) ref_stats.categorical
