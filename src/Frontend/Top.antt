-- ===== src/Frontend/Top.antt =====
-- frontend/app.py, `top_drift_features`: the features of a report that the dashboard shows first.
pub mod Shown
use drift_triage_co_pilot.Prelude.{
  ℕ, Bool, true, false, not, ◌&&◌, String, ◌==◌, nat_eq, List, [], ◌∷◌, ◌++◌, map, take, ltb,
  if◌then◌else◌,
}
use drift_triage_co_pilot.Prelude.Sorting.{sorted_by}
use drift_triage_co_pilot.Floating.{Float, nought, one}
use drift_triage_co_pilot.Drift.Severity.{Severity, low, medium, high}
use drift_triage_co_pilot.Drift.Psi.{PsiResult}
use drift_triage_co_pilot.Drift.Chi2.{Chi2Result}
use drift_triage_co_pilot.Drift.Report.{DriftReport}

pub data TestType : Type 0 where
  psi chi_square : TestType

-- An item as it is shown.
pub record TopFeature (F : Type 0) : Type 0 where
  pub feature : String
  pub type : TestType
  pub value : F
  pub severity : Severity

-- An item with its `_sort`.
pub record Ranked (F : Type 0) : Type 0 where
  pub item : TopFeature F
  pub rank : ℕ
  pub number : F

-- `{"high": 3, "medium": 2, "low": 1}`
abbrev pub rank_of : Severity → ℕ
rank_of high = 3
rank_of medium = 2
rank_of low = 1

module _ {F : Type 0} ⦃f : Float F⦄ (round : F → ℕ → F) where
  -- `float(x or fallback)`: 0 is false.
  abbrev pub or_number : F → F → F
  or_number x fallback = if f.le x nought && f.le nought x then fallback else x

  unfoldable pub psi_item : PsiResult F → Ranked F
  psi_item result =
      let psi_value = or_number result.psi nought in
      record {
        item = record {
          feature = result.feature;
          type = psi;
          value = round psi_value 4;
          severity = result.severity;
        };
        rank = rank_of result.severity;
        number = psi_value;
      }

  unfoldable pub chi2_item : Chi2Result F → Ranked F
  chi2_item result =
      let p_value = or_number result.p_value one in
      record {
        item = record {
          feature = result.feature;
          type = chi_square;
          value = round p_value 6;
          severity = result.severity;
        };
        rank = rank_of result.severity;
        number = f.sub one p_value;
      }

  -- `x["_sort"] < y["_sort"]`, of two pairs
  abbrev pub is_below : Ranked F → Ranked F → Bool
  is_below x y = if x.rank == y.rank then f.lt x.number y.number else ltb x.rank y.rank

  -- `sorted(..., reverse=True)` leaves `x` in front of `y`.
  abbrev pub stays_before : Ranked F → Ranked F → Bool
  stays_before x y = not (is_below x y)

  unfoldable pub ranked_items : DriftReport F → List (Ranked F)
  unfolding psi_item chi2_item
  ranked_items report = map psi_item report.psi_results ++ map chi2_item report.chi2_results

  unfoldable pub top_drift_features : DriftReport F → (limit : ℕ) → List (TopFeature F)
  unfolding ranked_items
  top_drift_features report limit =
      map (λ r. r.item) (take limit (sorted_by stays_before (ranked_items report)))
