-- ===== src/Ml/Threshold.antt =====
-- backend/src/ml/threshold.py: the operating threshold. The arrays of `sklearn`'s precision-recall curve are lists.
pub mod Highest
use mathlib.Core.Option
use drift_triage_co_pilot.Prelude.{
  ℕ, Bool, true, false, Option, none, some, List, [], ◌∷◌, filter_by, if◌then◌else◌, Result, ok,
  raised, value_error,
}
use drift_triage_co_pilot.Floating.{Float, nought, one}
use drift_triage_co_pilot.Settings.{Settings}
use drift_triage_co_pilot.Ml.Choice.{best_by}

-- What `precision_recall_curve` returns: the arrays of precisions and recalls are one longer than the thresholds.
pub record Curve (F : Type 0) : Type 0 where
  pub precisions : List F
  pub recalls : List F
  pub thresholds : List F

-- One place of the three arrays, the last precision and recall left out.
pub record Candidate (F : Type 0) : Type 0 where
  pub precision : F
  pub recall : F
  pub threshold : F

-- `precisions[:-1]`
unfoldable pub without_last : {A : Type 0} → List A → List A
without_last [] = []
without_last (x ∷ []) = []
without_last (x ∷ y ∷ r) = x ∷ without_last (y ∷ r)

-- The arrays side by side; numpy works on them place by place.
unfoldable pub side_by_side : {F : Type 0} → List F → List F → List F → List (Candidate F)
side_by_side (p ∷ ps) (r ∷ rs) (t ∷ ts) =
    record { precision = p; recall = r; threshold = t } ∷ side_by_side ps rs ts
side_by_side _ _ _ = []

unfoldable pub candidates : {F : Type 0} → Curve F → List (Candidate F)
unfolding without_last side_by_side
candidates curve =
    side_by_side (without_last curve.precisions) (without_last curve.recalls) curve.thresholds

module _ {F : Type 0} ⦃f : Float F⦄ where
  -- `np.where(p + r > 0, p + r, 1.0)`
  abbrev pub f1_divisor : Candidate F → F
  f1_divisor c =
      if f.lt nought (f.add c.precision c.recall) then f.add c.precision c.recall else one

  unfoldable pub f1_score : Candidate F → F
  f1_score c = f.div (f.mul (f.mul (f.literal 2 0) c.precision) c.recall) (f1_divisor c)

  -- `recalls_for_thresholds >= min_recall`
  abbrev pub reaches : F → Candidate F → Bool
  reaches min_recall c = f.le min_recall c.recall

  abbrev pub operating_threshold : (fallback : F) → List (Candidate F) → F
  operating_threshold fallback [] = fallback
  operating_threshold fallback (c ∷ cs) = (best_by (λ x. x.threshold) c cs).threshold

  -- What follows the call of `precision_recall_curve`.
  unfoldable pub threshold_of : F → List (Candidate F) → Result F
  threshold_of min_recall [] = raised (value_error "attempt to get argmax of an empty sequence")
  threshold_of min_recall (c ∷ cs) = ok (
      operating_threshold (best_by f1_score c cs).threshold
        (filter_by (reaches min_recall) (c ∷ cs)))

  -- `predict_proba` is that of the fitted pipeline, and `X` the type of the features.
  unfoldable pub find_threshold :
      {X : Type 0}
      → Settings F
      → (precision_recall_curve : List ℕ → List F → Curve F) → (predict_proba : X → List F) → X
      → List ℕ
      → Option F
      → Result F
  unfolding threshold_of
  find_threshold settings precision_recall_curve predict_proba X_val y_val min_recall =
      threshold_of (Option.get_or min_recall settings.min_recall)
        (candidates (precision_recall_curve y_val (predict_proba X_val)))
