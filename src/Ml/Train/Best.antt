-- ===== src/Ml/Train/Best.antt =====
-- backend/src/ml/train.py, `train`: the candidate that is chosen.
use drift_triage_co_pilot.Prelude.{
  ℕ, ◌≡◌, refl, sym, ap, ◌∙◌, subst, ◌⊎◌, inl, inr, String, none, List, [], ◌∷◌, map, length, ok,
  collect-ok, collect-map, ok_injective, All, All-imp, All-Occurs, Occurs, Result-cases, arith,
}
use drift_triage_co_pilot.Floating.{Float, ◌≼◌, nought}
use drift_triage_co_pilot.Floating.Laws.{IsOrdered, IsSigned}
use drift_triage_co_pilot.Settings.{Settings}
use drift_triage_co_pilot.Ml.Choice.{best_by, best_by-IsBest}
use drift_triage_co_pilot.Ml.Threshold.{Candidate, candidates, find_threshold}
use drift_triage_co_pilot.Ml.Threshold.Highest.{
  IsSound, IsHighest, IsFallback, find_threshold-cases,
}
use drift_triage_co_pilot.Ml.Train.{
  DataSplit, Sklearn, CandidateResult, TrainResult, candidate_models, evaluate_with_threshold,
  candidate_result, train_candidate, val_f1, train_result, choose, train,
}

module _ {F X : Type 0} ⦃f : Float F⦄ (sk : Sklearn F X) (settings : Settings F)
    (split : DataSplit X) where
  -- The precision-recall curve of a candidate on the validation set.
  abbrev pub val_candidates : String → List (Candidate F)
  val_candidates name =
      candidates (
        sk.precision_recall_curve split.y_val (sk.fit name split.X_train split.y_train split.X_val))

  -- `sklearn` draws a curve for the candidate, without NaN or negative numbers.
  abbrev pub HasCurve : String → Type 0
  HasCurve name =
      (c : Candidate F) × (cs : List (Candidate F)) × (val_candidates name ≡ c ∷ cs)
      × All IsSound (c ∷ cs)

  -- The threshold of a candidate is the highest that keeps the recall, or else the one of the best F1 score.
  abbrev pub IsTuned : CandidateResult F X → Type 0
  IsTuned r =
      IsHighest settings.min_recall (val_candidates r.model_name) r.threshold
      ⊎ IsFallback settings.min_recall (val_candidates r.model_name) r.threshold

  train_candidate-name :
      (name : String) (r : CandidateResult F X)
      → train_candidate sk settings split name ≡ ok r
      → r.model_name ≡ name
  unfolding train_candidate candidate_result
  train_candidate-name name r e =
      elim (Result-cases (
        find_threshold settings sk.precision_recall_curve (sk.fit name split.X_train split.y_train)
          split.X_val split.y_val none)) [
            | inr (exc, bad) ↦ ground (arith, rw (bad, train_candidate) at e)
            | inl (t, found) ↦
                ap (λ q. q.model_name) (sym (ok_injective _ r (rw (found, train_candidate) at e)))
          ]

  module _ (o : IsOrdered F) (sg : IsSigned F)
      (nonneg : (y_true y_pred : List ℕ) → nought ≼ sk.f1_score y_true y_pred) where
    train_candidate-ok :
        (name : String)
        → HasCurve name
        → (r : CandidateResult F X) × (train_candidate sk settings split name ≡ ok r)
          × ((nought ≼ val_f1 sk r) × IsTuned r)
    unfolding train_candidate candidate_result evaluate_with_threshold
    train_candidate-ok name (c, cs, curve, sound) =
        let (t, found, tuned) =
          find_threshold-cases o sg settings sk.precision_recall_curve
            (sk.fit name split.X_train split.y_train) split.X_val split.y_val none c cs curve
            sound in
        (
          candidate_result sk split name t,
          rw (found, train_candidate) refl,
          (
            nonneg _ _,
            subst (λ l. IsHighest settings.min_recall l t ⊎ IsFallback settings.min_recall l t)
                (sym curve) tuned,
          ),
        )

    choose-best :
        (results : List (CandidateResult F X))
        → All (λ q. (nought ≼ val_f1 sk q) × IsTuned q) results
        → length results ≡ 4
        → (r : TrainResult F X) × (choose sk split results ≡ ok r)
          × (r.all_results ≡ results)
          × ((best : CandidateResult F X) × Occurs best results
              × (best.model_name ≡ r.model_name)
              × (best.threshold ≡ r.threshold)
              × IsTuned best
              × All (λ q. val_f1 sk q ≼ val_f1 sk best) results)
    unfolding choose train_result
    choose-best [] fine four = ground (arith, four)
    choose-best (q ∷ qs) fine four =
        let scores =
          All-imp (λ q. (nought ≼ val_f1 sk q) × IsTuned q) (λ q. nought ≼ val_f1 sk q) (λ x h. h.0)
            (q ∷ qs) fine in
        let best = best_by-IsBest (val_f1 sk) o q qs scores.0 scores.1 in
        let top = best_by (val_f1 sk) q qs in
        (
          train_result sk split (q ∷ qs) top,
          refl,
          refl,
          (
            top,
            best.occurs,
            refl,
            refl,
            (All-Occurs (λ q. (nought ≼ val_f1 sk q) × IsTuned q) top (q ∷ qs) fine best.occurs).1,
            best.greatest,
          ),
        )

    -- If `sklearn` draws a curve for each candidate and an F1 score is never negative, training succeeds with the
    -- four candidates, each once and in order. The one chosen is among them with its own threshold, which keeps
    -- the configured recall on the validation set where a threshold does, and no candidate has a greater F1 score
    -- on the validation set at its threshold.
    pub train-best :
        All HasCurve candidate_models
        → (r : TrainResult F X) × (train sk settings split ≡ ok r)
          × (map (λ q. q.model_name) r.all_results ≡ candidate_models)
          × ((best : CandidateResult F X) × Occurs best r.all_results
              × (best.model_name ≡ r.model_name)
              × (best.threshold ≡ r.threshold)
              × IsTuned best
              × All (λ q. val_f1 sk q ≼ val_f1 sk best) r.all_results)
    unfolding train
    train-best curves =
        let (results, e, fine, four) =
          collect-ok (train_candidate sk settings split) HasCurve
            (λ q. (nought ≼ val_f1 sk q) × IsTuned q) train_candidate-ok candidate_models curves in
        let (r, chosen, same, best) = choose-best results fine four in
        let names =
          collect-map (train_candidate sk settings split) (λ q. q.model_name) train_candidate-name
            candidate_models results e in
        (
          r,
          rw (e, train) chosen,
          ap (map (λ q. q.model_name)) same ∙ names,
          subst
              (λ l.
                (best : CandidateResult F X) × Occurs best l
                × (best.model_name ≡ r.model_name)
                × (best.threshold ≡ r.threshold)
                × IsTuned best
                × All (λ q. val_f1 sk q ≼ val_f1 sk best) l)
              (sym same) best,
        )
