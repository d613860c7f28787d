-- ===== src/Ml/Threshold/Highest.antt =====
-- backend/src/ml/threshold.py: which threshold is found.
use mathlib.Core.Option
use drift_triage_co_pilot.Prelude.{
  ℕ, ◌≡◌, refl, sym, subst, ◌⊎◌, inl, inr, Bool, true, false, Option, List, [], ◌∷◌, filter_by,
  filter_by-All, Occurs-filter_by, ok, All, All-imp, Occurs, Bool-cases, arith,
}
use drift_triage_co_pilot.Floating.{Float, ◌≼◌, nought}
use drift_triage_co_pilot.Floating.Laws.{IsOrdered, IsSigned}
use drift_triage_co_pilot.Settings.{Settings}
use drift_triage_co_pilot.Ml.Choice.{best_by, best_by-IsBest}
use drift_triage_co_pilot.Ml.Threshold.{
  Curve, Candidate, candidates, f1_divisor, f1_score, reaches, operating_threshold, threshold_of,
  find_threshold,
}

module _ {A : Type 0} (p : A → Bool) where
  All-filter_by :
      (Q : A → Type 0) (xs : List A) → All Q (filter_by p xs) → All (λ x. (p x ≡ false) ⊎ Q x) xs
  All-filter_by Q [] h = tt
  All-filter_by Q (x ∷ xs) h = elim (Bool-cases (p x)) [
    | inr other ↦ (inl other, All-filter_by Q xs (rw (other, filter_by) at h))
    | inl fits ↦
        let (here, later) : Q x × All Q (filter_by p xs) = rw (fits, filter_by) at h in
        (inr here, All-filter_by Q xs later)
  ]

module _ {F : Type 0} ⦃f : Float F⦄ where
  -- Precision, recall and threshold are not negative, and no NaN.
  pub record IsSound (c : Candidate F) : Type 0 where
    pub precision_nonneg : nought ≼ c.precision
    pub recall_nonneg : nought ≼ c.recall
    pub threshold_nonneg : nought ≼ c.threshold

  -- `t` is the highest threshold of those whose recall is at least `least`.
  abbrev pub IsHighest : F → List (Candidate F) → F → Type 0
  IsHighest least cs t =
      (c : Candidate F) × (c.threshold ≡ t)
      × Occurs c cs
      × (reaches least c ≡ true)
      × All (λ x. (reaches least x ≡ false) ⊎ (x.threshold ≼ t)) cs

  -- No recall is at least `least`, and `t` is a threshold with the greatest F1 score.
  abbrev pub IsFallback : F → List (Candidate F) → F → Type 0
  IsFallback least cs t =
      (c : Candidate F) × (c.threshold ≡ t)
      × Occurs c cs
      × All (λ x. f1_score x ≼ f1_score c) cs
      × All (λ x. reaches least x ≡ false) cs

  module _ (o : IsOrdered F) (sg : IsSigned F) where
    divisor_pos : (c : Candidate F) → f.lt nought (f1_divisor c) ≡ true
    divisor_pos c = elim (Bool-cases (f.lt nought (f.add c.precision c.recall))) [
      | inl more ↦ rw (more, f1_divisor) more
      | inr other ↦ rw (other, f1_divisor) sg.one_pos
    ]

    f1_score-nonneg : (c : Candidate F) → IsSound c → nought ≼ f1_score c
    unfolding f1_score
    f1_score-nonneg c s =
        sg.div_nonneg _ (f1_divisor c)
          (sg.mul_nonneg _ c.recall
            (sg.mul_nonneg _ c.precision (o.nought_le 2 0) s.precision_nonneg) s.recall_nonneg)
          (divisor_pos c)

    kept-cases :
        (least : F) (c : Candidate F) (cs kept : List (Candidate F))
        → All IsSound (c ∷ cs)
        → filter_by (reaches least) (c ∷ cs) ≡ kept
        → IsHighest least (c ∷ cs) (operating_threshold (best_by f1_score c cs).threshold kept)
          ⊎ IsFallback least (c ∷ cs) (operating_threshold (best_by f1_score c cs).threshold kept)
    kept-cases least c cs [] sound e =
        let scores = All-imp IsSound (λ x. nought ≼ f1_score x) f1_score-nonneg (c ∷ cs) sound in
        let best = best_by-IsBest f1_score o c cs scores.0 scores.1 in
        inr (
          best_by f1_score c cs,
          refl,
          best.occurs,
          best.greatest,
          All-imp (λ x. (reaches least x ≡ false) ⊎ ⊥) (λ x. reaches least x ≡ false)
              (λ x h. elim h [ inl low ↦ low | inr absurd ↦ ground (arith, absurd) ]) (c ∷ cs)
              (All-filter_by (reaches least) (λ _. ⊥) (c ∷ cs) (subst (All (λ _. ⊥)) (sym e) tt)),
        )
    kept-cases least c cs (d ∷ ds) sound e =
        let positive : All (λ x. nought ≼ x.threshold) (d ∷ ds) =
          subst (All (λ x. nought ≼ x.threshold)) e (
            filter_by-All (reaches least) (λ x. nought ≼ x.threshold) (c ∷ cs)
              (All-imp IsSound (λ x. nought ≼ x.threshold) (λ x s. s.threshold_nonneg) (c ∷ cs)
                sound)) in
        let best = best_by-IsBest (λ x. x.threshold) o d ds positive.0 positive.1 in
        let top = best_by (λ x. x.threshold) d ds in
        let (there, fits) =
          Occurs-filter_by (reaches least) top (c ∷ cs) (subst (Occurs top) (sym e) best.occurs) in
        inl (
          top,
          refl,
          there,
          fits,
          All-filter_by (reaches least) (λ x. x.threshold ≼ top.threshold) (c ∷ cs)
              (subst (All (λ x. x.threshold ≼ top.threshold)) (sym e) best.greatest),
        )

    -- If the precision-recall curve of the validation set has a threshold, and its numbers are not negative, a
    -- threshold is found: the highest of those whose recall is at least the given one, or the configured one where
    -- none is given; and if no recall is, one with the greatest F1 score.
    pub find_threshold-cases :
        {X : Type 0} (settings : Settings F) (precision_recall_curve : List ℕ → List F → Curve F)
        (predict_proba : X → List F) (X_val : X) (y_val : List ℕ) (min_recall : Option F)
        (c : Candidate F) (cs : List (Candidate F))
        → candidates (precision_recall_curve y_val (predict_proba X_val)) ≡ c ∷ cs
        → All IsSound (c ∷ cs)
        → let least = Option.get_or min_recall settings.min_recall in
          (t : F) × (find_threshold settings precision_recall_curve predict_proba X_val y_val
              min_recall
            ≡ ok t)
          × (IsHighest least (c ∷ cs) t ⊎ IsFallback least (c ∷ cs) t)
    unfolding find_threshold threshold_of
    find_threshold-cases settings precision_recall_curve predict_proba X_val y_val min_recall c cs
          curve sound =
        let least = Option.get_or min_recall settings.min_recall in
        (
          operating_threshold (best_by f1_score c cs).threshold
              (filter_by (reaches least) (c ∷ cs)),
          rw (curve, find_threshold) refl,
          kept-cases least c cs _ sound refl,
        )
