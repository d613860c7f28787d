-- ===== src/Ml/Tests.antt =====
-- The theorems on the training at concrete inputs: a table of features is the list of the scores of its rows.
use mathlib.Core.List.{Perm}
use mathlib.Core.List.Perm
use drift_triage_co_pilot.Prelude.{
  ◌≡◌, refl, ◌⊎◌, String, string_eq, none, List, [], ◌∷◌, ◌++◌, map, ok, All, Occurs, Result,
  raised, value_error, other_error, Exception, all_of, ok_injective, subst, true, false, arith,
}
use drift_triage_co_pilot.Settings.{default_settings}
use drift_triage_co_pilot.Floating.{◌≼◌}
use drift_triage_co_pilot.Floating.Fixed.{Fixed, fixed_float, Fixed-IsOrdered, Fixed-IsSigned}
use drift_triage_co_pilot.Ml.Threshold.{
  Curve, Candidate, candidates, side_by_side, without_last, find_threshold,
}
use drift_triage_co_pilot.Ml.Threshold.Highest.{
  IsSound, IsHighest, IsFallback, find_threshold-cases,
}
use drift_triage_co_pilot.Ml.Data.Split.{
  Labelled, Columns, Split, number, text, engineer, has_target, is_invalid_size, load_data,
}
use drift_triage_co_pilot.Ml.Data.Split.Parts.{IsClean, load_data-parts}
use drift_triage_co_pilot.Ml.Train.{
  DataSplit, Sklearn, CandidateResult, TrainResult, candidate_models, val_f1, train,
}
use drift_triage_co_pilot.Ml.Train.Best.{HasCurve, IsTuned, train-best}

abbrev curve : Curve Fixed
curve = record {
  precisions = 40_000_000 ∷ 60_000_000 ∷ 100_000_000 ∷ [];
  recalls = 100_000_000 ∷ 80_000_000 ∷ 0 ∷ [];
  thresholds = 20_000_000 ∷ 50_000_000 ∷ [];
}

abbrev low_place : Candidate Fixed
low_place = record { precision = 40_000_000; recall = 100_000_000; threshold = 20_000_000 }

abbrev high_place : Candidate Fixed
high_place = record { precision = 60_000_000; recall = 80_000_000; threshold = 50_000_000 }

curve-candidates : candidates curve ≡ low_place ∷ high_place ∷ []
unfolding candidates without_last side_by_side
curve-candidates = refl

sound : All IsSound (low_place ∷ high_place ∷ [])
sound = (
  record { precision_nonneg = refl; recall_nonneg = refl; threshold_nonneg = refl },
  (record { precision_nonneg = refl; recall_nonneg = refl; threshold_nonneg = refl }, tt),
)

abbrev scores : List Fixed
scores = 20_000_000 ∷ 50_000_000 ∷ []

find_threshold-cases_example :
    (t : Fixed) × (find_threshold
        (default_settings "key")
        (λ y p. curve)
        (λ xs. xs)
        scores
        (0 ∷ 1 ∷ [])
        none
      ≡ ok t)
    × (IsHighest 75_000_000 (low_place ∷ high_place ∷ []) t
        ⊎ IsFallback 75_000_000 (low_place ∷ high_place ∷ []) t)
find_threshold-cases_example =
    find_threshold-cases Fixed-IsOrdered Fixed-IsSigned (default_settings "key") (λ y p. curve)
      (λ xs. xs) scores (0 ∷ 1 ∷ []) none low_place (high_place ∷ []) curve-candidates sound

abbrev sklearn : Sklearn Fixed (List Fixed)
sklearn = record {
  fit = λ name x y. λ xs. xs;
  precision_recall_curve = λ y p. curve;
  accuracy_score = λ y p. 80_000_000;
  precision_score = λ y p. 60_000_000;
  recall_score = λ y p. 80_000_000;
  f1_score = λ y p. 68_000_000;
  roc_auc_score = λ y p. 90_000_000;
}

abbrev split : DataSplit (List Fixed)
split = record {
  X_train = scores;
  X_val = scores;
  X_test = scores;
  y_train = 0 ∷ 1 ∷ [];
  y_val = 0 ∷ 1 ∷ [];
  y_test = 0 ∷ 1 ∷ [];
  dataset_hash = "d1";
}

any_curve : (name : String) → HasCurve sklearn (default_settings "key") split name
any_curve name = (low_place, high_place ∷ [], curve-candidates, sound)

train-best_example :
    (r : TrainResult Fixed (List Fixed)) × (train sklearn (default_settings "key") split ≡ ok r)
    × (map (λ q. q.model_name) r.all_results ≡ candidate_models)
    × ((best : CandidateResult Fixed (List Fixed)) × Occurs best r.all_results
        × (best.model_name ≡ r.model_name)
        × (best.threshold ≡ r.threshold)
        × IsTuned sklearn (default_settings "key") split best
        × All (λ q. val_f1 sklearn q ≼ val_f1 sklearn best) r.all_results)
train-best_example =
    train-best sklearn (default_settings "key") split Fixed-IsOrdered Fixed-IsSigned (λ y p. refl)
      (
        any_curve "dummy",
        (
          any_curve "logistic_regression",
          (any_curve "random_forest", (any_curve "extra_trees", tt)),
        ),
      )

-- One row stays, the others are the part of the given share; a table without rows is refused.
abbrev first_row :
    Fixed → List (Labelled Fixed) → Result (List (Labelled Fixed) × List (Labelled Fixed))
first_row size [] = raised (value_error "empty")
first_row size (row ∷ rows) = ok (row ∷ [], rows)

first_row_rearranges :
    (size : Fixed) (rows : List (Labelled Fixed))
    (parts : List (Labelled Fixed) × List (Labelled Fixed))
    → first_row size rows ≡ ok parts
    → Perm (parts.0 ++ parts.1) rows
first_row_rearranges size [] parts split = ground (arith, split)
first_row_rearranges size (row ∷ rows) parts split =
    subst (λ p. Perm (p.0 ++ p.1) (row ∷ rows)) (ok_injective _ parts split)
      (Perm.refl (row ∷ rows))

abbrev csv : List (Columns Fixed)
csv =
    (("age", number 4_100_000_000)
      ∷ ("duration", number 26_100_000_000)
      ∷ ("pdays", number 99_900_000_000)
      ∷ ("y", text "no")
      ∷ [])
    ∷ (("age", number 5_600_000_000) ∷ ("y", text "yes") ∷ [])
    ∷ []

load_data-parts_example :
    let loaded = load_data (default_settings {F = Fixed} "key") first_row csv in
    ((all_of has_target csv ≡ false)
      × (loaded ≡ raised (other_error "KeyError: ['y'] not found in axis")))
    ⊎ (((all_of has_target csv ≡ true)
          × (is_invalid_size {F = Fixed} 40_000_000 ≡ true)
          × (loaded ≡ raised (value_error "Invalid split sizes")))
        ⊎ (((e : Exception) × (loaded ≡ raised e)
              × ((first_row 40_000_000 (map engineer csv) ≡ raised e)
                  ⊎ ((first : List (Labelled Fixed) × List (Labelled Fixed)) × (first_row 40_000_000
                          (map engineer csv)
                        ≡ ok first)
                      × (first_row 50_000_000 first.1 ≡ raised e))))
            ⊎ ((s : Split Fixed) × (loaded ≡ ok s)
                × Perm (s.train ++ (s.val ++ s.test)) (map engineer csv)
                × All IsClean (map engineer csv))))
load_data-parts_example =
    load_data-parts (default_settings "key") first_row csv first_row_rearranges
