-- ===== src/Ml/Data.antt =====
-- backend/src/ml/data.py: the columns of the model, and the split of the dataset. A row of the CSV is the list of its
-- columns; `train_test_split` of scikit-learn is a parameter.
pub mod Split
use drift_triage_co_pilot.Prelude.{String, List, [], ◌∷◌}

-- `NUMERIC_FEATURES`
abbrev pub numeric_features : List String
numeric_features =
    "age" ∷ "campaign" ∷ "pdays" ∷ "previous" ∷ "emp.var.rate" ∷ "cons.price.idx" ∷ "cons.conf.idx"
    ∷ "euribor3m" ∷ "nr.employed" ∷ "pdays_was_999" ∷ []

-- `CATEGORICAL_FEATURES`
abbrev pub categorical_features : List String
categorical_features =
    "job" ∷ "marital" ∷ "education" ∷ "default" ∷ "housing" ∷ "loan" ∷ "contact" ∷ "month"
    ∷ "day_of_week" ∷ "poutcome" ∷ []
