-- ===== src/Ml/Reference/Compute.antt =====
-- backend/src/ml/reference_stats.py, `compute_reference_stats`: the statistics of the test set. The calls of pandas
-- and numpy are an interface, and the pipeline gives the probability of class 1 of each row.
use drift_triage_co_pilot.Prelude.{
  ℕ, String, Option, none, some, List, [], ◌∷◌, map, filter_by, length, ◌==◌, nat_eq, if◌then◌else◌,
  Result, ok, raised, value_error, collect, ◌>>=◌,
}
use drift_triage_co_pilot.Floating.{Float, nought}
use drift_triage_co_pilot.Drift.Output.{Proportions}
use drift_triage_co_pilot.Ml.Data.Split.{
  Cell, number, text, Columns, Labelled, Split, columns_of, occurs_in,
}
use drift_triage_co_pilot.Ml.Reference.{NumericStats, ReferenceStats, lookup}

pub record Pandas (F : Type 0) : Type 0 where
  -- `series.mean()`, `series.std()`, `np.quantile(series, q)` and `np.arange(first, last, step)`
  pub mean : List F → F
  pub std : List F → F
  pub quantile : List F → F → F
  pub arange : F → F → F → List F
  -- `float(s)` of a text, where `none` is its ValueError
  pub parse : String → Option F
  -- `series.value_counts(normalize=True).to_dict()`
  pub value_counts : List (Cell F) → List (Cell F × F)
  -- `np.unique(labels, return_counts=True)`
  pub unique : List ℕ → List (ℕ × ℕ)

module _ {F : Type 0} ⦃f : Float F⦄ (pd : Pandas F) where
  -- `X_test[feature]`
  unfoldable pub column : String → List (Labelled F) → List (Cell F)
  column feature [] = []
  column feature (row ∷ rows) =
      let rest = column feature rows in
      elim (lookup feature row.x) [ none ↦ rest | some cell ↦ cell ∷ rest ]

  -- `astype(float)` and `str` of a cell
  abbrev pub as_float : Cell F → Result F
  as_float (number v) = ok v
  as_float (text s) = elim (pd.parse s) [
    | none ↦ raised (value_error "could not convert string to float")
    | some v ↦ ok v
  ]

  abbrev pub as_str : Cell F → String
  as_str (number v) = f.str v
  as_str (text s) = s

  unfoldable pub numeric_stats : String → List F → String × NumericStats F
  numeric_stats feature series = (
    feature,
    record {
      mean = pd.mean series;
      std = pd.std series;
      quantiles =
          map (pd.quantile series) (pd.arange (f.literal 1 1) (f.literal 1 0) (f.literal 1 1));
      reference_values = series;
    },
  )

  unfoldable pub numeric_entry : List (Labelled F) → String → Result (String × NumericStats F)
  unfolding column numeric_stats
  numeric_entry X_test feature =
      collect as_float (column feature X_test) >>= λ series. ok (numeric_stats feature series)

  unfoldable pub categorical_entry : List (Labelled F) → String → String × List (String × F)
  unfolding column
  categorical_entry X_test feature =
      (feature, map (λ e. (as_str e.0, e.1)) (pd.value_counts (column feature X_test)))

  -- `proportions.get(label, 0.0)`
  abbrev pub share_of : List (ℕ × ℕ) → ℕ → ℕ → F
  share_of [] total label = nought
  share_of ((u, c) ∷ counts) total label =
      let rest = share_of counts total label in
      if u == label then f.div (f.literal c 0) (f.literal total 0) else rest

  -- The features that the table has.
  abbrev pub present : List (Labelled F) → List String → List String
  present X_test features = filter_by (λ c. occurs_in c (columns_of X_test)) features

  -- `proportions`, by the labels at 0.5, with the label looked for
  unfoldable pub proportions : List F → Proportions F
  proportions y_proba =
      let y_pred = map (λ p. if f.le (f.literal 5 1) p then 1 else 0) y_proba in
      let counts = pd.unique y_pred in
      record {
        class_0 = some (share_of counts (length y_pred) 0);
        class_1 = some (share_of counts (length y_pred) 1);
      }

  unfoldable pub reference_of :
      List F → Split F → String → List (String × NumericStats F) → ReferenceStats F
  unfolding categorical_entry proportions
  reference_of y_proba split dataset_hash numeric = record {
    numeric = numeric;
    categorical = map (categorical_entry split.test) (present split.test split.categorical_columns);
    output_proportions = proportions y_proba;
    dataset_hash = dataset_hash;
  }

  unfoldable pub compute_reference_stats :
      (predict_proba : List (Columns F) → List F)
      → Split F
      → (dataset_hash : String) → Result (ReferenceStats F)
  unfolding numeric_entry reference_of
  compute_reference_stats predict_proba split dataset_hash =
      let y_proba = predict_proba (map (λ row. row.x) split.test) in
      collect (numeric_entry split.test) (present split.test split.numeric_columns) >>= λ numeric.
      ok (reference_of y_proba split dataset_hash numeric)
