-- ===== src/Ml/Reference/Sound.antt =====
-- backend/src/ml/reference_stats.py: the statistics of a test set, as the drift tests use them.
use drift_triage_co_pilot.Prelude.{
  ◌<◌, ◌≡◌, refl, ap, map, String, List, [], ◌∷◌, some, All, All-map, length, filter_by-All, ok,
  collect, collect-ok, ◌>>=◌, arith,
}
use drift_triage_co_pilot.Floating.{Float, ◌≼◌, nought}
use drift_triage_co_pilot.Ml.Data.Split.{
  Cell, number, Columns, Labelled, Split, occurs_in, columns_of,
}
use drift_triage_co_pilot.Ml.Reference.{NumericStats, ReferenceStats, IsReference, lookup}
use drift_triage_co_pilot.Ml.Reference.Compute.{
  Pandas, column, as_float, as_str, numeric_stats, numeric_entry, categorical_entry, present,
  reference_of, compute_reference_stats,
}

module _ {F : Type 0} ⦃f : Float F⦄ where
  -- Every row has a number in the column.
  abbrev pub IsNumeric : List (Labelled F) → String → Type 0
  IsNumeric rows feature = All (λ row. (v : F) × (lookup feature row.x ≡ some (number v))) rows

  -- The shares of `value_counts` are not negative.
  abbrev pub HasShares : Pandas F → Type 0
  HasShares pd = (cells : List (Cell F)) → All (λ e. nought ≼ e.1) (pd.value_counts cells)

module _ {F : Type 0} ⦃f : Float F⦄ (pd : Pandas F) where
  collect-column :
      (feature : String) (rows : List (Labelled F))
      → IsNumeric rows feature
      → (vs : List F) × (collect (as_float pd) (column pd feature rows) ≡ ok vs)
        × (length vs ≡ length rows)
  unfolding column
  collect-column feature [] numbers = ([], refl, refl)
  collect-column feature (row ∷ rows) numbers =
      let (v, found) = numbers.0 in
      let (vs, read, long) = collect-column feature rows numbers.1 in
      (v ∷ vs, rw (found, column, collect) (rw read refl), omega (arith, long))

  -- A sample that a statistic has been computed of.
  abbrev IsFilled : String × NumericStats F → Type 0
  IsFilled e = 0 < length e.1.reference_values

  numeric_entry-ok :
      (rows : List (Labelled F)) (feature : String)
      → 0 < length rows
      → IsNumeric rows feature
      → (e : String × NumericStats F) × (numeric_entry pd rows feature ≡ ok e) × IsFilled e
  unfolding numeric_entry
  numeric_entry-ok rows feature filled numbers =
      let (vs, read, long) = collect-column feature rows numbers in
      (
        _,
        ap (λ r. r >>= λ series. ok (numeric_stats pd feature series)) read,
        omega (arith, long, filled),
      )

  categorical_entry-shares :
      HasShares pd
      → (rows : List (Labelled F)) (feature : String)
      → All (λ g. nought ≼ g.1) (categorical_entry pd rows feature).1
  unfolding categorical_entry
  categorical_entry-shares shares rows feature =
      All-map (λ g. nought ≼ g.1) (λ e. (as_str pd e.0, e.1)) _ (shares (column pd feature rows))

  All-categorical :
      HasShares pd
      → (rows : List (Labelled F)) (features : List String)
      → All (λ e. All (λ g. nought ≼ g.1) (categorical_entry pd rows e).1) features
  All-categorical shares rows [] = tt
  All-categorical shares rows (c ∷ cs) =
      (categorical_entry-shares shares rows c, All-categorical shares rows cs)

  -- For a test set with rows, whose numeric columns hold numbers, and with shares that are not negative, the
  -- statistics are computed, and a drift report can use them.
  pub compute_reference_stats-IsReference :
      (predict_proba : List (Columns F) → List F) (split : Split F) (dataset_hash : String)
      → HasShares pd
      → 0 < length split.test
      → All (IsNumeric split.test) split.numeric_columns
      → (stats : ReferenceStats F) × (compute_reference_stats pd predict_proba split dataset_hash
          ≡ ok stats)
        × IsReference stats
  unfolding compute_reference_stats reference_of
  compute_reference_stats-IsReference predict_proba split dataset_hash shares filled numbers =
      let known =
        filter_by-All (λ c. occurs_in c (columns_of split.test)) _ split.numeric_columns numbers in
      let (es, built, fine, long) =
        collect-ok (numeric_entry pd split.test) (IsNumeric split.test) IsFilled
          (λ c given. numeric_entry-ok split.test c filled given)
          (present pd split.test split.numeric_columns) known in
      (
        _,
        ap
            (λ r. r >>= λ numeric. ok (
              reference_of pd (predict_proba (map (λ row. row.x) split.test)) split dataset_hash
                numeric))
            built,
        record {
          samples = fine;
          shares =
              All-map (λ e. All (λ g. nought ≼ g.1) e.1) (categorical_entry pd split.test)
                (present pd split.test split.categorical_columns)
                (All-categorical shares split.test
                  (present pd split.test split.categorical_columns));
        },
      )
