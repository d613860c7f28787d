-- ===== src/Ml/Data/Split.antt =====
-- backend/src/ml/data.py, `load_data`: the engineered columns, the labels and the parts of the split.
pub mod Parts
pub mod Typed
use drift_triage_co_pilot.Prelude.{
  ℕ, ◌≡◌, refl, sym, ap, ◌∙◌, subst, ◌⊎◌, inl, inr, Bool, true, false, not, ◌&&◌, ◌||◌, String, ◌&◌,
  ◌==◌, string_eq, Option, none, some, List, [], ◌∷◌, ◌++◌, map, filter_by, if◌then◌else◌, Result,
  ok, raised, value_error, other_error, All, Bool-cases, all_of, ◌>>=◌,
}
use drift_triage_co_pilot.Floating.{Float, nought, one}
use drift_triage_co_pilot.Settings.{Settings}
use drift_triage_co_pilot.Ml.Reference.{lookup}
use drift_triage_co_pilot.Ml.Data.{numeric_features, categorical_features}

-- A cell of the table.
pub data Cell (F : Type 0) : Type 0 where
  number : F → Cell F
  text : String → Cell F

abbrev pub Columns : Type 0 → Type 0
Columns F = List (String × Cell F)

-- A row of X with its label: `none` is the NaN that `map` gives for another text than "no" and "yes".
pub record Labelled (F : Type 0) : Type 0 where
  pub x : Columns F
  pub y : Option ℕ

pub record Split (F : Type 0) : Type 0 where
  pub train : List (Labelled F)
  pub val : List (Labelled F)
  pub test : List (Labelled F)
  pub numeric_columns : List String
  pub categorical_columns : List String

-- `df.drop(columns=[name], errors="ignore")` of a row
abbrev pub drop_column : {F : Type 0} → String → Columns F → Columns F
drop_column name row = filter_by (λ e. not (e.0 == name)) row

-- `.map({"no": 0, "yes": 1})`
abbrev pub label_cell : {F : Type 0} → Option (Cell F) → Option ℕ
label_cell (some (text s)) = if s == "no" then some 0 else if s == "yes" then some 1 else none
label_cell other = none

abbrev pub columns_of : {F : Type 0} → List (Labelled F) → List String
columns_of [] = []
columns_of (row ∷ rows) = map (λ e. e.0) row.x

abbrev pub occurs_in : String → List String → Bool
occurs_in name [] = false
occurs_in name (x ∷ xs) = let rest = occurs_in name xs in x == name || rest

module _ {F : Type 0} ⦃f : Float F⦄ where
  abbrev pub is_999 : Cell F → F
  is_999 (number v) =
      if f.le v (f.literal 999 0) && f.le (f.literal 999 0) v then f.literal 1 0 else f.literal 0 0
  is_999 (text s) = f.literal 0 0

  -- The row gets its flag, if it has `pdays`.
  unfoldable pub add_flag : Columns F → Columns F
  add_flag row = elim (lookup "pdays" row) [
    | none ↦ row
    | some cell ↦ row ++ ("pdays_was_999", number (is_999 cell)) ∷ []
  ]

  -- A row of the file, without the leaking column, with the flag, and its label apart.
  unfoldable pub engineer : Columns F → Labelled F
  unfolding add_flag
  engineer row =
      let engineered = add_flag (drop_column "duration" row) in
      record { x = drop_column "y" engineered; y = label_cell (lookup "y" engineered) }

  -- The row has the target, without which `df.drop(columns=[TARGET_COLUMN])` raises.
  abbrev pub has_target : Columns F → Bool
  has_target row = occurs_in "y" (map (λ e. e.0) row)

  -- The share of validation and test is out of range.
  abbrev pub is_invalid_size : F → Bool
  is_invalid_size temp_size = f.le temp_size nought || f.le one temp_size

  -- The parts, with the features that the training set has.
  abbrev pub split_of : List (Labelled F) → List (Labelled F) × List (Labelled F) → Split F
  split_of train (val, test) = record {
    train = train;
    val = val;
    test = test;
    numeric_columns = filter_by (λ c. occurs_in c (columns_of train)) numeric_features;
    categorical_columns = filter_by (λ c. occurs_in c (columns_of train)) categorical_features;
  }

  -- `load_data` after the file was read. `train_test_split size rows` gives the part that stays and the part of the
  -- given share, or raises; all rows have the columns of the file.
  unfoldable pub load_data :
      Settings F
      → (train_test_split : F → List (Labelled F) → Result (List (Labelled F) × List (Labelled F)))
      → List (Columns F)
      → Result (Split F)
  unfolding engineer
  load_data settings train_test_split csv =
      let temp_size = f.add settings.val_size settings.test_size in
      if not (all_of has_target csv)
      then raised (other_error "KeyError: ['y'] not found in axis")
      else if is_invalid_size temp_size
      then raised (value_error "Invalid split sizes")
      else (train_test_split temp_size (map engineer csv) >>= λ first.
          train_test_split (f.div settings.test_size temp_size) first.1 >>= λ second.
          ok (split_of first.0 second))
