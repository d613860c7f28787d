-- ===== src/Ml/Data/Split/Typed.antt =====
-- backend/src/ml/data.py, `load_data`: the cells of the numeric columns of the test set.
use drift_triage_co_pilot.Prelude.{
  ◌≡◌, refl, ap, ◌∙◌, subst, false, ◌==◌, string_eq, String, none, some, List, [], ◌∷◌, ◌++◌, map,
  filter_by, filter_by-All, inl, inr, ok, not, All, All-Occurs, All-of_Occurs, All-append, All-imp,
  ok_injective, Occurs, Bool-cases, beq-path, Option-cases, arith, all_of, Result, bind_parts,
}
use drift_triage_co_pilot.Floating.{Float}
use drift_triage_co_pilot.Settings.{Settings}
use drift_triage_co_pilot.Ml.Reference.{lookup}
use drift_triage_co_pilot.Ml.Reference.Sound.{IsNumeric}
use drift_triage_co_pilot.Ml.Data.{numeric_features}
use drift_triage_co_pilot.Ml.Data.Split.{
  number, Columns, Labelled, Split, drop_column, columns_of, occurs_in, is_999, add_flag, engineer,
  has_target, is_invalid_size, split_of, load_data,
}

module _ {V : Type 0} where
  lookup-append_found :
      (c : String) (v : V) (row more : List (String × V))
      → lookup c row ≡ some v
      → lookup c (row ++ more) ≡ some v
  lookup-append_found c v [] more found = ground (arith, found)
  lookup-append_found c v ((k, w) ∷ row) more found = elim (Bool-cases (k == c)) [
    | inl here ↦ rw (here, lookup) (rw (here, lookup) at found)
    | inr other ↦
        rw (other, lookup) (lookup-append_found c v row more (rw (other, lookup) at found))
  ]

  lookup-append_absent :
      (c : String) (row more : List (String × V))
      → lookup c row ≡ none
      → lookup c (row ++ more) ≡ lookup c more
  lookup-append_absent c [] more absent = refl
  lookup-append_absent c ((k, w) ∷ row) more absent = elim (Bool-cases (k == c)) [
    | inl here ↦ ground (arith, rw (here, lookup) at absent)
    | inr other ↦
        rw (other, lookup) (lookup-append_absent c row more (rw (other, lookup) at absent))
  ]

  -- Dropping a column leaves the others.
  lookup-drop_column :
      (c name : String) (row : List (String × V))
      → (name == c) ≡ false
      → lookup c (filter_by (λ e. not (e.0 == name)) row) ≡ lookup c row
  lookup-drop_column c name [] other = refl
  lookup-drop_column c name ((k, w) ∷ row) other =
      let rest = lookup-drop_column c name row other in
      elim (Bool-cases (k == name)) [
        | inl dropped ↦
            rw (dropped, filter_by)
              (rw (ap (λ z. z == c) (beq-path k name dropped) ∙ other, lookup) rest)
        | inr kept ↦ elim (Bool-cases (k == c)) [
          | inl here ↦ rw (kept, filter_by) (rw (here, lookup) refl)
          | inr there ↦ rw (kept, filter_by) (rw (there, lookup) rest)
        ]
      ]

-- The numeric columns of the file
abbrev pub file_columns : List String
file_columns =
    "age" ∷ "campaign" ∷ "pdays" ∷ "previous" ∷ "emp.var.rate" ∷ "cons.price.idx" ∷ "cons.conf.idx"
    ∷ "euribor3m" ∷ "nr.employed" ∷ []

-- `load_data` does not drop the column.
abbrev IsKept : String → Type 0
IsKept c = (("duration" == c) ≡ false) × (("y" == c) ≡ false)

file_columns-IsKept : All IsKept file_columns
file_columns-IsKept =
    let kept : (false ≡ false) × (false ≡ false) = (refl, refl) in
    (kept, (kept, (kept, (kept, (kept, (kept, (kept, (kept, (kept, tt)))))))))

module _ {F : Type 0} ⦃f : Float F⦄ where
  abbrev HoldsNumber : Columns F → String → Type 0
  HoldsNumber row c = (v : F) × (lookup c row ≡ some (number v))

  -- A row of the file has a number in each of them, and has no flag yet.
  abbrev pub IsTyped : Columns F → Type 0
  IsTyped row = All (HoldsNumber row) file_columns × (lookup "pdays_was_999" row ≡ none)

  engineer-holds :
      (row : Columns F) (c : String) → IsKept c → HoldsNumber row c → HoldsNumber (engineer row).x c
  unfolding engineer add_flag
  engineer-holds row c (no_duration, no_y) (v, found) =
      let dropped = drop_column {F = F} "duration" row in
      let still = lookup-drop_column c "duration" row no_duration ∙ found in
      (
        v,
        lookup-drop_column c "y" (add_flag dropped) no_y
            ∙ elim (Option-cases (lookup "pdays" dropped)) [
              | inl absent ↦ rw (absent, add_flag) still
              | inr (cell, there) ↦
                  rw (there, add_flag) (lookup-append_found c (number v) dropped _ still)
            ],
      )

  engineer-flag :
      (row : Columns F)
      → HoldsNumber row "pdays"
      → lookup "pdays_was_999" row ≡ none
      → HoldsNumber (engineer row).x "pdays_was_999"
  unfolding engineer add_flag
  engineer-flag row (v, found) absent =
      let dropped = drop_column {F = F} "duration" row in
      (
        is_999 (number v),
        lookup-drop_column "pdays_was_999" "y" (add_flag dropped) refl
            ∙ rw (lookup-drop_column "pdays" "duration" row refl ∙ found, add_flag)
                (lookup-append_absent "pdays_was_999" dropped _
                  (lookup-drop_column "pdays_was_999" "duration" row refl ∙ absent)),
      )

  engineer-holds_all :
      (row : Columns F) (cs : List String)
      → All IsKept cs
      → All (HoldsNumber row) cs
      → All (HoldsNumber (engineer row).x) cs
  engineer-holds_all row [] kept numbers = tt
  engineer-holds_all row (c ∷ cs) kept numbers =
      (engineer-holds row c kept.0 numbers.0, engineer-holds_all row cs kept.1 numbers.1)

  abbrev HasNumbers : Labelled F → Type 0
  HasNumbers r = All (HoldsNumber r.x) numeric_features

  engineer-HasNumbers : (row : Columns F) → IsTyped row → HasNumbers (engineer row)
  engineer-HasNumbers row (numbers, absent) =
      All-append (HoldsNumber (engineer row).x) file_columns ("pdays_was_999" ∷ [])
        (engineer-holds_all row file_columns file_columns-IsKept numbers)
        (engineer-flag row numbers.1.1.0 absent, tt)

  map-engineer-HasNumbers :
      (csv : List (Columns F)) → All IsTyped csv → All HasNumbers (map engineer csv)
  map-engineer-HasNumbers [] typed = tt
  map-engineer-HasNumbers (row ∷ csv) typed =
      (engineer-HasNumbers row typed.0, map-engineer-HasNumbers csv typed.1)

  HasNumbers-IsNumeric :
      (rows : List (Labelled F)) (cs : List String)
      → All (λ r. All (HoldsNumber r.x) cs) rows
      → All (IsNumeric rows) cs
  HasNumbers-IsNumeric rows [] h = tt
  HasNumbers-IsNumeric rows (c ∷ cs) h = (
    All-imp (λ r. All (HoldsNumber r.x) (c ∷ cs)) (λ r. HoldsNumber r.x c) (λ r b. b.0) rows h,
    HasNumbers-IsNumeric rows cs (
        All-imp (λ r. All (HoldsNumber r.x) (c ∷ cs)) (λ r. All (HoldsNumber r.x) cs) (λ r b. b.1)
          rows h),
  )

  -- If the rows of the second part of a split are rows of what was split, and each row of the file has a number in
  -- each numeric column of the file, then the test set that is loaded has a number in each of its numeric columns.
  pub load_data-IsNumeric :
      (settings : Settings F)
      (train_test_split : F → List (Labelled F) → Result (List (Labelled F) × List (Labelled F)))
      (csv : List (Columns F)) (split : Split F)
      → ((size : F) (rows : List (Labelled F)) (parts : List (Labelled F) × List (Labelled F))
            (row : Labelled F)
          → train_test_split size rows ≡ ok parts
          → Occurs row parts.1
          → Occurs row rows)
      → All IsTyped csv
      → load_data settings train_test_split csv ≡ ok split
      → All (IsNumeric split.test) split.numeric_columns
  unfolding load_data
  load_data-IsNumeric settings train_test_split csv split drawn typed loaded =
      let temp_size = f.add settings.val_size settings.test_size in
      let share = f.div settings.test_size temp_size in
      let rows = map engineer csv in
      elim (Bool-cases (all_of has_target csv)) [
        | inr missing ↦ ground (arith, rw missing at loaded)
        | inl there ↦ elim (Bool-cases (is_invalid_size temp_size)) [
          | inl bad ↦ ground (arith, rw (there, bad) at loaded)
          | inr fine ↦
              let (first, made, later) =
                bind_parts (train_test_split temp_size rows) _ (rw (there, fine) at loaded) in
              let ((val, test), cut, done) = bind_parts (train_test_split share first.1) _ later in
              let numbers : All HasNumbers test = All-of_Occurs HasNumbers test (λ r o.
                All-Occurs HasNumbers r rows (map-engineer-HasNumbers csv typed)
                  (drawn temp_size rows first r made (drawn share first.1 (val, test) r cut o))) in
              subst (λ s. All (IsNumeric s.test) s.numeric_columns)
                (ok_injective (split_of first.0 (val, test)) split done)
                (filter_by-All (λ c. occurs_in c (columns_of first.0)) (IsNumeric test)
                  numeric_features (HasNumbers-IsNumeric test numeric_features numbers))
        ]
      ]
