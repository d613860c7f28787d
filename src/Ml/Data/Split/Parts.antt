-- ===== src/Ml/Data/Split/Parts.antt =====
-- backend/src/ml/data.py, `load_data`: its ends, and the rows and the columns of the parts.
use mathlib.Core.List.{Perm}
use mathlib.Core.List.Perm
use drift_triage_co_pilot.Prelude.{
  ◌≡◌, refl, false, String, ◌==◌, string_eq, List, [], ◌∷◌, ◌++◌, map, filter_by, inl, inr, ok, All,
  Bool-cases, Option-cases, arith, all_of, true, ◌⊎◌, Result, Result-cases, Exception, raised,
  value_error, other_error,
}
use drift_triage_co_pilot.Floating.{Float}
use drift_triage_co_pilot.Settings.{Settings}
use drift_triage_co_pilot.Ml.Reference.{lookup}
use drift_triage_co_pilot.Ml.Data.Split.{
  Columns, Labelled, Split, drop_column, occurs_in, add_flag, engineer, has_target, is_invalid_size,
  split_of, load_data,
}

module _ {F : Type 0} where
  -- The row has no column of the name.
  abbrev pub HasNoColumn : String → Columns F → Type 0
  HasNoColumn name row = occurs_in name (map (λ e. e.0) row) ≡ false

  drop_column-HasNoColumn :
      (name : String) (row : Columns F) → HasNoColumn name (drop_column name row)
  drop_column-HasNoColumn name [] = refl
  drop_column-HasNoColumn name (e ∷ row) = elim (Bool-cases (e.0 == name)) [
    | inl same ↦ rw (same, filter_by) (drop_column-HasNoColumn name row)
    | inr other ↦ rw (other, filter_by) (rw (other, occurs_in) (drop_column-HasNoColumn name row))
  ]

  drop_column-keeps :
      (name other : String) (row : Columns F)
      → HasNoColumn name row
      → HasNoColumn name (drop_column other row)
  drop_column-keeps name other [] h = refl
  drop_column-keeps name other (e ∷ row) h = elim (Bool-cases (e.0 == name)) [
    | inl same ↦ ground (arith, rw (same, occurs_in) at h)
    | inr differs ↦
        let later = drop_column-keeps name other row (rw (differs, occurs_in) at h) in
        elim (Bool-cases (e.0 == other)) [
          | inl dropped ↦ rw (dropped, filter_by) later
          | inr kept ↦ rw (kept, filter_by) (rw (differs, occurs_in) later)
        ]
  ]

  append-HasNoColumn :
      (name : String) (row more : Columns F)
      → HasNoColumn name row
      → HasNoColumn name more
      → HasNoColumn name (row ++ more)
  append-HasNoColumn name [] more h k = k
  append-HasNoColumn name (e ∷ row) more h k = elim (Bool-cases (e.0 == name)) [
    | inl same ↦ ground (arith, rw (same, occurs_in) at h)
    | inr differs ↦
        rw (differs, occurs_in) (append-HasNoColumn name row more (rw (differs, occurs_in) at h) k)
  ]

  -- Neither the leaking column nor the target is a feature.
  abbrev pub IsClean : Labelled F → Type 0
  IsClean row = HasNoColumn "duration" row.x × HasNoColumn "y" row.x

module _ {F : Type 0} ⦃f : Float F⦄ where
  add_flag-HasNoColumn :
      (row : Columns F) → HasNoColumn "duration" row → HasNoColumn "duration" (add_flag row)
  unfolding add_flag
  add_flag-HasNoColumn row h = elim (Option-cases (lookup "pdays" row)) [
    | inl absent ↦ rw (absent, add_flag) h
    | inr (cell, found) ↦ rw (found, add_flag) (append-HasNoColumn "duration" row _ h refl)
  ]

  engineer-IsClean : (row : Columns F) → IsClean (engineer row)
  unfolding engineer
  engineer-IsClean row = (
    drop_column-keeps {F = F} "duration" "y" (add_flag (drop_column "duration" row)) (
        add_flag-HasNoColumn (drop_column "duration" row) (drop_column-HasNoColumn "duration" row)),
    drop_column-HasNoColumn {F = F} "y" (add_flag (drop_column "duration" row)),
  )

  map-engineer-IsClean : (csv : List (Columns F)) → All IsClean (map engineer csv)
  map-engineer-IsClean [] = tt
  map-engineer-IsClean (row ∷ csv) = (engineer-IsClean row, map-engineer-IsClean csv)

  -- If each split that is made rearranges its rows, there are four ends. A file without the target raises. With the
  -- target, shares of validation and test that do not add up to a number between 0 and 1 raise a ValueError. Or one
  -- of the two splits raises, and so does the loading. Or the dataset is loaded: its three parts together are a
  -- rearrangement of the engineered rows, none of which has the column of the call's duration or the target among its
  -- features.
  pub load_data-parts :
      (settings : Settings F)
      (train_test_split : F → List (Labelled F) → Result (List (Labelled F) × List (Labelled F)))
      (csv : List (Columns F))
      → ((size : F) (rows : List (Labelled F)) (parts : List (Labelled F) × List (Labelled F))
          → train_test_split size rows ≡ ok parts
          → Perm (parts.0 ++ parts.1) rows)
      → let loaded = load_data settings train_test_split csv in
        let temp_size = f.add settings.val_size settings.test_size in
        let split_first = train_test_split temp_size (map engineer csv) in
        let split_rest = train_test_split (f.div settings.test_size temp_size) in
        ((all_of has_target csv ≡ false)
          × (loaded ≡ raised (other_error "KeyError: ['y'] not found in axis")))
        ⊎ (((all_of has_target csv ≡ true)
              × (is_invalid_size temp_size ≡ true)
              × (loaded ≡ raised (value_error "Invalid split sizes")))
            ⊎ (((e : Exception) × (loaded ≡ raised e)
                  × ((split_first ≡ raised e)
                      ⊎ ((first : List (Labelled F) × List (Labelled F)) × (split_first ≡ ok first)
                          × (split_rest first.1 ≡ raised e))))
                ⊎ ((s : Split F) × (loaded ≡ ok s)
                    × Perm (s.train ++ (s.val ++ s.test)) (map engineer csv)
                    × All IsClean (map engineer csv))))
  unfolding load_data
  load_data-parts settings train_test_split csv rearranges =
      let temp_size = f.add settings.val_size settings.test_size in
      let rows = map engineer csv in
      let share = f.div settings.test_size temp_size in
      elim (Bool-cases (all_of has_target csv)) [
        | inr missing ↦ inl (missing, rw missing refl)
        | inl there ↦ elim (Bool-cases (is_invalid_size temp_size)) [
          | inl bad ↦ inr (inl (there, bad, rw (there, bad) refl))
          | inr fine ↦ inr (
              inr (elim (Result-cases (train_test_split temp_size rows)) [
                | inr (e, failed) ↦ inl (e, rw (there, fine, failed) refl, inl failed)
                | inl (first, made) ↦ elim (Result-cases (train_test_split share first.1)) [
                  | inr (e, failed) ↦
                      inl (e, rw (there, fine, made, failed) refl, inr (first, made, failed))
                  | inl (second, split) ↦ inr (
                    split_of first.0 second,
                    rw (there, fine, made, split) refl,
                    Perm.trans
                        (Perm.append (Perm.refl first.0) (rearranges share first.1 second split))
                        (rearranges temp_size rows first made),
                    map-engineer-IsClean csv,
                  )
                ]
              ]))
        ]
      ]
