-- ===== src/Scripts/Batches.antt =====
-- scripts/generate_demo_batches.py: the batches of the demo are sampled from the source file and then mutated. The draws
-- of pandas and numpy are an interface.
pub mod Drawn
pub mod Valid
use drift_triage_co_pilot.Prelude.{
  ℕ, suc, ◌+◌, ◌/◌, min, max, Bool, true, false, not, ◌&&◌, ◌||◌, String, ◌&◌, ◌==◌, string_eq,
  nat_eq, Option, none, some, List, [], ◌∷◌, map, length, filter_by, all_of, ltb, leb,
  if◌then◌else◌, Result, ok, raised, value_error, raise_if, collect, ◌>>=◌, ◌>>◌,
}
use drift_triage_co_pilot.Floating.{Float}
use drift_triage_co_pilot.Frontend.Batch.{is_one_of}

-- A value of a data frame.
pub data Value (F : Type 0) : Type 0 where
  number : F → Value F
  text : String → Value F
  nan : Value F

-- A row gives the value of each column.
abbrev pub Row : Type 0 → Type 0
Row F = String → Value F

pub record Frame (F : Type 0) : Type 0 where
  pub columns : List String
  pub rows : List (Row F)

-- The calls of pandas and numpy; `G` is the state of a generator of random numbers.
pub record Draws (F G : Type 0) : Type 0 where
  -- `df.sample(n=…, replace=…, random_state=…)`
  pub sample : ℕ → Bool → ℕ → List (Row F) → Result (List (Row F))
  pub default_rng : ℕ → G
  -- `rng.choice(range(len(df)), size=…, replace=False)`, from the length and the size
  pub choice : ℕ → ℕ → G → List ℕ × G
  -- `pd.to_numeric(value, errors="coerce")` of a text
  pub parse : String → Value F
  -- `values.clip(source.min(), source.max())` of one value, and `source.quantile(q)`
  pub clip : List F → F → F
  pub quantile : List F → F → Value F
  -- the frame that `pd.read_csv` reads from what `to_csv` wrote
  pub stored : Frame F → Frame F
  -- `read_csv` takes the text for a number, a truth value or a missing value.
  pub is_inferred : String → Bool

-- `SCENARIOS`
abbrev pub scenarios : List String
scenarios = "normal" ∷ "replay_drift" ∷ "retrain_drift" ∷ "rollback_drift" ∷ []

-- `CATEGORICAL_COLUMNS`
abbrev pub categorical_columns : List String
categorical_columns =
    "job" ∷ "marital" ∷ "education" ∷ "default" ∷ "housing" ∷ "loan" ∷ "contact" ∷ "month"
    ∷ "day_of_week" ∷ "poutcome" ∷ []

-- The calls that mutate a batch.
pub data Mutation : Type 0 where
  -- `_shift_numeric`, with the decimal m / 10^e
  shift_numeric : String → ℕ → ℕ → Mutation
  set_fraction : String → String → ℕ → Mutation
  set_numeric_quantile : String → ℕ → Mutation
  set_low_pdays : Mutation

-- The calls of `apply_scenario_mutations`, in their order; a fraction and a quantile are in hundredths.
abbrev pub mutations_of : String → Result (List Mutation)
mutations_of scenario =
    if scenario == "normal"
    then ok []
    else if scenario == "replay_drift"
    then ok (
        shift_numeric "euribor3m" 35 2
        ∷ shift_numeric "cons.price.idx" 8 2
        ∷ set_fraction "contact" "telephone" 35
        ∷ set_fraction "month" "nov" 25
        ∷ set_fraction "job" "technician" 20
        ∷ [])
    else if scenario == "retrain_drift"
    then ok (
        shift_numeric "euribor3m" 125 2
        ∷ shift_numeric "emp.var.rate" 120 2
        ∷ shift_numeric "cons.price.idx" 35 2
        ∷ shift_numeric "nr.employed" 90 0
        ∷ set_fraction "contact" "telephone" 70
        ∷ set_fraction "month" "may" 65
        ∷ set_fraction "poutcome" "nonexistent" 80
        ∷ set_fraction "job" "blue-collar" 45
        ∷ [])
    else if scenario == "rollback_drift"
    then ok (
        set_numeric_quantile "euribor3m" 2
        ∷ set_numeric_quantile "emp.var.rate" 2
        ∷ set_numeric_quantile "nr.employed" 2
        ∷ set_numeric_quantile "cons.price.idx" 98
        ∷ set_numeric_quantile "previous" 98
        ∷ set_numeric_quantile "campaign" 5
        ∷ set_low_pdays
        ∷ set_fraction "contact" "cellular" 95
        ∷ set_fraction "month" "mar" 45
        ∷ set_fraction "month" "oct" 30
        ∷ set_fraction "poutcome" "success" 80
        ∷ set_fraction "job" "retired" 50
        ∷ set_fraction "job" "student" 25
        ∷ [])
    else raised (value_error ("Unknown scenario: " & scenario))

abbrev pub is_chosen : ℕ → List ℕ → Bool
is_chosen k [] = false
is_chosen k (i ∷ is) = let rest = is_chosen k is in i == k || rest

module _ {F : Type 0} where
  -- `row[column] = value`
  abbrev pub put : String → Value F → Row F → Row F
  put column value row c = if c == column then value else row c

  abbrev pub put_all : String → (Row F → Value F) → List (Row F) → List (Row F)
  put_all column value [] = []
  put_all column value (row ∷ rows) = put column (value row) row ∷ put_all column value rows

  -- `df.loc[idx, column] = value`, for the rows from the `k`th on.
  abbrev pub put_at : List ℕ → String → Value F → ℕ → List (Row F) → List (Row F)
  put_at idx column value k [] = []
  put_at idx column value k (row ∷ rows) =
      (if is_chosen k idx then put column value row else row) ∷ put_at idx column value (suc k) rows

  -- Both frames have the column.
  abbrev pub both_have : String → Frame F → Frame F → Bool
  both_have column df source = is_one_of column df.columns && is_one_of column source.columns

module _ {F : Type 0} ⦃f : Float F⦄ where
  -- `str` of a value that is not dropped.
  abbrev pub value_text : Value F → Option String
  value_text (number v) = some (f.str v)
  value_text (text s) = some s
  value_text nan = none

  -- `df[column].dropna().astype(str)`
  abbrev pub observed : String → List (Row F) → List String
  observed column [] = []
  observed column (row ∷ rows) =
      let rest = observed column rows in
      elim (value_text (row column)) [ none ↦ rest | some s ↦ s ∷ rest ]

  -- A column that both have holds no text that the source has not.
  abbrev pub keeps_categories : Frame F → Frame F → String → Bool
  keeps_categories batch source column =
      not (both_have column batch source)
      || all_of (λ s. is_one_of s (observed column source.rows)) (observed column batch.rows)

  -- `validate_no_invalid_categories`, where the error does not name the column
  unfoldable pub validate_no_invalid_categories : Frame F → Frame F → Result (Unit {0})
  validate_no_invalid_categories batch source =
      raise_if (not (all_of (keeps_categories batch source) categorical_columns))
        (value_error "invalid categories")

module _ {F G : Type 0} ⦃f : Float F⦄ (d : Draws F G) where
  abbrev pub to_numeric : Value F → Value F
  to_numeric (number v) = number v
  to_numeric (text s) = d.parse s
  to_numeric nan = nan

  -- The numbers among them.
  abbrev pub numbers : String → List (Row F) → List F
  numbers column [] = []
  numbers column (row ∷ rows) =
      let rest = numbers column rows in
      elim (to_numeric (row column)) [ number v ↦ v ∷ rest | _ ↦ rest ]

  abbrev pub shifted : List F → F → Value F → Value F
  shifted source delta (number v) = number (d.clip source (f.add v delta))
  shifted source delta other = nan

  abbrev pub low_pdays : List F → Value F
  low_pdays [] = number (f.literal 999 0)
  low_pdays (v ∷ vs) = elim (d.quantile (v ∷ vs) (f.literal 25 2)) [
    | number q ↦ number (f.literal (f.to_int q) 0)
    | other ↦ other
  ]

  abbrev below_sentinel : List F → List F
  below_sentinel vs = filter_by (λ v. f.lt v (f.literal 999 0)) vs

  -- One call, on the frame and the generator.
  unfoldable pub mutate : Frame F → Mutation → Frame F × G → Frame F × G
  mutate source (shift_numeric column m e) (df, rng) =
      if both_have column df source
      then (
        record df {
          rows =
              put_all column
                (λ row.
                  shifted (numbers column source.rows) (f.literal m e) (to_numeric (row column)))
                df.rows;
        },
        rng,
      )
      else (df, rng)
  mutate source (set_fraction column value percent) (df, rng) =
      let n = max 1 (f.to_int (f.mul (f.literal (length df.rows) 0) (f.literal percent 2))) in
      let (idx, rng') = d.choice (length df.rows) (min n (length df.rows)) rng in
      if both_have column df source && is_one_of value (observed column source.rows)
      then (record df { rows = put_at idx column (text value) 0 df.rows }, rng')
      else (df, rng)
  mutate source (set_numeric_quantile column percent) (df, rng) =
      let value = d.quantile (numbers column source.rows) (f.literal percent 2) in
      if both_have column df source
      then (record df { rows = put_all column (λ _. value) df.rows }, rng)
      else (df, rng)
  mutate source set_low_pdays (df, rng) =
      let value = low_pdays (below_sentinel (numbers "pdays" source.rows)) in
      if both_have "pdays" df source
      then (record df { rows = put_all "pdays" (λ _. value) df.rows }, rng)
      else (df, rng)

  unfoldable pub mutate_all : Frame F → List Mutation → Frame F × G → Frame F × G
  unfolding mutate
  mutate_all source [] s = s
  mutate_all source (m ∷ ms) s = mutate_all source ms (mutate source m s)

  unfoldable pub apply_scenario_mutations : Frame F → Frame F → String → ℕ → Result (Frame F)
  unfolding mutate_all
  apply_scenario_mutations batch source scenario random_state = mutations_of scenario >>= λ ms.
      ok (mutate_all source ms (batch, d.default_rng random_state)).0

  abbrev pub is_positive : Row F → Bool
  is_positive row = elim (row "y") [ text s ↦ s == "yes" | _ ↦ false ]

  abbrev pub positives : Frame F → List (Row F)
  positives source = filter_by is_positive source.rows

  -- The rows that are sampled from, and whether with replacement.
  unfoldable pub sample_base : Frame F → String → ℕ → List (Row F) × Bool
  sample_base source scenario n =
      if scenario == "rollback_drift"
        && is_one_of "y" source.columns
        && leb (max 50 (n / 4)) (length (positives source))
      then (positives source, ltb (length (positives source)) n)
      else (source.rows, ltb (length source.rows) n)

  unfoldable pub sample_scenario_base : Frame F → String → ℕ → ℕ → Result (Frame F)
  unfolding sample_base
  sample_scenario_base source scenario n random_state =
      let (base, replace) = sample_base source scenario n in
      d.sample n replace random_state base >>= λ rows.
      ok (record { columns = source.columns; rows = rows })

  -- The batches of the scenarios, numbered from `offset` on.
  unfoldable pub generate_from :
      Frame F → (n random_state offset : ℕ) → List String → Result (List (String × Frame F))
  unfolding sample_scenario_base apply_scenario_mutations
  generate_from source n random_state offset [] = ok []
  generate_from source n random_state offset (scenario ∷ rest) = do
    base ← sample_scenario_base source scenario n (random_state + offset)
    batch ← apply_scenario_mutations base source scenario (random_state + offset)
    batches ← generate_from source n random_state (suc offset) rest
    ok ((scenario, batch) ∷ batches)

  unfoldable pub generate_batches :
      Frame F → (n random_state : ℕ) → Result (List (String × Frame F))
  unfolding generate_from
  generate_batches source n random_state = generate_from source n random_state 0 scenarios

  -- The loop of `main` over the files, which are read again.
  unfoldable pub check_batches : Frame F → List (String × Frame F) → Result (Unit {0})
  unfolding validate_no_invalid_categories
  check_batches source [] = ok tt
  check_batches source (b ∷ bs) =
      let rest = check_batches source bs in
      validate_no_invalid_categories (d.stored b.1) source >> rest

  -- `main`, from the source frame on
  unfoldable pub main : Frame F → (n random_state : ℕ) → Result (List (String × Frame F))
  unfolding generate_batches check_batches
  main source n random_state = generate_batches source n random_state >>= λ batches.
      check_batches source batches >> ok batches
