-- ===== src/Frontend/Batch.antt =====
-- frontend/app.py, lines 219-238 and 285-338, and scripts/inject_demo_batch.py, lines 100-196: a batch of rows is sent
-- to `/predict`. A row of the file is the list of its columns; `W` is the state of the network and the service, and
-- the post of a payload gives no text where it succeeds, and otherwise the text of the error.
pub mod Counts
use drift_triage_co_pilot.Prelude.{
  ℕ, suc, ◌+◌, Bool, true, false, not, ◌&&◌, ◌||◌, String, ◌&◌, ◌==◌, string_eq, nat_eq, Option,
  none, some, List, [], ◌∷◌, ◌++◌, length, ltb, if◌then◌else◌, Result, ok, raised, value_error,
  Exception, collect, ◌>>=◌,
}
use drift_triage_co_pilot.Ml.Reference.{lookup}

-- `PREDICTION_FIELDS`
abbrev pub prediction_fields : List String
prediction_fields =
    "age" ∷ "job" ∷ "marital" ∷ "education" ∷ "default" ∷ "housing" ∷ "loan" ∷ "contact" ∷ "month"
    ∷ "day_of_week" ∷ "campaign" ∷ "pdays" ∷ "previous" ∷ "poutcome" ∷ "emp.var.rate"
    ∷ "cons.price.idx" ∷ "cons.conf.idx" ∷ "euribor3m" ∷ "nr.employed" ∷ []

abbrev pub is_one_of : String → List String → Bool
is_one_of name [] = false
is_one_of name (x ∷ xs) = let rest = is_one_of name xs in x == name || rest

-- `INTEGER_FIELDS`, and the fields that are read as floats.
abbrev integer_fields : List String
integer_fields = "age" ∷ "campaign" ∷ "pdays" ∷ "previous" ∷ []

abbrev float_fields : List String
float_fields =
    "emp.var.rate" ∷ "cons.price.idx" ∷ "cons.conf.idx" ∷ "euribor3m" ∷ "nr.employed" ∷ []

-- A value of the JSON payload; `I` is the type of integers.
pub data Value (I F : Type 0) : Type 0 where
  integer : I → Value I F
  number : F → Value I F
  text : String → Value I F

abbrev pub Payload : Type 0 → Type 0 → Type 0
Payload I F = List (String × Value I F)

abbrev pub Row : Type 0
Row = List (String × String)

-- Python's `float(text)` and `int(x)` of a float, which may raise.
pub record Reading (I F : Type 0) : Type 0 where
  pub float_of : String → Result F
  pub int_of : F → Result I

module _ {I F : Type 0} (read : Reading I F) where
  abbrev pub value_of : String → String → Result (Value I F)
  value_of field value =
      if is_one_of field integer_fields
      then (read.float_of value >>= λ x. read.int_of x >>= λ n. ok (integer n))
      else if is_one_of field float_fields
      then (read.float_of value >>= λ x. ok (number x))
      else ok (text value)

  abbrev pub field_of : Row → String → Result (String × Value I F)
  field_of row field = elim (lookup field row) [
    | none ↦ raised (value_error ("Missing prediction field: " & field))
    | some value ↦
        if value == ""
        then raised (value_error ("Missing prediction field: " & field))
        else (value_of field value >>= λ v. ok (field, v))
  ]

  -- `prediction_payload` of the dashboard.
  unfoldable pub prediction_payload : Row → Result (Payload I F)
  prediction_payload row = collect (field_of row) prediction_fields

-- The counts of the loop, and the first errors with the rows' numbers.
pub record Sent : Type 0 where
  pub success_count : ℕ
  pub failure_count : ℕ
  pub error_examples : List (ℕ × String)

abbrev pub nothing_sent : Sent
nothing_sent = record { success_count = 0; failure_count = 0; error_examples = [] }

-- What one row adds: a success, or a failure with its text.
unfoldable pub count_row : (index : ℕ) → Option String → Sent → Sent
count_row index none sent = record sent { success_count = sent.success_count + 1 }
count_row index (some error) sent = record sent {
  failure_count = sent.failure_count + 1;
  error_examples =
      if ltb (length sent.error_examples) 5
      then sent.error_examples ++ (index, error) ∷ []
      else sent.error_examples;
}

-- What one try of the report ends with.
pub data ReportEnd : Type 0 where
  skipped fetched report_failed : ReportEnd

module _ {I F W : Type 0} (payload_of : Row → Result (Payload I F)) (str_exc : Exception → String)
    (post : Payload I F → W → Option String × W) where
  -- The body of the `try`.
  abbrev pub send_row : Row → W → Option String × W
  send_row row w = elim (payload_of row) [
    | raised e ↦ (some (str_exc e), w)
    | ok payload ↦ post payload w
  ]

  -- The loop over the rows, numbered from `index` on.
  unfoldable pub send_rows : (index : ℕ) → List Row → Sent → W → Sent × W
  unfolding count_row
  send_rows index [] sent w = (sent, w)
  send_rows index (row ∷ rows) sent w =
      let done = send_row row w in send_rows (suc index) rows (count_row index done.0 sent) done.1

  -- `inject_demo_batch` of the dashboard: the report is asked for unless every row failed; `fetch` tells whether it
  -- came.
  unfoldable pub inject_demo_batch : (fetch : W → Bool × W) → List Row → W → (Sent × ReportEnd) × W
  unfolding send_rows
  inject_demo_batch fetch rows w =
      let done = send_rows 1 rows nothing_sent w in
      if done.0.success_count == 0
      then ((done.0, skipped), done.1)
      else ((done.0, if (fetch done.1).0 then fetched else report_failed), (fetch done.1).1)

  -- `inject_batch` of the script: the counts and the exit status.
  unfoldable pub inject_batch :
      (no_drift_report : Bool) (fetch : W → Bool × W) → List Row → W → (Sent × ℕ) × W
  unfolding send_rows
  inject_batch no_drift_report fetch rows w =
      let done = send_rows 0 rows nothing_sent w in
      let status = if done.0.failure_count == 0 then 0 else 1 in
      if done.0.success_count == 0 && ltb 0 (length rows)
      then ((done.0, 2), done.1)
      else if no_drift_report
      then ((done.0, status), done.1)
      else ((done.0, if (fetch done.1).0 then status else 1), (fetch done.1).1)
