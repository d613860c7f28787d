-- ===== src/Service/Reports.antt =====
-- backend/src/service/routers/drift.py, lines 39-115 and 189-226: the report over the rolling window, and its cache.
-- `uuid4`, the clock and `timestamp` are arguments.
pub mod Window
pub mod Cache
pub mod Reset
pub mod Trained
use drift_triage_co_pilot.Prelude.{
  ℕ, ◌+◌, Bool, true, false, not, ◌&&◌, String, Option, none, some, List, [], ◌∷◌, ◌++◌, map, ltb,
  length, if◌then◌else◌, Result, ok, raised, collect, ◌>>=◌,
}
use drift_triage_co_pilot.Floating.{Float, Numpy, nought}
use drift_triage_co_pilot.Settings.{Settings}
use drift_triage_co_pilot.Drift.Psi.{PsiResult, psi_result}
use drift_triage_co_pilot.Drift.Chi2.{Chi2Result, chi2_result}
use drift_triage_co_pilot.Drift.Output.{no_output_drift, compute_output_drift}
use drift_triage_co_pilot.Drift.Report.{DriftReport, build_drift_report}
use drift_triage_co_pilot.Ml.Data.{numeric_features, categorical_features}
use drift_triage_co_pilot.Ml.Reference.{NumericStats, ReferenceStats, lookup}
use drift_triage_co_pilot.Service.Alerts.{AlertState}
use drift_triage_co_pilot.Service.Predictions.{Features, Prediction, Table, fetch_rolling_window}

-- `for feat in names if feat in stats`, each with what `stats[feat]` is. The rows are those that `predict` logs,
-- which have every column of both lists.
unfoldable pub known : {V : Type 0} → List String → List (String × V) → List (String × V)
known [] stats = []
known (feat ∷ names) stats =
    let rest = known names stats in
    elim (lookup feat stats) [ none ↦ rest | some v ↦ (feat, v) ∷ rest ]

-- The column of a name.
unfoldable pub collect_column : {A V : Type 0} → (A → List (String × V)) → String → List A → List V
collect_column columns feat [] = []
collect_column columns feat (x ∷ xs) =
    let rest = collect_column columns feat xs in
    elim (lookup feat (columns x)) [ none ↦ rest | some v ↦ v ∷ rest ]

-- The columns of a logged row.
abbrev pub text_columns : {F : Type 0} → Features F → List (String × String)
text_columns x =
    ("job", x.payload.job)
    ∷ ("marital", x.payload.marital)
    ∷ ("education", x.payload.education)
    ∷ ("default", x.payload.default)
    ∷ ("housing", x.payload.housing)
    ∷ ("loan", x.payload.loan)
    ∷ ("contact", x.payload.contact)
    ∷ ("month", x.payload.month)
    ∷ ("day_of_week", x.payload.day_of_week)
    ∷ ("poutcome", x.payload.poutcome)
    ∷ []

module _ {F : Type 0} ⦃f : Float F⦄ where
  abbrev signed : Bool × ℕ → F
  signed (true, n) = f.sub nought (f.literal n 0)
  signed (false, n) = f.literal n 0

  abbrev pub number_columns : Features F → List (String × F)
  number_columns x =
      ("age", f.literal x.payload.age 0)
      ∷ ("campaign", f.literal x.payload.campaign 0)
      ∷ ("pdays", signed x.payload.pdays)
      ∷ ("previous", f.literal x.payload.previous 0)
      ∷ ("emp.var.rate", x.payload.emp_var_rate)
      ∷ ("cons.price.idx", x.payload.cons_price_idx)
      ∷ ("cons.conf.idx", x.payload.cons_conf_idx)
      ∷ ("euribor3m", x.payload.euribor3m)
      ∷ ("nr.employed", x.payload.nr_employed)
      ∷ ("pdays_was_999", f.literal x.pdays_was_999 0)
      ∷ []

  abbrev pub numeric_column : String → List (Prediction F) → List F
  numeric_column feat df = collect_column (λ row. number_columns row.features) feat df

  abbrev pub categorical_column : String → List (Prediction F) → List String
  categorical_column feat df = collect_column (λ row. text_columns row.features) feat df

module _ {F : Type 0} ⦃f : Float F⦄ (np : Numpy F) (settings : Settings F) where
  unfoldable pub psi_results_of :
      ReferenceStats F → List (Prediction F) → Result (List (PsiResult F))
  psi_results_of ref_stats df =
      collect (λ e. psi_result np e.0 e.1.reference_values (numeric_column e.0 df) 10)
        (known numeric_features ref_stats.numeric)

  unfoldable pub chi2_results_of :
      ReferenceStats F → List (Prediction F) → Result (List (Chi2Result F))
  chi2_results_of ref_stats df =
      collect (λ e. chi2_result np settings e.0 e.1 (categorical_column e.0 df) none)
        (known categorical_features ref_stats.categorical)

  -- The report on the rows of the window.
  unfoldable pub report_on :
      (report_id : String) (timestamp : ℕ)
      → ReferenceStats F
      → List (Prediction F)
      → (model_name : String) (model_version : ℕ) → Result (DriftReport F)
  report_on report_id timestamp ref_stats [] model_name model_version =
      build_drift_report report_id timestamp model_name model_version [] []
        (no_output_drift ref_stats.output_proportions) 0
  report_on report_id timestamp ref_stats (row ∷ rows) model_name model_version = do
    psi_results ← psi_results_of ref_stats (row ∷ rows)
    chi2_results ← chi2_results_of ref_stats (row ∷ rows)
    output_drift ←
        compute_output_drift np ref_stats.output_proportions (map (λ p. p.label) (row ∷ rows))
    build_drift_report report_id timestamp model_name model_version psi_results chi2_results
        output_drift (length (row ∷ rows))

  -- `_compute_drift`
  unfoldable pub compute_drift :
      (report_id : String) (timestamp : ℕ)
      → ReferenceStats F
      → Table F
      → (model_name : String) (model_version : ℕ) → Result (DriftReport F)
  unfolding report_on
  compute_drift report_id timestamp ref_stats rows model_name model_version =
      report_on report_id timestamp ref_stats (fetch_rolling_window rows settings.drift_window_size)
        model_name model_version

-- `_drift_cache`: the one key is the model's name. The second component is the time of the entry, in seconds.
abbrev pub DriftCache : Type 0 → Type 0
DriftCache F = Option (DriftReport F × ℕ)

-- `_drift_cache[key]`, where `key in _drift_cache`: an entry lives while the clock is less than 60 seconds past it.
unfoldable pub cached : {F : Type 0} → DriftCache F → (now : ℕ) → Option (DriftReport F)
cached none now = none
cached (some (report, stored)) now = if ltb now (stored + 60) then some report else none

-- The answer to `GET /drift/report`, the cache that it leaves, and the report whose background task is started.
pub record Served (F : Type 0) : Type 0 where
  pub answer : Result (DriftReport F)
  pub cache : DriftCache F
  pub task : Option (DriftReport F)

-- The look that the request takes at the cache, unless it is forced.
abbrev pub hit : {F : Type 0} → (force : Bool) → DriftCache F → ℕ → Option (DriftReport F)
hit true cache now = none
hit false cache now = cached cache now

-- What the request does under the lock: `held` is the cache that it finds there at `locked`, and `computed` what
-- `_compute_drift` gives, stored at `stored`.
unfoldable pub serve_locked :
    {F : Type 0}
    → Bool
    → (held : DriftCache F) (locked : ℕ) → (computed : Result (DriftReport F)) (stored : ℕ)
    → Served F
serve_locked force held locked computed stored = elim (hit force held locked) [
  | some report ↦ record { answer = ok report; cache = held; task = none }
  | none ↦ elim computed [
    | raised e ↦ record { answer = raised e; cache = held; task = none }
    | ok report ↦ record { answer = ok report; cache = some (report, stored); task = some report }
  ]
]

-- `get_drift_report`. `seen` is the cache at the first look, at `arrived`: other requests may hold the lock before
-- this one does.
unfoldable pub get_drift_report :
    {F : Type 0}
    → (force : Bool) → (seen : DriftCache F) (arrived : ℕ) → (held : DriftCache F) (locked : ℕ)
    → (computed : Result (DriftReport F)) (stored : ℕ) → Served F
unfolding serve_locked
get_drift_report force seen arrived held locked computed stored = elim (hit force seen arrived) [
  | some report ↦ record { answer = ok report; cache = held; task = none }
  | none ↦ serve_locked force held locked computed stored
]

-- The tables and the cache that the router works on.
pub record DriftState (F : Type 0) : Type 0 where
  pub predictions : Table F
  pub drift_alert_state : List AlertState
  pub drift_cache : DriftCache F

unfoldable pub reset_drift : {F : Type 0} → DriftState F → DriftState F
reset_drift state = record state { predictions = []; drift_alert_state = []; drift_cache = none }
