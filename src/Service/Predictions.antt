-- ===== src/Service/Predictions.antt =====
-- backend/src/service/routers/prediction.py, backend/src/ml/inference.py and backend/src/service/deps/classifier.py: a
-- prediction and its row in the table `predictions`. The fitted pipeline is a parameter: `predict_proba` of one row.
pub mod Window
use drift_triage_co_pilot.Prelude.{
  ℕ, Bool, true, false, not, ◌&&◌, String, Option, none, some, List, [], ◌∷◌, ◌==◌, nat_eq, leb,
  take, if◌then◌else◌, Result, ok, raised, http_exception, validation_error,
}
use drift_triage_co_pilot.Floating.{Float, nought, one}

-- The fields of the request, by the columns' names with `_` for a dot. `pdays` may be negative; it is the pair of
-- its sign and its size, where `true` is the minus sign.
pub record PredictRequest (F : Type 0) : Type 0 where
  pub age : ℕ
  pub job : String
  pub marital : String
  pub education : String
  pub default : String
  pub housing : String
  pub loan : String
  pub contact : String
  pub month : String
  pub day_of_week : String
  pub campaign : ℕ
  pub pdays : Bool × ℕ
  pub previous : ℕ
  pub poutcome : String
  pub emp_var_rate : F
  pub cons_price_idx : F
  pub cons_conf_idx : F
  pub euribor3m : F
  pub nr_employed : F

-- The `Field` constraints; those of `previous` hold of every natural number.
abbrev pub is_valid_request : {F : Type 0} → PredictRequest F → Bool
is_valid_request r = leb 18 r.age && (leb r.age 100 && leb 1 r.campaign)

-- The dictionary that `prepare_prediction_features` returns.
pub record Features (F : Type 0) : Type 0 where
  pub payload : PredictRequest F
  pub pdays_was_999 : ℕ

unfoldable pub prepare_prediction_features : {F : Type 0} → PredictRequest F → Features F
prepare_prediction_features payload = record {
  payload = payload;
  pdays_was_999 = if not payload.pdays.0 && payload.pdays.1 == 999 then 1 else 0;
}

-- A row of `predictions`.
pub record Prediction (F : Type 0) : Type 0 where
  pub id : String
  pub features : Features F
  pub label : ℕ
  pub probability : F

pub record PredictResponse (F : Type 0) : Type 0 where
  pub prediction_id : String
  pub label : ℕ
  pub probability : F
  pub threshold : F

-- The singletons of `app.state`, without a model where none was loaded at the start.
pub record AppState (F : Type 0) : Type 0 where
  pub classifier : Option (Features F → F)
  pub threshold : F

unfoldable pub get_classifier : {F : Type 0} → AppState F → Result (Features F → F)
get_classifier app = elim app.classifier [
  | none ↦ raised (http_exception 503 "No trained model available. Run `make train` first.")
  | some pipeline ↦ ok pipeline
]

-- The rows of `predictions`, the newest first.
abbrev pub Table : Type 0 → Type 0
Table F = List (Prediction F)

-- `INSERT INTO predictions`, with `now()` as the time of creation.
unfoldable pub log_prediction : {F : Type 0} → Prediction F → Table F → Table F
log_prediction row rows = row ∷ rows

-- `ORDER BY created_at DESC LIMIT :window`
unfoldable pub fetch_rolling_window :
    {F : Type 0} → Table F → (window_size : ℕ) → List (Prediction F)
fetch_rolling_window rows window_size = take window_size rows

module _ {F : Type 0} ⦃f : Float F⦄ where
  -- `int(proba >= threshold)`
  abbrev pub label_of : F → F → ℕ
  label_of proba threshold = if f.le threshold proba then 1 else 0

  -- `PredictResponse(...)`, whose field `probability` is validated; the row is logged after the answer, and not
  -- where the answer cannot be built.
  unfoldable pub predict_with :
      (prediction_id : String)
      → (Features F → F)
      → F
      → PredictRequest F
      → Table F
      → Result (PredictResponse F) × Table F
  unfolding log_prediction
  predict_with prediction_id pipeline threshold payload rows =
      let feature_dict = prepare_prediction_features payload in
      let proba = pipeline feature_dict in
      let label = label_of proba threshold in
      if f.le nought proba && f.le proba one
      then (
        ok (record {
          prediction_id = prediction_id;
          label = label;
          probability = proba;
          threshold = threshold;
        }),
        log_prediction
            (record {
              id = prediction_id;
              features = feature_dict;
              label = label;
              probability = proba;
            })
            rows,
      )
      else (raised (validation_error "PredictResponse"), rows)

  -- The request as FastAPI handles it: the dependencies and the body are both looked at before the endpoint runs,
  -- and an exception of a dependency comes first.
  unfoldable pub predict :
      (prediction_id : String)
      → AppState F
      → PredictRequest F
      → Table F
      → Result (PredictResponse F) × Table F
  unfolding get_classifier predict_with
  predict prediction_id app payload rows = elim (get_classifier app) [
    | raised e ↦ (raised e, rows)
    | ok pipeline ↦
        if is_valid_request payload
        then predict_with prediction_id pipeline app.threshold payload rows
        else (raised (validation_error "PredictRequest"), rows)
  ]
