-- ===== src/Service/Predictions/Window.antt =====
-- backend/src/service/routers/prediction.py and drift.py: the rolling window after a sequence of predictions.
use drift_triage_co_pilot.Prelude.{
  ℕ, ◌+◌, ◌≡◌, refl, sym, ap, ◌∙◌, String, List, [], ◌∷◌, ◌++◌, append_assoc, map, map-append,
  map-take, ◌&&◌, take, length, min, length-take, length-map, length-append, Result, ok, raised,
  inl, inr, Bool-cases, Result-cases, arith,
}
use drift_triage_co_pilot.Floating.{Float, nought, one}
use drift_triage_co_pilot.Service.Predictions.{
  PredictRequest, Prediction, PredictResponse, AppState, Table, get_classifier, is_valid_request,
  log_prediction, predict, predict_with, prepare_prediction_features, Features,
  fetch_rolling_window,
}

module _ {F : Type 0} where
  -- The response that a request got, if it got one.
  abbrev pub answer_of : Result (PredictResponse F) → List (PredictResponse F)
  answer_of (ok response) = response ∷ []
  answer_of (raised e) = []

  -- What a row has in common with the response to its request.
  abbrev pub of_row : Prediction F → String × (ℕ × F)
  of_row row = (row.id, (row.label, row.probability))

  abbrev pub of_response : PredictResponse F → String × (ℕ × F)
  of_response r = (r.prediction_id, (r.label, r.probability))

module _ {F : Type 0} ⦃f : Float F⦄ where
  -- Requests served one after another, each with the identifier drawn for it: the responses, the newest first.
  unfoldable pub predict_all :
      AppState F → List (String × PredictRequest F) → Table F → List (PredictResponse F) × Table F
  predict_all app [] rows = ([], rows)
  predict_all app ((prediction_id, payload) ∷ rest) rows =
      let done = predict prediction_id app payload rows in
      let onward = predict_all app rest done.1 in (onward.0 ++ answer_of done.0, onward.1)

  -- A request adds the row of its response, or no row.
  Logged : Result (PredictResponse F) × Table F → Table F → Type 0
  Logged done rows = map of_row done.1 ≡ map of_response (answer_of done.0) ++ map of_row rows

  predict_with-Logged :
      (prediction_id : String) (pipeline : Features F → F) (threshold : F)
      (payload : PredictRequest F) (rows : Table F)
      → Logged (predict_with prediction_id pipeline threshold payload rows) rows
  unfolding predict_with Logged log_prediction
  predict_with-Logged prediction_id pipeline threshold payload rows =
      let proba = pipeline (prepare_prediction_features payload) in
      elim (Bool-cases (f.le nought proba && f.le proba one)) [
        | inl fine ↦ rw (fine, predict_with) refl
        | inr bad ↦ rw (bad, predict_with) refl
      ]

  predict-Logged :
      (prediction_id : String) (app : AppState F) (payload : PredictRequest F) (rows : Table F)
      → Logged (predict prediction_id app payload rows) rows
  unfolding predict Logged
  predict-Logged prediction_id app payload rows = elim (Result-cases (get_classifier app)) [
    | inr (e, absent) ↦ rw (absent, predict) refl
    | inl (pipeline, loaded) ↦ elim (Bool-cases (is_valid_request payload)) [
      | inr bad ↦ rw (loaded, predict) (rw bad refl)
      | inl fine ↦
          rw (loaded, predict)
            (rw fine (predict_with-Logged prediction_id pipeline app.threshold payload rows))
    ]
  ]

  predict_all-rows :
      (app : AppState F) (requests : List (String × PredictRequest F)) (rows : Table F)
      → let done = predict_all app requests rows in
        map of_row done.1 ≡ map of_response done.0 ++ map of_row rows
  unfolding predict_all Logged
  predict_all-rows app [] rows = refl
  predict_all-rows app ((prediction_id, payload) ∷ rest) rows =
      let done = predict prediction_id app payload rows in
      let onward = predict_all app rest done.1 in
      predict_all-rows app rest done.1
      ∙ ap (λ l. map of_response onward.0 ++ l) (predict-Logged prediction_id app payload rows)
      ∙ sym (
          append_assoc (map of_response onward.0) (map of_response (answer_of done.0))
            (map of_row rows))
      ∙ ap (λ l. l ++ map of_row rows) (sym (map-append of_response onward.0 (answer_of done.0)))

  -- After any requests, the rolling window holds the newest rows of the answered ones, each with the identifier,
  -- the label and the probability of its response, then the newest of the rows that were there; it has as many
  -- rows as there are, up to the window's size.
  pub predict_all-fetch_rolling_window :
      (app : AppState F) (requests : List (String × PredictRequest F)) (rows : Table F)
      (window_size : ℕ)
      → let done = predict_all app requests rows in
        (map of_row (fetch_rolling_window done.1 window_size)
          ≡ take window_size (map of_response done.0 ++ map of_row rows))
        × (length (fetch_rolling_window done.1 window_size)
            ≡ min window_size (length done.0 + length rows))
  unfolding fetch_rolling_window
  predict_all-fetch_rolling_window app requests rows window_size =
      let done = predict_all app requests rows in
      let held = predict_all-rows app requests rows in
      (
        map-take of_row window_size done.1 ∙ ap (take window_size) held,
        omega (
          arith,
          length-take window_size done.1,
          length-map of_row done.1,
          ap length held,
          length-append (map of_response done.0) (map of_row rows),
          length-map of_response done.0,
          length-map of_row rows,
        ),
      )
