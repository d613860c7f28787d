-- ===== src/Service/Start/Trained.antt =====
-- backend/src/service/main.py after backend/src/ml/register.py: what the service serves after a training, and what without
-- a model.
use drift_triage_co_pilot.Prelude.{
  ◌≡◌, refl, ap, true, String, Option, none, some, [], Result, ok, raised, Exception,
  http_exception, runtime_error,
}
use drift_triage_co_pilot.Floating.{Float}
use drift_triage_co_pilot.Ml.Reference.{ReferenceStats}
use drift_triage_co_pilot.Ml.Register.{
  registered_name, Mlflow, Trained, answering, register_model, load_model,
}
use drift_triage_co_pilot.Ml.Register.RoundTrip.{IsMlflow, load_model-register_model}
use drift_triage_co_pilot.Service.Promotion.{production}
use drift_triage_co_pilot.Service.Predictions.{
  Features, PredictRequest, Table, is_valid_request, get_classifier, predict, predict_with,
}
use drift_triage_co_pilot.Service.Start.{Started, start, load_reference_stats, get_ref_stats}

module _ {F R : Type 0} ⦃f : Float F⦄ (ml : Mlflow (Features F → F) R) (laws : IsMlflow ml) where
  -- In a store that behaves as MLflow documents, with no version in Production, after a training is registered, if a
  -- float is read back from its text: with the file of the reference statistics, the service starts, has these
  -- statistics, and answers a valid request by the trained pipeline and its threshold; without the file, the start
  -- raises, although the model is there.
  pub start-register_model :
      (float_of : String → Option F) (result : Trained F (Features F → F)) (threshold : F) (r : R)
      (stats : ReferenceStats F) (prediction_id : String) (payload : PredictRequest F)
      (rows : Table F)
      → float_of (f.str threshold) ≡ some threshold
      → ml.get_latest_versions registered_name production r ≡ some []
      → is_valid_request payload ≡ true
      → let model =
          load_model ml float_of registered_name
            (register_model ml answering result threshold r).1 in
        (s : Started F) × (start model (load_reference_stats (some (ok stats))) ≡ ok s)
        × (get_ref_stats s ≡ ok stats)
        × (predict prediction_id s.app payload rows
            ≡ predict_with prediction_id result.pipeline threshold payload rows)
        × ((e : Exception) × (start model (load_reference_stats none) ≡ raised e))
  unfolding start get_ref_stats predict get_classifier
  start-register_model float_of result threshold r stats prediction_id payload rows exact unserved
        valid =
      let (v, registered, loaded) =
        load_model-register_model ml laws float_of result threshold r exact unserved in
      (
        _,
        ap (λ m. start m (ok stats)) loaded,
        refl,
        rw valid refl,
        (_, ap (λ m. start m (load_reference_stats none)) loaded),
      )

  -- Where no model can be loaded, the service starts, and each request for a prediction is answered by 503.
  start-without_model :
      (reason : String) (stats : Result (ReferenceStats F)) (prediction_id : String)
      (payload : PredictRequest F) (rows : Table F)
      → (s : Started F) × (start (raised (runtime_error reason)) stats ≡ ok s)
        × ((detail : String) × (predict prediction_id s.app payload rows
              ≡ (raised (http_exception 503 detail), rows)))
  unfolding start predict get_classifier
  start-without_model reason stats prediction_id payload rows = (_, refl, (_, refl))
