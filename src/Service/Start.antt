-- ===== src/Service/Start.antt =====
-- backend/src/service/main.py, `lifespan`: what the service loads at its start; and the dependency on the reference
-- statistics of backend/src/service/deps/classifier.py.
pub mod Trained
use drift_triage_co_pilot.Prelude.{
  String, Option, none, some, Result, ok, raised, Exception, http_exception, runtime_error,
  other_error, ◌>>=◌,
}
use drift_triage_co_pilot.Floating.{Float}
use drift_triage_co_pilot.Ml.Reference.{ReferenceStats}
use drift_triage_co_pilot.Service.Predictions.{Features, AppState}

-- The singletons of `app.state` with the statistics.
pub record Started (F : Type 0) : Type 0 where
  pub app : AppState F
  pub ref_stats : Option (ReferenceStats F)

-- `load_reference_stats`: `none` is a missing file, and otherwise it is what the reading of the JSON gives.
abbrev pub load_reference_stats :
    {F : Type 0} → Option (Result (ReferenceStats F)) → Result (ReferenceStats F)
load_reference_stats none =
    raised (other_error "Reference stats not found. Run `make train` first.")
load_reference_stats (some read) = read

module _ {F : Type 0} ⦃f : Float F⦄ where
  -- `except RuntimeError`: the service starts without a model.
  abbrev pub or_without_model : Result (Started F) → Result (Started F)
  or_without_model (raised (runtime_error reason)) =
      ok
        (record { app = record { classifier = none; threshold = f.literal 5 1 }; ref_stats = none })
  or_without_model other = other

  -- The part of `lifespan` that loads the artefacts.
  unfoldable pub start :
      Result ((Features F → F) × F) → Result (ReferenceStats F) → Result (Started F)
  start model stats = or_without_model (
      model >>= λ loaded. stats >>= λ ref_stats. ok (record {
        app = record { classifier = some loaded.0; threshold = loaded.1 };
        ref_stats = some ref_stats;
      }))

unfoldable pub get_ref_stats : {F : Type 0} → Started F → Result (ReferenceStats F)
get_ref_stats s = elim s.ref_stats [
  | none ↦ raised (http_exception 503 "No trained model available. Run `make train` first.")
  | some stats ↦ ok stats
]
