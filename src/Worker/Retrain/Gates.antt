-- ===== src/Worker/Retrain/Gates.antt =====
-- backend/src/worker/retrain.py: what a retrain may do to Production.
use drift_triage_co_pilot.Prelude.{
  ℕ, ◌≡◌, refl, ap, String, ◌⊎◌, inl, inr, true, Option, none, some, List, [], ◌∷◌, Result, ok,
  raised, Exception, Bool-cases, Result-cases,
}
use drift_triage_co_pilot.Floating.{Float, ◌≼◌}
use drift_triage_co_pilot.Settings.{Settings}
use drift_triage_co_pilot.Ml.Train.{Sklearn, TrainResult}
use drift_triage_co_pilot.Ml.Data.Split.{Columns, Split}
use drift_triage_co_pilot.Ml.Reference.{ReferenceStats}
use drift_triage_co_pilot.Ml.Reference.Compute.{Pandas}
use drift_triage_co_pilot.Ml.Register.{
  Mlflow, Calls, before_run, VersionInfo, Trained, register_model,
}
use drift_triage_co_pilot.Service.Promotion.{
  Registry, staging, production_auc, is_valid_request, promoted_registry,
}
use drift_triage_co_pilot.Service.Promotion.Gates.{PassesGates, handle_promote-gates}
use drift_triage_co_pilot.Worker.Dedup.{Job}
use drift_triage_co_pilot.Worker.Jobs.{model_name, DeadLetter}
use drift_triage_co_pilot.Worker.Retrain.{
  retrain_request, trained_of, trained, promote_staged, after_register, retrain_body, retrain,
}

module _ {F X R : Type 0} ⦃f : Float F⦄ ⦃g : Registry F R⦄ (settings : Settings F)
    (sk : Sklearn F X) (ml : Mlflow (X → List F) R) (pd : Pandas F)
    (frame : List (Columns F) → X) where
  -- A version was promoted in the registry `r`: its AUC is not below that of Production, and it passed the gates.
  pub record IsPromoted (job : Job) (new_auc : F) (r r' : R) (version : ℕ) : Type 0 where
    pub not_worse : production_auc (g.latest_production model_name r) ≼ new_auc
    pub valid : is_valid_request (retrain_request job version) ≡ true
    pub passes : PassesGates settings (retrain_request job version) r
    pub promoted :
        r' ≡ promoted_registry (retrain_request job version) (g.latest_production model_name r) r

  -- The registry is left as it is, or a version is promoted.
  abbrev pub MayPromote : Job → F → R → R → Type 0
  MayPromote job new_auc r r' = (r' ≡ r) ⊎ ((version : ℕ) × IsPromoted job new_auc r r' version)

  promote_staged-MayPromote :
      (job : Job) (new_auc : F) (versions : Option (List VersionInfo)) (r : R)
      → MayPromote job new_auc r (promote_staged settings sk ml pd frame job new_auc versions r).1
  unfolding promote_staged
  promote_staged-MayPromote job new_auc none r = inl refl
  promote_staged-MayPromote job new_auc (some []) r = inl refl
  promote_staged-MayPromote job new_auc (some (v ∷ vs)) r =
      elim (Bool-cases (f.le (production_auc (g.latest_production model_name r)) new_auc)) [
        | inr worse ↦ rw (worse, promote_staged) (inl refl)
        | inl fine ↦
            rw (fine, promote_staged)
              (elim (handle_promote-gates settings settings.promotion_api_key
                (retrain_request job v.version) r) [
                  | inl (e, refused) ↦ inl (ap (λ d. d.1) refused)
                  | inr (_, valid, passes, promoted) ↦ inr (
                    v.version,
                    record {
                      not_worse = fine;
                      valid = valid;
                      passes = passes;
                      promoted = ap (λ d. d.1) promoted;
                    },
                  )
                ])
      ]

  after_register-MayPromote :
      (job : Job) (new_auc : F) (done : Result ℕ × R)
      → MayPromote job new_auc done.1 (after_register settings sk ml pd frame job new_auc done).1
  unfolding after_register
  after_register-MayPromote job new_auc (raised e, r) = inl refl
  after_register-MayPromote job new_auc (ok v, r) =
      promote_staged-MayPromote job new_auc (ml.get_latest_versions model_name staging r) r

  register_model-refused :
      (job : Job) (new_auc : F) (calls : Calls) (result : Trained F (X → List F)) (threshold : F)
      (r : R) (e : Exception)
      → before_run calls ≡ raised e
      → (after_register settings sk ml pd frame job new_auc
          (register_model ml calls result threshold r)).1
        ≡ r
  unfolding register_model after_register
  register_model-refused job new_auc calls result threshold r e refused =
      rw (refused, register_model) refl

  -- A try of the job fails before it registers anything, in the loading, the training, the statistics or the files
  -- of the registration, and leaves the registry as it is; or it registers the model that it has trained. After
  -- that, whatever fails, it leaves Production to the gates: the registry stays as the registration made it, or a
  -- version has passed the gates of a promotion in it, where the AUC of the trained model is not below that of
  -- Production.
  pub retrain-MayPromote :
      (loaded : Result (Split F × String)) (calls : Calls) (job_try : ℕ) (job : Job) (r : R)
      (letters : List DeadLetter)
      → let after = (retrain settings sk ml pd frame loaded calls job_try job r letters).1 in
        ((e : Exception) × (trained settings sk ml pd frame loaded ≡ raised e) × (after ≡ r))
        ⊎ ((result : TrainResult F X) × (threshold : F) × (ref_stats : ReferenceStats F) × (trained
                settings sk ml pd frame loaded
              ≡ ok (result, threshold, ref_stats))
            × (((e : Exception) × (before_run calls ≡ raised e) × (after ≡ r))
                ⊎ ((before_run calls ≡ ok tt)
                    × MayPromote job result.auc
                        (register_model ml calls (trained_of result) threshold r).1
                        after)))
  unfolding retrain retrain_body
  retrain-MayPromote loaded calls job_try job r letters =
      elim (Result-cases (trained settings sk ml pd frame loaded)) [
        | inr (e, failed) ↦ inl (e, failed, rw (failed, retrain_body) refl)
        | inl ((result, threshold, ref_stats), made) ↦
            let registered = register_model ml calls (trained_of result) threshold r in
            inr (
              result,
              threshold,
              ref_stats,
              made,
              elim (Result-cases (before_run calls)) [
                | inr (e, refused) ↦ inl (
                  e,
                  refused,
                  rw (made, retrain_body)
                      (register_model-refused job result.auc calls (trained_of result) threshold r e
                        refused),
                )
                | inl (_, fine) ↦ inr (
                  fine,
                  rw (made, retrain_body) (after_register-MayPromote job result.auc registered),
                )
              ],
            )
      ]
