-- ===== src/Worker/Jobs/Retries.antt =====
-- The three tries of backend/src/worker/rollback.py, when the promotion refuses each.
use drift_triage_co_pilot.Prelude.{
  ℕ, suc, ◌^◌, if◌then◌else◌, ◌≡◌, refl, sym, ◌∙◌, String, some, List, [], ◌∷◌, ◌++◌, string_eq,
  leb, ok, raised, http_exception, true, eq_refl,
}
use drift_triage_co_pilot.Floating.{Float}
use drift_triage_co_pilot.Settings.{Settings}
use drift_triage_co_pilot.Worker.Dedup.{Job}
use drift_triage_co_pilot.Service.Promotion.{
  Registry, PromotionRequest, PromotionResponse, handle_promote, promote, is_valid_request,
}
use drift_triage_co_pilot.Service.Promotion.Rollback.{IsRegistry, replaced-refused}
use drift_triage_co_pilot.Worker.Jobs.{
  DeadLetter, dead_letter, finish_try, rollback_request, rollback, run_rollback, deferred, returned,
  model_name,
}

module _ {F R : Type 0} ⦃f : Float F⦄ ⦃g : Registry F R⦄ where
  refused_try :
      (settings : Settings F) (job_try : ℕ) (job : Job) (registry : R) (letters : List DeadLetter)
      (code : ℕ) (detail : String)
      → handle_promote settings settings.promotion_api_key (rollback_request job) registry
        ≡ (raised (http_exception code detail), registry)
      → rollback settings job_try job registry letters ≡ (
        if leb 3 job_try
            then (returned, letters ++ dead_letter job ∷ [])
            else (deferred (2 ^ job_try), letters),
        registry,
      )
  unfolding rollback finish_try
  refused_try settings job_try job registry letters code detail refused = rw refused refl

  again :
      (settings : Settings F) (tries job_try delay : ℕ) (job : Job) (registry : R)
      (letters : List DeadLetter)
      → rollback settings job_try job registry letters ≡ ((deferred delay, letters), registry)
      → run_rollback settings (suc tries) job_try job registry letters
        ≡ run_rollback settings tries (suc job_try) job registry letters
  unfolding run_rollback
  again settings tries job_try delay job registry letters e = rw (e, run_rollback) (rw e refl)

  last :
      (settings : Settings F) (tries job_try : ℕ) (job : Job) (registry : R)
      (letters letters' : List DeadLetter)
      → rollback settings job_try job registry letters ≡ ((returned, letters'), registry)
      → run_rollback settings (suc tries) job_try job registry letters ≡ (letters', registry)
  unfolding run_rollback
  last settings tries job_try job registry letters letters' e = rw (e, run_rollback) (rw e refl)

  handled :
      (settings : Settings F) (q : PromotionRequest) (registry : R)
      → is_valid_request q ≡ true
      → handle_promote settings settings.promotion_api_key q registry ≡ promote settings q registry
  unfolding handle_promote
  handled settings q registry valid = rw (eq_refl settings.promotion_api_key, valid) refl

  -- In a registry that behaves as documented: after a promotion of the model that the jobs name has replaced a
  -- version, a rollback job for the replaced version, with the fields of its request filled in, never succeeds.
  -- Its first try asks for a second after 2 seconds, the second for a third after 4, the third writes one entry
  -- to the dead-letter list, and the registry is left as the promotion made it.
  pub run_rollback-replaced :
      IsRegistry F R
      → (settings : Settings F) (p : PromotionRequest) (response : PromotionResponse) (job : Job)
        (registry registry' : R) (letters : List DeadLetter)
      → promote settings p registry ≡ (ok response, registry')
      → response.previous_version ≡ some job.model_version
      → p.model_name ≡ model_name
      → is_valid_request (rollback_request job) ≡ true
      → (rollback settings 1 job registry' letters ≡ ((deferred 2, letters), registry'))
        × (rollback settings 2 job registry' letters ≡ ((deferred 4, letters), registry'))
        × (run_rollback settings 3 1 job registry' letters
            ≡ (letters ++ dead_letter job ∷ [], registry'))
  run_rollback-replaced laws settings p response job registry registry' letters promoted before
        named valid =
      let refused =
        handled settings (rollback_request job) registry' valid
        ∙ replaced-refused laws settings p (rollback_request job) registry registry' response
            promoted before (sym named) in
      let first : rollback settings 1 job registry' letters ≡ ((deferred 2, letters), registry') =
        refused_try settings 1 job registry' letters _ _ refused in
      let second : rollback settings 2 job registry' letters ≡ ((deferred 4, letters), registry') =
        refused_try settings 2 job registry' letters _ _ refused in
      (
        first,
        second,
        again settings 2 1 2 job registry' letters first
            ∙ again settings 1 2 4 job registry' letters second
            ∙ last settings 0 3 job registry' letters _
                (refused_try settings 3 job registry' letters _ _ refused),
      )
