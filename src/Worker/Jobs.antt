-- ===== src/Worker/Jobs.antt =====
-- The jobs of backend/src/worker: what retrain.py, rollback.py and replay_test.py do with a failure, and the body of
-- rollback.py. `arq` runs a job that raises Retry again, with the next `job_try`.
pub mod Retries
use drift_triage_co_pilot.Prelude.{
  ℕ, zero, suc, ◌^◌, String, List, [], ◌∷◌, ◌++◌, leb, if◌then◌else◌, Result, ok, raised,
  http_exception, validation_error, http_status_error,
}
use drift_triage_co_pilot.Floating.{Float}
use drift_triage_co_pilot.Settings.{Settings}
use drift_triage_co_pilot.Worker.Dedup.{Job, Action}
use drift_triage_co_pilot.Service.Promotion.{
  Registry, PromotionRequest, PromotionResponse, handle_promote,
}

-- How a try of a job ends: it returns, or it raises Retry with a delay in seconds.
pub data Outcome : Type 0 where
  returned : Outcome
  deferred : ℕ → Outcome

-- An entry of the dead-letter list: the job's type and payload.
pub record DeadLetter : Type 0 where
  pub job_type : Action
  pub model_version : ℕ
  pub hil_approval_id : String

abbrev pub dead_letter : Job → DeadLetter
dead_letter job = record {
  job_type = job.job_type;
  model_version = job.model_version;
  hil_approval_id = job.hil_approval_id;
}

unfoldable pub push_to_dlq : Job → List DeadLetter → List DeadLetter
push_to_dlq job letters = letters ++ dead_letter job ∷ []

-- The `except` clause that the jobs share, after their `try` has given `body`.
unfoldable pub finish_try :
    (job_try : ℕ) → Job → Result (Unit {0}) → List DeadLetter → Outcome × List DeadLetter
unfolding push_to_dlq
finish_try job_try job (ok _) letters = (returned, letters)
finish_try job_try job (raised e) letters =
    if leb 3 job_try then (returned, push_to_dlq job letters) else (deferred (2 ^ job_try), letters)

-- `MODEL_NAME` of backend/src/ml/register.py
abbrev pub model_name : String
model_name = "drift-triage-classifier"

abbrev pub rollback_request : Job → PromotionRequest
rollback_request job = record {
  model_name = model_name;
  target_version = job.model_version;
  investigation_id = job.investigation_id;
  hil_approval_id = job.hil_approval_id;
}

-- The status of the service's answer, and `r.raise_for_status()`
abbrev pub raise_for_status : Result PromotionResponse → Result (Unit {0})
raise_for_status (ok response) = ok tt
raise_for_status (raised (http_exception code detail)) = raised (http_status_error code detail)
raise_for_status (raised (validation_error detail)) = raised (http_status_error 422 detail)
raise_for_status (raised other) = raised (http_status_error 500 "Internal Server Error")

module _ {F R : Type 0} ⦃f : Float F⦄ ⦃g : Registry F R⦄ where
  -- One try of `rollback`, and the tries that `arq` runs of it, from `job_try` on, at most `tries` of them.
  unfoldable pub rollback :
      Settings F → (job_try : ℕ) → Job → R → List DeadLetter → (Outcome × List DeadLetter) × R
  unfolding finish_try handle_promote
  rollback settings job_try job registry letters =
      let (answer, registry') =
        handle_promote settings settings.promotion_api_key (rollback_request job) registry in
      (finish_try job_try job (raise_for_status answer) letters, registry')

  unfoldable pub run_rollback :
      Settings F → (tries job_try : ℕ) → Job → R → List DeadLetter → List DeadLetter × R
  run_rollback settings zero job_try job registry letters = (letters, registry)
  run_rollback settings (suc tries) job_try job registry letters =
      let ((outcome, letters'), registry') = rollback settings job_try job registry letters in
      let onward = run_rollback settings tries (suc job_try) job registry' letters' in
      elim outcome [ returned ↦ (letters', registry') | deferred _ ↦ onward ]
