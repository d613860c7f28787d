-- ===== src/Service/Tests.antt =====
-- The theorems on the promotion at a concrete registry of the versions of one model.
use drift_triage_co_pilot.Prelude.{
  ℕ, ◌≡◌, ap, subst, refl, ◌⊎◌, true, String, Option, none, some, List, [], ◌∷◌, ◌==◌, nat_eq,
  if◌then◌else◌, ok, raised, Exception, arith,
}
use drift_triage_co_pilot.Settings.{default_settings}
use drift_triage_co_pilot.Floating.Fixed.{Fixed, fixed_float}
use drift_triage_co_pilot.Service.Promotion.{
  Stage, staging, production, unstaged, archived, ModelVersion, Registry, PromotionRequest,
  is_valid_request, promote, pass_gates, handle_promote,
}
use drift_triage_co_pilot.Service.Promotion.Gates.{PassesGates, handle_promote-gates}
use drift_triage_co_pilot.Worker.Dedup.{Job, rollback as rollback_action}
use drift_triage_co_pilot.Worker.Jobs.{dead_letter, model_name, rollback, run_rollback, deferred}
use drift_triage_co_pilot.Worker.Jobs.Retries.{run_rollback-replaced}
use drift_triage_co_pilot.Service.Promotion.Rollback.{IsRegistry}

-- Two versions, the first and the second, by their stages.
abbrev Versions : Type 0
Versions = Stage × Stage

abbrev version_in : ℕ → Stage → ModelVersion Fixed
version_in v stage = record {
  version = v;
  stage = stage;
  auc = some 80_000_000;
  recall = some 76_000_000;
}

abbrev find_version : ℕ → Versions → Option (ModelVersion Fixed)
find_version v r =
    if v == 1 then some (version_in 1 r.0) else if v == 2 then some (version_in 2 r.1) else none

abbrev in_production : ℕ → Stage → List (ModelVersion Fixed) → List (ModelVersion Fixed)
in_production v production rest = version_in v production ∷ []
in_production v other rest = rest

abbrev move : ℕ → Stage → Versions → Versions
move v stage r = if v == 1 then (stage, r.1) else if v == 2 then (r.0, stage) else r

abbrev listed : Versions → List (ModelVersion Fixed)
listed r = in_production 2 r.1 (in_production 1 r.0 [])

instance abbrev versions_registry : Registry Fixed Versions
versions_registry = record {
  get_model_version = λ name v r. find_version v r;
  latest_production = λ name r. listed r;
  transition_stage = λ name v stage r. move v stage r;
}

abbrev first_listed : List (ModelVersion Fixed) → ModelVersion Fixed
first_listed [] = version_in 0 unstaged
first_listed (v ∷ rest) = v

listed-serves :
    (current : ModelVersion Fixed) (rest : List (ModelVersion Fixed)) (first second : Stage)
    → listed (first, second) ≡ current ∷ rest
    → (find_version current.version (first, second) ≡ some current) × (current.stage ≡ production)
listed-serves current rest first production serving =
    subst (λ c. (find_version c.version (first, production) ≡ some c) × (c.stage ≡ production))
      (ap first_listed serving) (refl, refl)
listed-serves current rest production staging serving =
    subst (λ c. (find_version c.version (production, staging) ≡ some c) × (c.stage ≡ production))
      (ap first_listed serving) (refl, refl)
listed-serves current rest production unstaged serving =
    subst (λ c. (find_version c.version (production, unstaged) ≡ some c) × (c.stage ≡ production))
      (ap first_listed serving) (refl, refl)
listed-serves current rest production archived serving =
    subst (λ c. (find_version c.version (production, archived) ≡ some c) × (c.stage ≡ production))
      (ap first_listed serving) (refl, refl)
listed-serves current rest first second serving = ground (arith, serving)

Versions-IsRegistry : IsRegistry Fixed Versions
Versions-IsRegistry = record {
  moved = λ name v stage r. ground arith;
  kept = λ name v u stage r other. ground (arith, other);
  serves = λ name current rest r serving. listed-serves current rest r.0 r.1 serving;
}

abbrev secret : String
secret = "key"

abbrev promotion_of : ℕ → PromotionRequest
promotion_of v = record {
  model_name = "bank";
  target_version = v;
  investigation_id = "i1";
  hil_approval_id = "h1";
}

abbrev before : Versions
before = (production, staging)

abbrev after : Versions
after = (archived, production)

handle_promote-gates_example :
    ((e : Exception) × (handle_promote {F = Fixed}
          (default_settings "key")
          "key"
          (promotion_of 2)
          before
        ≡ (raised e, before)))
    ⊎ ((secret ≡ secret)
        × (is_valid_request (promotion_of 2) ≡ true)
        × PassesGates {F = Fixed} (default_settings "key") (promotion_of 2) before
        × (handle_promote {F = Fixed} (default_settings "key") "key" (promotion_of 2) before ≡ (
          ok (record { model_name = "bank"; promoted_version = 2; previous_version = some 1 }),
          after,
        )))
handle_promote-gates_example =
    handle_promote-gates (default_settings "key") "key" (promotion_of 2) before

-- The registry of the model that the jobs name, after its second version has replaced the first.
abbrev rollback_job : Job
rollback_job = record {
  job_type = rollback_action;
  investigation_id = "i1";
  idempotency_key = "rollback:i1";
  model_version = 1;
  hil_approval_id = "h1";
  job_id = "j1";
  enqueued_at = 10;
}

abbrev job_promotion : PromotionRequest
job_promotion = record (promotion_of 2) { model_name = model_name }

second_promoted : promote {F = Fixed} (default_settings "key") job_promotion before ≡ (
  ok (record { model_name = model_name; promoted_version = 2; previous_version = some 1 }),
  after,
)
unfolding promote pass_gates
second_promoted = refl

run_rollback-replaced_example :
    (rollback {F = Fixed} (default_settings "key") 1 rollback_job after []
      ≡ ((deferred 2, []), after))
    × (rollback {F = Fixed} (default_settings "key") 2 rollback_job after []
        ≡ ((deferred 4, []), after))
    × (run_rollback {F = Fixed} (default_settings "key") 3 1 rollback_job after []
        ≡ (dead_letter rollback_job ∷ [], after))
run_rollback-replaced_example =
    run_rollback-replaced Versions-IsRegistry (default_settings "key") job_promotion
      (record { model_name = model_name; promoted_version = 2; previous_version = some 1 })
      rollback_job before after [] second_promoted refl refl refl
