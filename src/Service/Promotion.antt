-- ===== src/Service/Promotion.antt =====
-- backend/src/service/routers/promotion.py: the gates in front of Production. MLflow's registry is an interface; a tag
-- is the number that `float` reads from it.
pub mod Gates
pub mod Rollback
use mathlib.Core.Option
use drift_triage_co_pilot.Prelude.{
  ℕ, ◌≡◌, Bool, true, false, not, ◌&&◌, ◌||◌, String, ◌&◌, truthy, Option, none, some, List, [],
  ◌∷◌, ◌==◌, string_eq, ltb, leb, if◌then◌else◌, Result, ok, raised, Exception, http_exception,
  validation_error, Equality, ◌↔◌, arith,
}
use drift_triage_co_pilot.Floating.{Float, nought}
use drift_triage_co_pilot.Settings.{Settings}

pub data Stage : Type 0 where
  unstaged staging production archived : Stage

abbrev pub is_staging : Stage → Bool
is_staging staging = true
is_staging other = false

pub record ModelVersion (F : Type 0) : Type 0 where
  pub version : ℕ
  pub stage : Stage
  pub auc : Option F
  pub recall : Option F

-- The calls of `MlflowClient`: `none` stands for the exception of an unknown version, and `latest_production` for
-- `get_latest_versions` at the stage Production.
pub record Registry (F R : Type 0) : Type 0 where
  pub get_model_version : String → ℕ → R → Option (ModelVersion F)
  pub latest_production : String → R → List (ModelVersion F)
  pub transition_stage : String → ℕ → Stage → R → R

pub record PromotionRequest : Type 0 where
  pub model_name : String
  pub target_version : ℕ
  pub investigation_id : String
  pub hil_approval_id : String

pub record PromotionResponse : Type 0 where
  pub model_name : String
  pub promoted_version : ℕ
  pub previous_version : Option ℕ

-- The constraints of the fields
abbrev pub is_valid_request : PromotionRequest → Bool
is_valid_request p =
    truthy p.model_name
    && (leb 1 p.target_version && (truthy p.investigation_id && truthy p.hil_approval_id))

abbrev pub previous : {F : Type 0} → List (ModelVersion F) → Option ℕ
previous [] = none
previous (current ∷ rest) = some current.version

module _ {F : Type 0} ⦃f : Float F⦄ where
  abbrev pub tag : Option F → F
  tag value = Option.get_or value nought

  -- Gate 2: the answer to a target whose AUC is below that of Production, if there is one.
  abbrev pub auc_too_low : ModelVersion F → List (ModelVersion F) → Bool
  auc_too_low target [] = false
  auc_too_low target (current ∷ rest) = f.lt (tag target.auc) (tag current.auc)

  abbrev pub production_auc : List (ModelVersion F) → F
  production_auc [] = nought
  production_auc (current ∷ rest) = tag current.auc

  abbrev pub auc_refused : ModelVersion F → List (ModelVersion F) → Exception
  auc_refused target versions = http_exception 400 (
      "Target AUC "
      & f.fixed (tag target.auc)
      & " < Production AUC "
      & f.fixed (production_auc versions))

  abbrev pub recall_refused : ModelVersion F → F → Exception
  recall_refused target least =
      http_exception 400
        ("Target recall " & f.fixed (tag target.recall) & " < minimum " & f.str least)

module _ {F R : Type 0} ⦃g : Registry F R⦄ where
  -- The transitions, once the gates are passed, from the versions that were in Production.
  abbrev archive : String → List (ModelVersion F) → R → R
  archive name [] registry = registry
  archive name (current ∷ rest) registry = g.transition_stage name current.version archived registry

  abbrev pub promoted_registry : PromotionRequest → List (ModelVersion F) → R → R
  promoted_registry p versions registry =
      g.transition_stage p.model_name p.target_version production
        (archive p.model_name versions registry)

module _ {F R : Type 0} ⦃f : Float F⦄ ⦃g : Registry F R⦄ where
  unfoldable pub pass_gates :
      Settings F → PromotionRequest → ModelVersion F → R → Result PromotionResponse × R
  pass_gates settings p target registry =
      if not (is_staging target.stage)
      then (raised (http_exception 400 "Target version is not in Staging"), registry)
      else if auc_too_low target (g.latest_production p.model_name registry)
      then (raised (auc_refused target (g.latest_production p.model_name registry)), registry)
      else if f.lt (tag target.recall) settings.min_recall
      then (raised (recall_refused target settings.min_recall), registry)
      else if not (truthy p.hil_approval_id)
      then (raised (http_exception 400 "HIL approval required"), registry)
      else (
        ok (record {
          model_name = p.model_name;
          promoted_version = p.target_version;
          previous_version = previous (g.latest_production p.model_name registry);
        }),
        promoted_registry p (g.latest_production p.model_name registry) registry,
      )

  unfoldable pub promote : Settings F → PromotionRequest → R → Result PromotionResponse × R
  unfolding pass_gates
  promote settings p registry = elim (g.get_model_version p.model_name p.target_version registry) [
    | none ↦ (raised (http_exception 404 "Target model version not found"), registry)
    | some target ↦ pass_gates settings p target registry
  ]

  -- The request as FastAPI handles it: the key first, then the fields, then the endpoint.
  unfoldable pub handle_promote :
      Settings F → (api_key : String) → PromotionRequest → R → Result PromotionResponse × R
  unfolding promote
  handle_promote settings api_key p registry =
      if not (api_key == settings.promotion_api_key)
      then (raised (http_exception 403 "Invalid promotion key"), registry)
      else if not (is_valid_request p)
      then (raised (validation_error "PromotionRequest"), registry)
      else promote settings p registry
