-- ===== src/Service/Promotion/Gates.antt =====
-- backend/src/service/routers/promotion.py: the gates of `promote`, and its refusals.
use drift_triage_co_pilot.Prelude.{
  ◌≡◌, ◌⊎◌, inl, inr, refl, true, false, String, truthy, some, ◌==◌, string_eq, Bool-cases,
  Option-cases, beq-path, ok, raised, Exception, http_exception, validation_error, arith,
}
use drift_triage_co_pilot.Floating.{Float}
use drift_triage_co_pilot.Settings.{Settings}
use drift_triage_co_pilot.Service.Promotion.{
  staging, is_staging, ModelVersion, Registry, PromotionRequest, is_valid_request, tag, auc_too_low,
  promote, pass_gates, auc_refused, recall_refused, promoted_registry, handle_promote, previous,
}

module _ {F R : Type 0} ⦃f : Float F⦄ ⦃g : Registry F R⦄ where
  -- The version passes the gates on the stage, on the AUC against Production, and on the recall.
  abbrev pub PassesGates : Settings F → PromotionRequest → R → Type 0
  PassesGates settings p registry =
      (target : ModelVersion F) × (g.get_model_version p.model_name p.target_version registry
        ≡ some target)
      × (target.stage ≡ staging)
      × (auc_too_low target (g.latest_production p.model_name registry) ≡ false)
      × (f.lt (tag target.recall) settings.min_recall ≡ false)

  pub promote-gates :
      (settings : Settings F) (p : PromotionRequest) (registry : R)
      → ((e : Exception) × (promote settings p registry ≡ (raised e, registry)))
        ⊎ (PassesGates settings p registry
            × (promote settings p registry ≡ (
              ok (record {
                model_name = p.model_name;
                promoted_version = p.target_version;
                previous_version = previous (g.latest_production p.model_name registry);
              }),
              promoted_registry p (g.latest_production p.model_name registry) registry,
            )))
  unfolding promote pass_gates
  promote-gates settings p registry =
      elim (Option-cases (g.get_model_version p.model_name p.target_version registry)) [
        | inl absent ↦
            inl (http_exception 404 "Target model version not found", rw (absent, promote) refl)
        | inr (target, found) ↦ elim (Bool-cases (is_staging target.stage)) [
          | inr unstaged ↦ inl (
            http_exception 400 "Target version is not in Staging",
            rw (found, unstaged, promote, pass_gates) refl,
          )
          | inl staged ↦
              elim (Bool-cases (auc_too_low target (g.latest_production p.model_name registry))) [
                | inl low_auc ↦ inl (
                  auc_refused target (g.latest_production p.model_name registry),
                  rw (found, staged, low_auc, promote, pass_gates) refl,
                )
                | inr auc ↦ elim (Bool-cases (f.lt (tag target.recall) settings.min_recall)) [
                  | inl low_recall ↦ inl (
                    recall_refused target settings.min_recall,
                    rw (found, staged, auc, low_recall, promote, pass_gates) refl,
                  )
                  | inr recall ↦ elim (Bool-cases (truthy p.hil_approval_id)) [
                    | inr unapproved ↦ inl (
                      http_exception 400 "HIL approval required",
                      rw (found, staged, auc, recall, unapproved, promote, pass_gates) refl,
                    )
                    | inl named ↦ inr (
                      (target, found, ground (arith, staged), auc, recall),
                      rw (found, staged, auc, recall, named, promote, pass_gates) refl,
                    )
                  ]
                ]
              ]
        ]
      ]

  -- A request either is refused with the registry left as it is, or came with the promotion key, with all its fields
  -- filled in, for a version in Staging whose AUC is not below that of Production and whose recall is
  -- not below the minimum, and then Production's version is archived and the target takes its place.
  pub handle_promote-gates :
      (settings : Settings F) (api_key : String) (p : PromotionRequest) (registry : R)
      → ((e : Exception) × (handle_promote settings api_key p registry ≡ (raised e, registry)))
        ⊎ ((api_key ≡ settings.promotion_api_key)
            × (is_valid_request p ≡ true)
            × PassesGates settings p registry
            × (handle_promote settings api_key p registry ≡ (
              ok (record {
                model_name = p.model_name;
                promoted_version = p.target_version;
                previous_version = previous (g.latest_production p.model_name registry);
              }),
              promoted_registry p (g.latest_production p.model_name registry) registry,
            )))
  unfolding handle_promote
  handle_promote-gates settings api_key p registry =
      elim (Bool-cases (api_key == settings.promotion_api_key)) [
        | inr foreign ↦
            inl (http_exception 403 "Invalid promotion key", rw (foreign, handle_promote) refl)
        | inl known ↦ elim (Bool-cases (is_valid_request p)) [
          | inr invalid ↦
              inl (validation_error "PromotionRequest", rw (known, invalid, handle_promote) refl)
          | inl valid ↦ elim (promote-gates settings p registry) [
            | inl (e, refused) ↦ inl (e, rw (known, valid, refused, handle_promote) refl)
            | inr (passes, promoted) ↦ inr (
              beq-path _ _ known,
              valid,
              passes,
              rw (known, valid, promoted, handle_promote) refl,
            )
          ]
        ]
      ]
