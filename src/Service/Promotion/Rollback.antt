-- ===== src/Service/Promotion/Rollback.antt =====
-- What a promotion does to the version that it replaces, and so what backend/src/worker/rollback.py, which asks
-- `promote` for a version, can bring back.
use drift_triage_co_pilot.Prelude.{
  ℕ, ◌≡◌, inl, inr, refl, sym, ap, ◌∙◌, subst, false, String, Option, none, some, List, [], ◌∷◌,
  ◌==◌, nat_eq, Bool-cases, beq-path, Result, ok, raised, http_exception, arith,
}
use drift_triage_co_pilot.Floating.{Float}
use drift_triage_co_pilot.Settings.{Settings}
use drift_triage_co_pilot.Service.Promotion.{
  Stage, staging, production, archived, is_staging, ModelVersion, Registry, PromotionRequest,
  PromotionResponse, promote, pass_gates, promoted_registry, previous,
}
use drift_triage_co_pilot.Service.Promotion.Gates.{promote-gates}

abbrev pub restage : {F : Type 0} → Stage → Option (ModelVersion F) → Option (ModelVersion F)
restage stage none = none
restage stage (some v) = some (record v { stage = stage })

-- The documented behaviour of the registry: a transition changes the stage of one version, and what
-- `get_latest_versions` lists is in the registry, in the stage asked for.
pub record IsRegistry (F R : Type 0) ⦃g : Registry F R⦄ : Type 0 where
  pub moved :
      (name : String) (v : ℕ) (stage : Stage) (r : R)
      → g.get_model_version name v (g.transition_stage name v stage r)
        ≡ restage stage (g.get_model_version name v r)
  pub kept :
      (name : String) (v u : ℕ) (stage : Stage) (r : R)
      → (v == u) ≡ false
      → g.get_model_version name u (g.transition_stage name v stage r)
        ≡ g.get_model_version name u r
  pub serves :
      (name : String) (current : ModelVersion F) (rest : List (ModelVersion F)) (r : R)
      → g.latest_production name r ≡ current ∷ rest
      → (g.get_model_version name current.version r ≡ some current) × (current.stage ≡ production)

-- The previous version that an answer names, if it is no exception.
abbrev answer_of : Result PromotionResponse → Option (Option ℕ)
answer_of (raised e) = none
answer_of (ok response) = some response.previous_version

module _ {F R : Type 0} ⦃f : Float F⦄ ⦃g : Registry F R⦄ where
  not_staged-refused :
      (settings : Settings F) (q : PromotionRequest) (r : R) (v : ModelVersion F)
      → g.get_model_version q.model_name q.target_version r ≡ some v
      → is_staging v.stage ≡ false
      → promote settings q r ≡ (raised (http_exception 400 "Target version is not in Staging"), r)
  unfolding promote pass_gates
  not_staged-refused settings q r v found refused = rw (found, refused, promote, pass_gates) refl

  archived-after :
      IsRegistry F R
      → (settings : Settings F) (p : PromotionRequest) (registry : R)
        (target current : ModelVersion F) (rest : List (ModelVersion F))
      → g.get_model_version p.model_name p.target_version registry ≡ some target
      → target.stage ≡ staging
      → g.latest_production p.model_name registry ≡ current ∷ rest
      → g.get_model_version p.model_name current.version
          (promoted_registry p (current ∷ rest) registry)
        ≡ some (record current { stage = archived })
  archived-after laws settings p registry target current rest found staged serving =
      elim (Bool-cases (p.target_version == current.version)) [
        | inl same ↦
            let (listed, served) = laws.serves p.model_name current rest registry serving in
            let clash : some target ≡ some current =
              sym found
              ∙ ap (λ v. g.get_model_version p.model_name v registry)
                  (beq-path p.target_version current.version same)
              ∙ listed in
            ground (arith, clash, staged, served)
        | inr other ↦
            laws.kept p.model_name p.target_version current.version production _ other
            ∙ laws.moved p.model_name current.version archived registry
            ∙ ap (restage archived) (laws.serves p.model_name current rest registry serving).0
      ]

  replaced_version-refused :
      IsRegistry F R
      → (settings : Settings F) (p q : PromotionRequest) (registry : R) (target : ModelVersion F)
        (versions : List (ModelVersion F))
      → g.get_model_version p.model_name p.target_version registry ≡ some target
      → target.stage ≡ staging
      → g.latest_production p.model_name registry ≡ versions
      → previous versions ≡ some q.target_version
      → q.model_name ≡ p.model_name
      → promote settings q (promoted_registry p versions registry) ≡ (
        raised (http_exception 400 "Target version is not in Staging"),
        promoted_registry p versions registry,
      )
  replaced_version-refused laws settings p q registry target [] found staged serving before same =
      ground (arith, before)
  replaced_version-refused laws settings p q registry target (current ∷ rest) found staged serving
        before same =
      let version : current.version ≡ q.target_version = ground (arith, before) in
      not_staged-refused settings q _ (record current { stage = archived })
        (subst
          (λ v.
            g.get_model_version q.model_name v (promoted_registry p (current ∷ rest) registry)
            ≡ some (record current { stage = archived }))
          version
          (subst
            (λ name.
              g.get_model_version name current.version
                (promoted_registry p (current ∷ rest) registry)
              ≡ some (record current { stage = archived }))
            (sym same)
            (archived-after laws settings p registry target current rest found staged serving)))
        refl

  -- In a registry that behaves as documented: once a promotion has succeeded, a request for the version that it
  -- replaced, of the same model, is refused with the registry left as it is, as that version is not in Staging.
  pub replaced-refused :
      IsRegistry F R
      → (settings : Settings F) (p q : PromotionRequest) (registry registry' : R)
        (response : PromotionResponse)
      → promote settings p registry ≡ (ok response, registry')
      → response.previous_version ≡ some q.target_version
      → q.model_name ≡ p.model_name
      → promote settings q registry'
        ≡ (raised (http_exception 400 "Target version is not in Staging"), registry')
  replaced-refused laws settings p q registry registry' response promoted before same =
      elim (promote-gates settings p registry) [
        | inl (e, refused) ↦ ground (arith, ap (λ x. answer_of x.0) (sym promoted ∙ refused))
        | inr ((target, found, staged, auc, recall), gives) ↦
            let outcome = sym promoted ∙ gives in
            let version : some response.previous_version
                ≡ some (previous (g.latest_production p.model_name registry)) =
              ap (λ x. answer_of x.0) outcome in
            subst
              (λ r.
                promote settings q r
                ≡ (raised (http_exception 400 "Target version is not in Staging"), r))
              (sym (ap (λ x. x.1) outcome))
              (replaced_version-refused laws settings p q registry target _ found staged refl
                (ground (arith, version, before)) same)
      ]
