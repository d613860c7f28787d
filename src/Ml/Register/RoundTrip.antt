-- ===== src/Ml/Register/RoundTrip.antt =====
-- backend/src/ml/register.py: what is registered and what is loaded, while nothing is in Production.
use drift_triage_co_pilot.Prelude.{
  ℕ, ◌≡◌, refl, sym, ap, ◌∙◌, subst, String, ◌==◌, string_eq, false, Option, some, List, [], ◌∷◌,
  ok,
}
use drift_triage_co_pilot.Floating.{Float}
use drift_triage_co_pilot.Service.Promotion.{Stage, staging, production}
use drift_triage_co_pilot.Ml.Register.{
  registered_name, VersionInfo, Mlflow, latest_of, Trained, tag_version, stage_latest,
  register_model, answering, serving_versions, threshold_tag, load_from, load_model,
}

-- What MLflow documents of the calls. `Holds name v p r` says that version `v` of the name has the pipeline `p`.
pub record IsMlflow {P R : Type 0} (ml : Mlflow P R) : Type 1 where
  pub Holds : String → ℕ → P → R → Type 0
  pub logged :
      (name key value : String) (p : P) (r : R)
      → (v : ℕ) × (vs : List ℕ) × (ml.search_model_versions name (ml.log_model name p key value r)
          ≡ v ∷ vs)
        × Holds name (latest_of v vs) p (ml.log_model name p key value r)
  pub logged_production :
      (name key value : String) (p : P) (r : R)
      → ml.get_latest_versions name production r ≡ some []
      → ml.get_latest_versions name production (ml.log_model name p key value r) ≡ some []
  pub staged :
      (name : String) (v : ℕ) (p : P) (r : R)
      → Holds name v p r
      → (vi : VersionInfo) × (vi.version ≡ v)
        × (ml.get_latest_versions name staging (ml.transition_to_staging name v r) ≡ some (vi ∷ []))
        × (ml.load_pipeline vi.source (ml.transition_to_staging name v r) ≡ p)
  pub staged_production :
      (name : String) (v : ℕ) (r : R)
      → ml.get_latest_versions name production r ≡ some []
      → ml.get_latest_versions name production (ml.transition_to_staging name v r) ≡ some []
  pub tagged :
      (name key value : String) (v : ℕ) (r : R)
      → ml.version_tag name v key (ml.set_model_version_tag name v key value r) ≡ some value
  pub tagged_other :
      (name key other value : String) (v : ℕ) (r : R)
      → (key == other) ≡ false
      → ml.version_tag name v other (ml.set_model_version_tag name v key value r)
        ≡ ml.version_tag name v other r
  pub tagged_versions :
      (name key value : String) (v : ℕ) (stage : Stage) (r : R)
      → ml.get_latest_versions name stage (ml.set_model_version_tag name v key value r)
        ≡ ml.get_latest_versions name stage r
  pub tagged_pipeline :
      (name key value source : String) (v : ℕ) (r : R)
      → ml.load_pipeline source (ml.set_model_version_tag name v key value r)
        ≡ ml.load_pipeline source r

module _ {F P R : Type 0} ⦃f : Float F⦄ (ml : Mlflow P R) (laws : IsMlflow ml) where
  tag_version-versions :
      (result : Trained F P) (threshold : F) (v : ℕ) (stage : Stage) (r : R)
      → ml.get_latest_versions registered_name stage (tag_version ml result threshold v r)
        ≡ ml.get_latest_versions registered_name stage r
  unfolding tag_version
  tag_version-versions result threshold v stage r =
      laws.tagged_versions _ _ _ v stage _
      ∙ laws.tagged_versions _ _ _ v stage _
      ∙ laws.tagged_versions _ _ _ v stage r

  tag_version-pipeline :
      (result : Trained F P) (threshold : F) (v : ℕ) (source : String) (r : R)
      → ml.load_pipeline source (tag_version ml result threshold v r) ≡ ml.load_pipeline source r
  unfolding tag_version
  tag_version-pipeline result threshold v source r =
      laws.tagged_pipeline _ _ _ source v _
      ∙ laws.tagged_pipeline _ _ _ source v _
      ∙ laws.tagged_pipeline _ _ _ source v r

  tag_version-threshold :
      (result : Trained F P) (threshold : F) (v : ℕ) (r : R)
      → ml.version_tag registered_name v "operating_threshold" (tag_version ml result threshold v r)
        ≡ some (f.str threshold)
  unfolding tag_version
  tag_version-threshold result threshold v r =
      laws.tagged_other registered_name "recall" "operating_threshold" _ v _ refl
      ∙ laws.tagged_other registered_name "auc" "operating_threshold" _ v _ refl
      ∙ laws.tagged registered_name "operating_threshold" _ v r

  load_of :
      (float_of : String → Option F) (vi : VersionInfo) (p : P) (threshold : F) (r : R)
      → float_of (f.str threshold) ≡ some threshold
      → ml.get_latest_versions registered_name production r ≡ some []
      → ml.get_latest_versions registered_name staging r ≡ some (vi ∷ [])
      → ml.version_tag registered_name vi.version "operating_threshold" r ≡ some (f.str threshold)
      → ml.load_pipeline vi.source r ≡ p
      → load_model ml float_of registered_name r ≡ ok (p, threshold)
  unfolding load_model serving_versions load_from threshold_tag
  load_of float_of vi p threshold r exact unserved found tag source =
      let serving : serving_versions ml registered_name r ≡ vi ∷ [] =
        rw (unserved, serving_versions) (rw (found, serving_versions) refl) in
      let text : threshold_tag ml registered_name vi r ≡ some (f.str threshold) =
        rw (tag, threshold_tag) refl in
      rw (serving, load_model)
        (rw (text, load_from) (rw (exact, load_from) (ap (λ q. ok (q, threshold)) source)))

  -- In a store that behaves as MLflow documents, with no version in Production: after a training is registered, the
  -- service loads the trained pipeline with its threshold, if a float is read back from its text.
  pub load_model-register_model :
      (float_of : String → Option F) (result : Trained F P) (threshold : F) (r : R)
      → float_of (f.str threshold) ≡ some threshold
      → ml.get_latest_versions registered_name production r ≡ some []
      → (v : ℕ) × ((register_model ml answering result threshold r).0 ≡ ok v)
        × (load_model ml float_of registered_name (register_model ml answering result threshold r).1
            ≡ ok (result.pipeline, threshold))
  unfolding register_model stage_latest
  load_model-register_model float_of result threshold r exact unserved =
      let made =
        ml.log_model registered_name result.pipeline "operating_threshold" (f.str threshold) r in
      let (v, vs, listed, holds) =
        laws.logged registered_name "operating_threshold" (f.str threshold) result.pipeline r in
      let latest = latest_of v vs in
      let (vi, numbered, found, source) =
        laws.staged registered_name latest result.pipeline made holds in
      let moved = ml.transition_to_staging registered_name latest made in
      let done = tag_version ml result threshold latest moved in
      let registered : register_model ml answering result threshold r ≡ (ok latest, done) =
        rw (listed, register_model) refl in
      (
        latest,
        ap (λ d. d.0) registered,
        subst (λ d. load_model ml float_of registered_name d.1 ≡ ok (result.pipeline, threshold))
            (sym registered)
            (load_of float_of vi result.pipeline threshold done exact
              (tag_version-versions result threshold latest production moved
                ∙ laws.staged_production registered_name latest made (
                    laws.logged_production registered_name "operating_threshold" (f.str threshold)
                      result.pipeline r unserved))
              (tag_version-versions result threshold latest staging moved ∙ found)
              (subst
                (λ n.
                  ml.version_tag registered_name n "operating_threshold" done
                  ≡ some (f.str threshold))
                (sym numbered) (tag_version-threshold result threshold latest moved))
              (tag_version-pipeline result threshold latest vi.source moved ∙ source)),
      )
