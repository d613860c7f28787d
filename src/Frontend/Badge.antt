-- ===== src/Frontend/Badge.antt =====
-- frontend/app.py, lines 756-771: the eligibility badge, and the gates of backend/src/service/routers/promotion.py.
use drift_triage_co_pilot.Prelude.{
  ◌≡◌, refl, sym, ◌∙◌, inl, inr, Bool, true, false, not, ◌&&◌, truthy, Option, none, some, List, [],
  ◌∷◌, if◌then◌else◌, Result, ok, raised, Bool-cases, arith,
}
use drift_triage_co_pilot.Floating.{Float, ◌≼◌, nought}
use drift_triage_co_pilot.Floating.Laws.{IsOrdered}
use drift_triage_co_pilot.Settings.{Settings}
use drift_triage_co_pilot.Service.Promotion.{
  Registry, ModelVersion, PromotionRequest, is_staging, tag, auc_too_low, pass_gates,
}
use drift_triage_co_pilot.Service.Listing.{VersionSummary, version_info, fetch_registry}

pub data Badge : Type 0 where
  eligible below_recall auc_regression : Badge

abbrev pub is_eligible : Badge → Bool
is_eligible eligible = true
is_eligible other = false

abbrev pub is_ok : {A : Type 0} → Result A → Bool
is_ok (ok a) = true
is_ok (raised e) = false

module _ {F : Type 0} ⦃f : Float F⦄ where
  -- `(not prod) or (staging["auc"] >= prod["auc"])`
  abbrev pub auc_ok : VersionSummary F → Option (VersionSummary F) → Bool
  auc_ok staging none = true
  auc_ok staging (some prod) = f.le prod.auc staging.auc

  -- `staging["recall"] >= 0.75`
  abbrev pub recall_ok : VersionSummary F → Bool
  recall_ok staging = f.le (f.literal 75 2) staging.recall

  unfoldable pub badge : VersionSummary F → Option (VersionSummary F) → Badge
  badge staging prod =
      if recall_ok staging && auc_ok staging prod
      then eligible
      else if not (recall_ok staging)
      then below_recall
      else auc_regression

  -- The badge beside the first version of Staging, if there is one.
  unfoldable pub shown_badge : (in_production in_staging : List (ModelVersion F)) → Option Badge
  unfolding badge fetch_registry version_info
  shown_badge in_production in_staging =
      let registry = fetch_registry in_production in_staging in
      elim registry.staging [ none ↦ none | some v ↦ some (badge v registry.production) ]

  is_eligible-badge :
      (v : VersionSummary F) (prod : Option (VersionSummary F))
      → is_eligible (badge v prod) ≡ (recall_ok v && auc_ok v prod)
  unfolding badge
  is_eligible-badge v prod = elim (Bool-cases (recall_ok v && auc_ok v prod)) [
    | inl good ↦ rw (good, badge) refl
    | inr bad ↦ elim (Bool-cases (recall_ok v)) [
      | inl enough ↦ rw (bad, badge) (rw (enough, badge) refl)
      | inr low ↦ rw (bad, badge) (rw (low, badge) refl)
    ]
  ]

module _ {F : Type 0} ⦃f : Float F⦄ where
  -- Production has no version, or one whose AUC is a number that is not negative.
  abbrev pub HasAuc : List (ModelVersion F) → Type 0
  HasAuc [] = Unit
  HasAuc (v ∷ vs) = nought ≼ tag v.auc

  module _ (o : IsOrdered F) where
    not-lt : (x y : F) → nought ≼ x → nought ≼ y → not (f.lt x y) ≡ f.le y x
    not-lt x y hx hy = elim (Bool-cases (f.lt x y)) [
      | inr other ↦ rw other (rw (o.le_of_not_lt x y hx hy other) refl)
      | inl less ↦ elim (Bool-cases (f.le y x)) [
        | inr greater ↦ rw less (rw greater refl)
        | inl both ↦ ground (arith, less, o.not-lt_of_le y x both)
      ]
    ]

    auc_gate :
        (target : ModelVersion F) (versions : List (ModelVersion F))
        → nought ≼ tag target.auc
        → HasAuc versions
        → not (auc_too_low target versions)
          ≡ auc_ok
              (record {
                version = target.version;
                auc = tag target.auc;
                recall = tag target.recall;
                stage = target.stage;
              })
              (version_info versions)
    unfolding version_info
    auc_gate target [] ht hv = refl
    auc_gate target (v ∷ vs) ht hv = not-lt (tag target.auc) (tag v.auc) ht hv

module _ {F R : Type 0} ⦃f : Float F⦄ ⦃g : Registry F R⦄ where
  is_ok-pass_gates :
      (settings : Settings F) (p : PromotionRequest) (target : ModelVersion F) (registry : R)
      → is_staging target.stage ≡ true
      → truthy p.hil_approval_id ≡ true
      → is_ok (pass_gates settings p target registry).0 ≡ (
          not (f.lt (tag target.recall) settings.min_recall)
          && not (auc_too_low target (g.latest_production p.model_name registry)))
  unfolding pass_gates
  is_ok-pass_gates settings p target registry staged approved =
      elim (Bool-cases (auc_too_low target (g.latest_production p.model_name registry))) [
        | inl low ↦ elim (Bool-cases (f.lt (tag target.recall) settings.min_recall)) [
          | inl few ↦ rw (staged, low) (rw few refl)
          | inr enough ↦ rw (staged, low) (rw enough refl)
        ]
        | inr high ↦ elim (Bool-cases (f.lt (tag target.recall) settings.min_recall)) [
          | inl few ↦ rw (staged, high) (rw few refl)
          | inr enough ↦ rw (staged, high) (rw enough (rw approved refl))
        ]
      ]

  -- A version of Staging is shown as eligible, beside the Production version that the registry lists, exactly when
  -- the gates of a promotion with a recorded approval let it pass: under a configured minimum recall of 0.75, as
  -- the badge has, and with AUC and recall numbers that are not negative.
  pub badge-pass_gates :
      IsOrdered F
      → (settings : Settings F) (p : PromotionRequest) (target : ModelVersion F)
        (others : List (ModelVersion F)) (registry : R)
      → settings.min_recall ≡ f.literal 75 2
      → is_staging target.stage ≡ true
      → truthy p.hil_approval_id ≡ true
      → nought ≼ tag target.auc
      → nought ≼ tag target.recall
      → HasAuc (g.latest_production p.model_name registry)
      → (b : Badge) × (shown_badge (g.latest_production p.model_name registry) (target ∷ others)
          ≡ some b)
        × (is_eligible b ≡ is_ok (pass_gates settings p target registry).0)
  unfolding shown_badge fetch_registry version_info
  badge-pass_gates o settings p target others registry least staged approved auc recall versions =
      let v : VersionSummary F = record {
        version = target.version;
        auc = tag target.auc;
        recall = tag target.recall;
        stage = target.stage;
      } in
      let prod = version_info (g.latest_production p.model_name registry) in
      let recall_gate : recall_ok v ≡ not (f.lt (tag target.recall) settings.min_recall) =
        rw least (sym (not-lt o (tag target.recall) (f.literal 75 2) recall (o.nought_le 75 2))) in
      (
        badge v prod,
        refl,
        is_eligible-badge v prod
            ∙ cc (
              recall_gate,
              sym (auc_gate o target (g.latest_production p.model_name registry) auc versions),
            )
            ∙ sym (is_ok-pass_gates settings p target registry staged approved),
      )
