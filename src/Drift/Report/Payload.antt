-- ===== src/Drift/Report/Payload.antt =====
-- backend/src/drift/severity.py: the payload of the webhook, its top features and its contract.
use mathlib.Core.List.{Perm, map, map-map}
use drift_triage_co_pilot.Prelude.{
  ℕ, ◌≤◌, ◌≡◌, refl, Bool, true, false, ◌&&◌, String, truthy, truthy-append, List, [], ◌∷◌, ◌++◌,
  take, drop, take-append-drop, length, min, length-take, All, All-append, All-map, All-take,
  all_of-All, arith, Option, ok, subst, sym, leb,
}
use drift_triage_co_pilot.Prelude.Sorting.{
  sorted_by, sorted_by-perm, IsSortedBy, sorted_by-IsSortedBy, sorted_by-All, length-sorted_by,
}
use drift_triage_co_pilot.Floating.{Float, ◌≼◌, nought, one}
use drift_triage_co_pilot.Floating.Laws.{IsOrdered}
use drift_triage_co_pilot.Drift.Severity.{Severity}
use drift_triage_co_pilot.Drift.Chi2.{Chi2Result}
use drift_triage_co_pilot.Drift.Report.{
  DriftReport, DriftWebhookPayload, WebhookPsiResult, WebhookChi2Result, WebhookTopFeature,
  feature_summaries, ranks_before, top_features, satisfies_contract, webhook_fields,
  report_to_webhook, summary_text,
}

leb_of : (v : ℕ) → 1 ≤ v → leb 1 v ≡ true
leb_of v h = ground arith

-- Of a list in order, each element of the first part may stand before each of the second.
parts_in_order :
    {A : Type 0} (before : A → A → Bool) (xs ys : List A)
    → IsSortedBy before (xs ++ ys)
    → All (λ x. All (λ y. before x y ≡ true) ys) xs
parts_in_order before [] ys s = tt
parts_in_order before (x ∷ xs) ys s = (right xs s.0, parts_in_order before xs ys s.1)
  where
    right :
        (xs : List _) → All (λ y. before x y ≡ true) (xs ++ ys) → All (λ y. before x y ≡ true) ys
    right [] h = h
    right (x' ∷ xs) h = right xs h.1

module _ {F : Type 0} ⦃f : Float F⦄ where
  -- What pydantic has checked of the results that a report holds.
  pub record IsValidated (r : DriftReport F) : Type 0 where
    pub psi_nonneg : All (λ p. nought ≼ p.psi) r.psi_results
    pub statistic_nonneg : All (λ c. nought ≼ c.statistic) r.chi2_results
    pub p_value_nonneg : All (λ c. nought ≼ c.p_value) r.chi2_results
    pub p_value-le-one : All (λ c. c.p_value ≼ one) r.chi2_results
    pub output_nonneg : nought ≼ r.output_drift.psi

  chi2_valid :
      (cs : List (Chi2Result F))
      → All (λ c. nought ≼ c.statistic) cs
      → All (λ c. nought ≼ c.p_value) cs
      → All (λ c. c.p_value ≼ one) cs
      → All
          (λ c. (f.le nought c.statistic && (f.le nought c.p_value && f.le c.p_value one)) ≡ true)
          cs
  chi2_valid [] a b c = tt
  chi2_valid (x ∷ xs) a b c = (rw (a.0, b.0, c.0) refl, chi2_valid xs a.1 b.1 c.1)

  -- The payload has the results of the report's tests: each feature with its values and its severity, in order.
  pub record SameTests (r : DriftReport F) (p : DriftWebhookPayload F) : Type 0 where
    pub psi :
        map {B = String × (F × Severity)} (λ q. (q.feature, (q.psi, q.severity))) p.psi_results
        ≡ map {B = String × (F × Severity)} (λ q. (q.feature, (q.psi, q.severity))) r.psi_results
    pub chi2 :
        map {B = String × (F × (F × Severity))}
          (λ q. (q.feature, (q.statistic, (q.p_value, q.severity))))
          p.chi2_results
        ≡ map {B = String × (F × (F × Severity))}
            (λ q. (q.feature, (q.statistic, (q.p_value, q.severity))))
            r.chi2_results
    pub output :
        (p.output_drift.psi ≡ r.output_drift.psi)
        × (p.output_drift.severity ≡ r.output_drift.severity)

  webhook_fields_copies :
      (event_id : String) (r : DriftReport F) (previous : Option Severity)
      → let p = webhook_fields event_id r previous in
        (p.severity ≡ r.severity)
        × (p.previous_severity ≡ previous)
        × (p.report_id ≡ r.report_id)
        × (p.top_features ≡ top_features r)
        × (p.window_size ≡ r.window_size)
        × SameTests r p
  unfolding webhook_fields
  webhook_fields_copies event_id r previous = (
    refl,
    refl,
    refl,
    refl,
    refl,
    record {
      psi = map-map _ _ r.psi_results;
      chi2 = map-map _ _ r.chi2_results;
      output = (refl, refl);
    },
  )

  abbrev psi_passes : WebhookPsiResult F → Bool
  psi_passes q = f.le nought q.psi

  abbrev chi2_passes : WebhookChi2Result F → Bool
  chi2_passes q = f.le nought q.statistic && (f.le nought q.p_value && f.le q.p_value one)

  abbrev HasValue : WebhookTopFeature F → Type 0
  HasValue t = nought ≼ t.value

  feature_summaries-HasValue :
      (r : DriftReport F) → IsValidated r → All HasValue (feature_summaries r)
  unfolding feature_summaries
  feature_summaries-HasValue r v =
      All-append HasValue _ _ (All-map HasValue _ r.psi_results v.psi_nonneg)
        (All-map HasValue _ r.chi2_results v.statistic_nonneg)

  module _ (o : IsOrdered F) where
    ranks_before-total :
        (x y : WebhookTopFeature F)
        → HasValue x
        → HasValue y
        → ranks_before x y ≡ false
        → ranks_before y x ≡ true
    unfolding ranks_before
    ranks_before-total x y hx hy h =
        ground (arith, o.lt-le x.value y.value, o.not-lt_of_le x.value y.value)

    ranks_before_trans :
        (x y z : WebhookTopFeature F)
        → HasValue x
        → HasValue y
        → HasValue z
        → ranks_before x y ≡ true
        → ranks_before y z ≡ true
        → ranks_before x z ≡ true
    unfolding ranks_before
    ranks_before_trans x y z hx hy hz h k = ground (
      arith,
      o.le_of_not_lt x.value y.value hx hy,
      o.le_of_not_lt y.value z.value hy hz,
      o.le_trans z.value y.value x.value,
      o.not-lt_of_le z.value x.value,
    )

    -- The top features of a report are at most five, and as many as there are features up to five.
    -- Together with the features left out they are a rearrangement of the report's features, they
    -- stand in descending order, and none of those left out ranks above one of them.
    pub top_features-greatest :
        (r : DriftReport F)
        → IsValidated r
        → (rest : List (WebhookTopFeature F)) × Perm (top_features r ++ rest) (feature_summaries r)
          × (length (top_features r) ≡ min 5 (length (feature_summaries r)))
          × IsSortedBy ranks_before (top_features r ++ rest)
          × All (λ t. All (λ u. ranks_before t u ≡ true) rest) (top_features r)
    unfolding top_features
    top_features-greatest r v =
        let all = sorted_by ranks_before (feature_summaries r) in
        let split = take-append-drop 5 all in
        let sorted =
          sorted_by-IsSortedBy ranks_before HasValue ranks_before-total ranks_before_trans
            (feature_summaries r) (feature_summaries-HasValue r v) in
        (
          drop 5 all,
          subst (λ l. Perm l (feature_summaries r)) (sym split) (sorted_by-perm ranks_before _),
          omega (arith, length-take 5 all, length-sorted_by ranks_before (feature_summaries r)),
          subst (IsSortedBy ranks_before) (sym split) sorted,
          parts_in_order ranks_before (take 5 all) (drop 5 all)
              (subst (IsSortedBy ranks_before) (sym split) sorted),
        )

    top_features-HasValue : (r : DriftReport F) → IsValidated r → All HasValue (top_features r)
    unfolding top_features
    top_features-HasValue r v = All-take HasValue 5 _ (
        sorted_by-All ranks_before HasValue ranks_before-total ranks_before_trans
          (feature_summaries r) (feature_summaries-HasValue r v))

    summary_text-truthy :
        (r : DriftReport F) (previous : Option Severity) → truthy (summary_text r previous) ≡ true
    unfolding summary_text
    summary_text-truthy r previous = truthy-append "Drift severity changed from " _ refl

    webhook_fields-satisfies_contract :
        (event_id : String) (r : DriftReport F) (previous : Option Severity)
        → truthy event_id ≡ true
        → truthy r.report_id ≡ true
        → truthy r.model_name ≡ true
        → 1 ≤ r.model_version
        → IsValidated r
        → satisfies_contract (webhook_fields event_id r previous) ≡ true
    unfolding satisfies_contract webhook_fields
    webhook_fields-satisfies_contract event_id r previous he hr hm hv v =
        rw
          (
            he,
            hr,
            hm,
            leb_of r.model_version hv,
            summary_text-truthy r previous,
            all_of-All _ _ (top_features-HasValue r v),
            all_of-All psi_passes _
                (All-map (λ q. psi_passes q ≡ true) _ r.psi_results v.psi_nonneg),
            all_of-All chi2_passes _ (
                All-map (λ q. chi2_passes q ≡ true) _ r.chi2_results
                  (chi2_valid r.chi2_results v.statistic_nonneg v.p_value_nonneg v.p_value-le-one)),
            v.output_nonneg,
          )
          refl

    -- A report of validated results with identifiers and a version from 1 on passes the contract: the
    -- payload is built, and carries the report's identifier, its severity and the previous one, its top
    -- features, its window, and the results of all its tests.
    pub report_to_webhook-valid :
        (event_id : String) (r : DriftReport F) (previous : Option Severity)
        → truthy event_id ≡ true
        → truthy r.report_id ≡ true
        → truthy r.model_name ≡ true
        → 1 ≤ r.model_version
        → IsValidated r
        → (p : DriftWebhookPayload F) × (report_to_webhook event_id r previous ≡ ok p)
          × (p.severity ≡ r.severity)
          × (p.previous_severity ≡ previous)
          × (p.report_id ≡ r.report_id)
          × (p.top_features ≡ top_features r)
          × (p.window_size ≡ r.window_size)
          × SameTests r p
    unfolding report_to_webhook
    report_to_webhook-valid event_id r previous he hr hm hv v =
        let (e, p, i, t, w, tests) = webhook_fields_copies event_id r previous in
        (
          webhook_fields event_id r previous,
          rw (webhook_fields-satisfies_contract event_id r previous he hr hm hv v) refl,
          e,
          p,
          i,
          t,
          w,
          tests,
        )
