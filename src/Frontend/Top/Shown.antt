-- ===== src/Frontend/Top/Shown.antt =====
-- frontend/app.py, `top_drift_features`: what is shown of a report, and of a p-value of 0.
use mathlib.Core.List.{Perm}
use mathlib.Core.List.Perm
use drift_triage_co_pilot.Prelude.{
  ℕ, ◌+◌, min, ◌≡◌, refl, sym, ap, ◌∙◌, subst, Bool, true, false, ◌&&◌, List, [], ◌∷◌, ◌++◌, map,
  take, drop, length, length-take, length-map, length-append, map-append, take-append-drop,
  if◌then◌else◌, Bool-cases, inl, inr, arith,
}
use drift_triage_co_pilot.Prelude.Sorting.{sorted_by, sorted_by-perm, length-sorted_by}
use drift_triage_co_pilot.Floating.{Float, nought, one}
use drift_triage_co_pilot.Drift.Chi2.{Chi2Result}
use drift_triage_co_pilot.Drift.Report.{DriftReport}
use drift_triage_co_pilot.Frontend.Top.{
  TopFeature, Ranked, or_number, chi2_item, stays_before, psi_item, rank_of, chi_square,
  ranked_items, top_drift_features,
}

if-same : {A : Type 0} (b : Bool) (x : A) → (if b then x else x) ≡ x
if-same true x = refl
if-same false x = refl

module _ {F : Type 0} ⦃f : Float F⦄ where
  abbrev pub is_zero : F → Bool
  is_zero x = f.le x nought && f.le nought x

  -- The result with a p-value of 1 in place of 0, and the report with such results.
  abbrev pub without_zero : Chi2Result F → Chi2Result F
  without_zero r = record r { p_value = if is_zero r.p_value then one else r.p_value }

  abbrev pub without_zeros : DriftReport F → DriftReport F
  without_zeros report = record report { chi2_results = map without_zero report.chi2_results }

module _ {F : Type 0} ⦃f : Float F⦄ (round : F → ℕ → F) where
  or_number-without_zero :
      (x : F) → or_number round (if is_zero x then one else x) one ≡ or_number round x one
  or_number-without_zero x = elim (Bool-cases (is_zero x)) [
    | inl zero ↦ rw zero (if-same (f.le one nought && f.le nought one) one)
    | inr other ↦ rw other (rw other refl)
  ]

  chi2_item-without_zero : (r : Chi2Result F) → chi2_item round (without_zero r) ≡ chi2_item round r
  unfolding chi2_item
  chi2_item-without_zero r =
      ap
        (λ p. record {
          item = record {
            feature = r.feature;
            type = chi_square;
            value = round p 6;
            severity = r.severity;
          };
          rank = rank_of r.severity;
          number = f.sub one p;
        })
        (or_number-without_zero r.p_value)

  map-without_zero :
      (rs : List (Chi2Result F))
      → map (chi2_item round) (map without_zero rs) ≡ map (chi2_item round) rs
  map-without_zero [] = refl
  map-without_zero (r ∷ rs) = cc (chi2_item-without_zero r, map-without_zero rs)

  ranked_items-without_zeros :
      (report : DriftReport F)
      → ranked_items round (without_zeros report) ≡ ranked_items round report
  unfolding ranked_items
  ranked_items-without_zeros report =
      ap (λ items. map (psi_item round) report.psi_results ++ items)
        (map-without_zero report.chi2_results)

  rejoin :
      (n : ℕ) (items : List (Ranked F))
      → map (λ r. r.item) (take n items) ++ map (λ r. r.item) (drop n items)
        ≡ map (λ r. r.item) items
  rejoin n items =
      sym (map-append (λ r. r.item) (take n items) (drop n items))
      ∙ ap (map (λ r. r.item)) (take-append-drop n items)

  length-ranked_items :
      (report : DriftReport F)
      → length (ranked_items round report) ≡ length report.psi_results + length report.chi2_results
  unfolding ranked_items
  length-ranked_items report = omega (
    arith,
    length-append (map (psi_item round) report.psi_results)
        (map (chi2_item round) report.chi2_results),
    length-map (psi_item round) report.psi_results,
    length-map (chi2_item round) report.chi2_results,
  )

  -- Whatever the report and the limit: as many features are shown as there are, up to the limit, and together with
  -- those left out they are a rearrangement of the features of the report. A p-value of 0 counts as 1: they are the
  -- features that are shown of the report with 1 in place of each p-value of 0.
  pub top_drift_features-without_zeros :
      (report : DriftReport F) (limit : ℕ)
      → (rest : List (TopFeature F)) × Perm
          (top_drift_features round report limit ++ rest)
          (map (λ r. r.item) (ranked_items round report))
        × (length (top_drift_features round report limit)
            ≡ min limit (length report.psi_results + length report.chi2_results))
        × (top_drift_features round report limit
            ≡ top_drift_features round (without_zeros report) limit)
  unfolding top_drift_features
  top_drift_features-without_zeros report limit =
      let all = sorted_by (stays_before round) (ranked_items round report) in
      (
        map (λ r. r.item) (drop limit all),
        subst (λ l. Perm l (map (λ r. r.item) (ranked_items round report))) (sym (rejoin limit all))
            (Perm.map (λ r. r.item)
              (sorted_by-perm (stays_before round) (ranked_items round report))),
        omega (
          arith,
          length-map (λ (r : Ranked F). r.item) (take limit all),
          length-take limit all,
          length-sorted_by (stays_before round) (ranked_items round report),
          length-ranked_items report,
        ),
        ap (λ items. map (λ r. r.item) (take limit (sorted_by (stays_before round) items)))
            (sym (ranked_items-without_zeros report)),
      )
