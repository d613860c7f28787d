-- ===== src/Drift/Chi2/Bounds.antt =====
-- backend/src/drift/chi2.py: bounds of the statistic and of the p-value.
use mathlib.Core.Option
use drift_triage_co_pilot.Prelude.{
  ℕ, ◌≤◌, ◌≡◌, inl, inr, refl, true, String, List, [], ◌∷◌, map, arith, length, Option, All,
  Bool-cases, ok, ◌==◌, string_eq,
}
use drift_triage_co_pilot.Floating.{Float, Numpy, ◌≼◌, nought, one}
use drift_triage_co_pilot.Floating.Laws.{IsOrdered, IsSigned, IsNumpy}
use drift_triage_co_pilot.Settings.{Settings}
use drift_triage_co_pilot.Drift.Severity.{severity_order}
use drift_triage_co_pilot.Drift.Psi.{zip_with}
use drift_triage_co_pilot.Drift.Chi2.{
  Chi2Result, get_freq, count_of, chi2_severity, floor_expected, chi2_term, expected_count,
  chi2_statistic, chi2_fields, chi2_result,
}

module _ {F : Type 0} ⦃f : Float F⦄ (o : IsOrdered F) where
  -- At one significance level, a greater p-value never gets a higher severity.
  pub chi2_severity_antitone :
      (alpha x y : F)
      → x ≼ y
      → severity_order (chi2_severity y alpha) ≤ severity_order (chi2_severity x alpha)
  unfolding chi2_severity
  chi2_severity_antitone alpha x y h =
      ground (arith, o.le-lt_trans x y (f.literal 1 2) h, o.le-lt_trans x y alpha h)

module _ {F : Type 0} ⦃f : Float F⦄ (o : IsOrdered F) (sg : IsSigned F) where
  floor_expected-pos : (e : F) → nought ≼ e → f.lt nought (floor_expected e) ≡ true
  floor_expected-pos e h = elim (Bool-cases (f.lt e (f.literal 1 8))) [
    | inl small ↦ rw small (sg.epsilon_pos 8 refl)
    | inr enough ↦ rw enough (
        o.lt-le_trans nought (f.literal 1 8) e (sg.epsilon_pos 8 refl)
          (o.le_of_not_lt e (f.literal 1 8) h (o.nought_le 1 8) enough))
  ]

  get_freq-nonneg :
      (cat : String) (freqs : List (String × F))
      → All (λ e. nought ≼ e.1) freqs
      → nought ≼ get_freq cat (f.literal 1 8) freqs
  get_freq-nonneg cat [] h = o.nought_le 1 8
  get_freq-nonneg cat ((k, v) ∷ d) h = elim (Bool-cases (k == cat)) [
    | inl same ↦ rw same h.0
    | inr other ↦ rw other (get_freq-nonneg cat d h.1)
  ]

  chi2_terms-nonneg :
      (freqs : List (String × F)) (n : ℕ) (current : List String) (cats : List String)
      → All (λ e. nought ≼ e.1) freqs
      → All
          (λ x. nought ≼ x)
          (zip_with chi2_term
            (map (λ cat. f.literal (count_of cat current) 0) cats)
            (map (expected_count freqs n) cats))
  unfolding zip_with chi2_term expected_count
  chi2_terms-nonneg freqs n current [] h = tt
  chi2_terms-nonneg freqs n current (cat ∷ cats) h = (
    sg.div_nonneg _ _ (sg.square_nonneg _)
        (floor_expected-pos _ (sg.mul_nonneg _ _ (get_freq-nonneg cat freqs h) (o.nought_le n 0))),
    chi2_terms-nonneg freqs n current cats h,
  )

module _ {F : Type 0} ⦃f : Float F⦄ (np : Numpy F) (o : IsOrdered F) (sg : IsSigned F)
    (n : IsNumpy F np) where
  chi2_statistic-nonneg :
      (freqs : List (String × F)) (current : List String)
      → All (λ e. nought ≼ e.1) freqs
      → nought ≼ chi2_statistic np freqs current
  unfolding chi2_statistic
  chi2_statistic-nonneg freqs current h =
      n.sum_nonneg _ (chi2_terms-nonneg o sg freqs (length current) current _ h)

  -- With reference shares that are not negative the validated result is built for every window, an
  -- empty one included: the statistic is not negative, the p-value lies in [0, 1], and the severity is
  -- that of the p-value at the given level, or at the configured one where none is given.
  pub chi2_result_total :
      (settings : Settings F) (feature : String) (freqs : List (String × F)) (current : List String)
      (alpha : Option F)
      → All (λ e. nought ≼ e.1) freqs
      → (r : Chi2Result F) × (chi2_result np settings feature freqs current alpha ≡ ok r)
        × (nought ≼ r.statistic)
        × (nought ≼ r.p_value)
        × (r.p_value ≼ one)
        × (r.severity ≡ chi2_severity r.p_value (Option.get_or alpha settings.drift_chi2_alpha))
        × (r.current_n ≡ length current)
  unfolding chi2_result chi2_fields
  chi2_result_total settings feature freqs current alpha h =
      let r =
        chi2_fields np feature freqs current (Option.get_or alpha settings.drift_chi2_alpha) in
      let stat = chi2_statistic-nonneg freqs current h in
      let low = n.cdf_nonneg r.statistic r.dof in
      let high = n.cdf-le-one r.statistic r.dof in
      let p_low = sg.sub_nonneg _ one high in
      let p_high = sg.sub_le _ one low (o.nought_le 1 0) high in
      (r, rw (stat, p_low, p_high) refl, stat, p_low, p_high, refl, refl)
