-- ===== src/Drift/Chi2.antt =====
-- backend/src/drift/chi2.py. The reference frequencies are a dict from category to share; the window
-- is the column of its categories. `scipy` gives the distribution.
pub mod Bounds
use Prim.Native.String.{compare}
use Prim.Native.Nat.{Ordering}
use mathlib.Core.Option
use drift_triage_co_pilot.Prelude.{
  ℕ, ◌+◌, ◌-◌, max, ◌≡◌, refl, Bool, true, false, String, List, [], ◌∷◌, map, arith, ◌==◌,
  string_eq, length, if◌then◌else◌, Option, none, some, Result, ok, raised, validation_error, ◌&&◌,
  ◌>>=◌,
}
use drift_triage_co_pilot.Prelude.Sorting.{sorted_by}
use drift_triage_co_pilot.Floating.{Float, Numpy, ◌≼◌, nought, one}
use drift_triage_co_pilot.Settings.{Settings}
use drift_triage_co_pilot.Drift.Severity.{Severity, low, medium, high}
use drift_triage_co_pilot.Drift.Psi.{zip_with}

pub record Chi2Result (F : Type 0) : Type 0 where
  pub feature : String
  pub statistic : F
  pub p_value : F
  pub dof : ℕ
  pub severity : Severity
  pub reference_n : ℕ
  pub current_n : ℕ

-- `value_counts().get(cat, 0)`
abbrev pub count_of : String → List String → ℕ
count_of cat [] = 0
count_of cat (x ∷ xs) = (if x == cat then 1 else 0) + count_of cat xs

-- `freqs.get(cat, default)`
abbrev pub get_freq : {F : Type 0} → String → F → List (String × F) → F
get_freq cat default [] = default
get_freq cat default ((k, v) ∷ d) =
    let rest = get_freq cat default d in if k == cat then v else rest

-- `sorted(keys)`
abbrev text_before : String → String → Bool
text_before a b = elim (compare a b) [ Ordering.gt ↦ false | _ ↦ true ]

module _ {F : Type 0} ⦃f : Float F⦄ where
  unfoldable pub chi2_severity : F → F → Severity
  chi2_severity p_value alpha =
      if f.lt p_value (f.literal 1 2) then high else if f.lt p_value alpha then medium else low

  -- `np.where(expected < 1e-8, 1e-8, expected)`
  abbrev pub floor_expected : F → F
  floor_expected e = if f.lt e (f.literal 1 8) then f.literal 1 8 else e

  -- `(observed - expected) ** 2 / expected`
  unfoldable pub chi2_term : F → F → F
  chi2_term observed expected =
      f.div (f.mul (f.sub observed expected) (f.sub observed expected)) expected

  unfoldable pub expected_count : List (String × F) → ℕ → String → F
  expected_count freqs cur_total cat =
      floor_expected (f.mul (get_freq cat (f.literal 1 8) freqs) (f.literal cur_total 0))

module _ {F : Type 0} ⦃f : Float F⦄ (np : Numpy F) where
  -- The statistic over the reference's categories, in order.
  unfoldable pub chi2_statistic : List (String × F) → List String → F
  unfolding chi2_term expected_count
  chi2_statistic freqs current =
      let all_cats = sorted_by text_before (map (λ e. e.0) freqs) in
      np.sum (
        zip_with chi2_term (map (λ cat. f.literal (count_of cat current) 0) all_cats)
          (map (expected_count freqs (length current)) all_cats))

  -- The fields of the result, before `Chi2Result` validates them.
  unfoldable pub chi2_fields : String → List (String × F) → List String → F → Chi2Result F
  unfolding chi2_severity
  chi2_fields feature reference_freqs current alpha =
      let chi2_stat = chi2_statistic reference_freqs current in
      let dof = max (length (map (λ e. e.0) reference_freqs) - 1) 1 in
      let p_value = f.sub one (np.chi2_cdf chi2_stat dof) in
      record {
        feature = feature;
        statistic = chi2_stat;
        p_value = p_value;
        dof = dof;
        severity = chi2_severity p_value alpha;
        reference_n =
            f.to_int
              (f.mul (np.sum (map (λ e. e.1) reference_freqs)) (f.literal (length current) 0));
        current_n = length current;
      }

  -- The default of `alpha` is the configured one. `Chi2Result(...)` validates `statistic` by `ge=0.0`
  -- and `p_value` by `ge=0.0, le=1.0`.
  unfoldable pub chi2_result :
      Settings F → String → List (String × F) → List String → Option F → Result (Chi2Result F)
  chi2_result settings feature reference_freqs current alpha =
      let r =
        chi2_fields feature reference_freqs current
          (Option.get_or alpha settings.drift_chi2_alpha) in
      if f.le nought r.statistic && (f.le nought r.p_value && f.le r.p_value one)
      then ok r
      else raised (validation_error "Chi2Result")
