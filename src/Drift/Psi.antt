-- ===== src/Drift/Psi.antt =====
-- backend/src/drift/psi.py. The quantiles and the histogram are those of `numpy`.
pub mod Bounds
use drift_triage_co_pilot.Prelude.{
  ℕ, ◌+◌, ◌≤◌, ◌≡◌, ◌⊎◌, inl, inr, refl, Bool, true, false, ◌||◌, String, List, [], ◌∷◌, map, arith,
  ◌==◌, nat_eq, length, if◌then◌else◌, All, Bool-cases, Result, ok, raised, Exception, value_error,
  validation_error, ◌>>=◌, ◌>>◌, raise_if, ◌++◌,
}
use drift_triage_co_pilot.Floating.{Float, Numpy, ◌≼◌, nought, one}
use drift_triage_co_pilot.Floating.Laws.{IsOrdered, IsSigned, IsNumpy}
use drift_triage_co_pilot.Drift.Severity.{Severity, low, medium, high, severity_order}

pub record PsiResult (F : Type 0) : Type 0 where
  pub feature : String
  pub psi : F
  pub severity : Severity
  pub reference_n : ℕ
  pub current_n : ℕ

-- `a[0] = first; a[-1] = last`; numpy raises IndexError on an empty array, which has no first place.
set_last : {A : Type 0} → A → List A → List A
set_last v [] = []
set_last v (x ∷ []) = v ∷ []
set_last v (x ∷ y ∷ r) = x ∷ set_last v (y ∷ r)

unfoldable pub set_ends : {A : Type 0} → A → A → List A → List A
unfolding set_last
set_ends first last [] = []
set_ends first last (x ∷ r) = set_last last (first ∷ r)

-- Elementwise operations of two vectors of one length.
unfoldable pub zip_with : {A B C : Type 0} → (A → B → C) → List A → List B → List C
zip_with g [] ys = []
zip_with g (x ∷ xs) [] = []
zip_with g (x ∷ xs) (y ∷ ys) = g x y ∷ zip_with g xs ys

abbrev pub total : List ℕ → ℕ
total [] = 0
total (x ∷ xs) = x + total xs

module _ {F : Type 0} ⦃f : Float F⦄ where
  abbrev pub psi_warn : F
  psi_warn = f.literal 1 1

  abbrev pub psi_high : F
  psi_high = f.literal 25 2

  unfoldable pub psi_severity : F → Severity
  psi_severity psi = if f.le psi_high psi then high else if f.le psi_warn psi then medium else low

  -- `counts / (counts.sum() + epsilon) + epsilon`
  unfoldable pub percentages : F → List ℕ → List F
  percentages epsilon counts =
      map (λ c. f.add (f.div (f.literal c 0) (f.add (f.literal (total counts) 0) epsilon)) epsilon)
        counts

  -- `(cur_pct - ref_pct) * np.log(cur_pct / ref_pct)`
  unfoldable pub psi_term : F → F → F
  psi_term cur ref = f.mul (f.sub cur ref) (f.log (f.div cur ref))

module _ {F : Type 0} ⦃f : Float F⦄ (np : Numpy F) where
  -- What follows the guard: the index over the reference's quantile bins.
  unfoldable pub psi_value : List F → List F → ℕ → F → F
  unfolding set_ends percentages psi_term zip_with
  psi_value reference current bins epsilon =
      let quantiles = np.nanquantile reference (np.linspace nought one (bins + 1)) in
      let breakpoints = set_ends np.negative_infinity np.infinity quantiles in
      let ref_counts = np.histogram (np.dropna reference) breakpoints in
      let cur_counts = np.histogram (np.dropna current) breakpoints in
      np.sum (zip_with psi_term (percentages epsilon cur_counts) (percentages epsilon ref_counts))

  unfoldable pub compute_psi : List F → List F → ℕ → F → Result F
  compute_psi reference current bins epsilon = do
    raise_if (length reference == 0 || length current == 0)
        (value_error "reference and current must be non-empty")
    ok (psi_value reference current bins epsilon)

  -- `PSIResult(...)`, whose field `psi` is validated by `ge=0.0`.
  unfoldable pub psi_result : String → List F → List F → ℕ → Result (PsiResult F)
  unfolding psi_severity
  psi_result feature reference current bins = do
    psi ← compute_psi reference current bins (f.literal 1 8)
    if f.le nought psi
        then ok (record {
          feature = feature;
          psi = psi;
          severity = psi_severity psi;
          reference_n = length reference;
          current_n = length current;
        })
        else raised (validation_error "psi: Input should be greater than or equal to 0")
