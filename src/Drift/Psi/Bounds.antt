-- ===== src/Drift/Psi/Bounds.antt =====
-- backend/src/drift/psi.py: bounds of the stability index, and its severity.
use drift_triage_co_pilot.Prelude.{
  ℕ, ◌<◌, ◌≤◌, ◌≡◌, inl, inr, refl, true, String, List, [], ◌∷◌, arith, length, All, ok, map,
}
use drift_triage_co_pilot.Floating.{Float, Numpy, ◌≼◌, nought}
use drift_triage_co_pilot.Floating.Laws.{IsOrdered, IsSigned, IsNumpy}
use drift_triage_co_pilot.Drift.Severity.{severity_order}
use drift_triage_co_pilot.Drift.Psi.{
  PsiResult, zip_with, psi_warn, psi_high, psi_severity, percentages, psi_term, psi_value,
  compute_psi, psi_result, total,
}

module _ {F : Type 0} ⦃f : Float F⦄ (o : IsOrdered F) where
  -- A greater index never gets a lower severity.
  pub psi_severity_mono :
      (x y : F) → x ≼ y → severity_order (psi_severity x) ≤ severity_order (psi_severity y)
  unfolding psi_severity
  psi_severity_mono x y h = ground (
    arith,
    o.le_trans psi_high x y,
    o.le_trans psi_warn x y,
    o.le_trans psi_warn psi_high y,
    o.tenth_le_quarter,
  )

module _ {F : Type 0} ⦃f : Float F⦄ (o : IsOrdered F) (sg : IsSigned F) where
  -- The difference and the logarithm of the quotient have one sign.
  psi_term-nonneg :
      (cur ref : F) → f.lt nought cur ≡ true → f.lt nought ref ≡ true → nought ≼ psi_term cur ref
  unfolding psi_term
  psi_term-nonneg cur ref pc pr = elim (sg.pos_total cur ref pc pr) [
    | inl less ↦ sg.mul_nonpos _ _ (sg.sub_nonpos cur ref less) (
        sg.log_nonpos _ (sg.div_nonneg cur ref (o.lt-le nought cur pc) pr)
          (sg.div_le_one cur ref pr less))
    | inr more ↦
        sg.mul_nonneg _ _ (sg.sub_nonneg ref cur more)
          (sg.log_nonneg _ (sg.one_le_div ref cur pr more))
  ]

  abbrev IsPositive : F → Type 0
  IsPositive x = f.lt nought x ≡ true

  zip_with-psi_term :
      (cur ref : List F)
      → All IsPositive cur
      → All IsPositive ref
      → All (λ x. nought ≼ x) (zip_with psi_term cur ref)
  unfolding zip_with
  zip_with-psi_term [] ref hc hr = tt
  zip_with-psi_term (c ∷ cs) [] hc hr = tt
  zip_with-psi_term (c ∷ cs) (r ∷ rs) hc hr =
      (psi_term-nonneg c r hc.0 hr.0, zip_with-psi_term cs rs hc.1 hr.1)

  module _ (epsilon : F) (pos : IsPositive epsilon) where
    map-IsPositive :
        (sum : F) (counts : List ℕ)
        → nought ≼ sum
        → All IsPositive
            (map (λ c. f.add (f.div (f.literal c 0) (f.add sum epsilon)) epsilon) counts)
    map-IsPositive sum [] h = tt
    map-IsPositive sum (c ∷ cs) h = (
      sg.add_pos _ epsilon (sg.div_nonneg _ _ (o.nought_le c 0) (sg.add_pos sum epsilon h pos)) pos,
      map-IsPositive sum cs h,
    )

    percentages-IsPositive : (counts : List ℕ) → All IsPositive (percentages epsilon counts)
    unfolding percentages
    percentages-IsPositive counts =
        map-IsPositive (f.literal (total counts) 0) counts (o.nought_le _ 0)

module _ {F : Type 0} ⦃f : Float F⦄ (np : Numpy F) (o : IsOrdered F) (sg : IsSigned F)
    (n : IsNumpy F np) where
  psi_value-nonneg :
      (reference current : List F) (bins : ℕ) (epsilon : F)
      → f.lt nought epsilon ≡ true
      → nought ≼ psi_value np reference current bins epsilon
  unfolding psi_value
  psi_value-nonneg reference current bins epsilon pos = n.sum_nonneg _ (
      zip_with-psi_term o sg _ _ (percentages-IsPositive o sg epsilon pos _)
        (percentages-IsPositive o sg epsilon pos _))

  -- Two samples that are not empty have an index, and it is not negative.
  pub compute_psi-nonneg :
      (reference current : List F) (bins : ℕ) (epsilon : F)
      → f.lt nought epsilon ≡ true
      → 0 < length reference
      → 0 < length current
      → (p : F) × (compute_psi np reference current bins epsilon ≡ ok p) × (nought ≼ p)
  unfolding compute_psi
  compute_psi-nonneg reference current bins epsilon pos hr hc = (
    psi_value np reference current bins epsilon,
    ground arith,
    psi_value-nonneg reference current bins epsilon pos,
  )

  -- For two samples that are not empty the validated result is built: its index is not negative, its
  -- severity is that of the index, and it counts both samples.
  pub psi_result_total :
      (feature : String) (reference current : List F) (bins : ℕ)
      → 0 < length reference
      → 0 < length current
      → (r : PsiResult F) × (psi_result np feature reference current bins ≡ ok r)
        × (nought ≼ r.psi)
        × (r.feature ≡ feature)
        × (r.severity ≡ psi_severity r.psi)
        × (r.reference_n ≡ length reference)
        × (r.current_n ≡ length current)
  unfolding psi_result
  psi_result_total feature reference current bins hr hc =
      let (p, e, nonneg) =
        compute_psi-nonneg reference current bins (f.literal 1 8) (sg.epsilon_pos 8 refl) hr hc in
      (
        record {
          feature = feature;
          psi = p;
          severity = psi_severity p;
          reference_n = length reference;
          current_n = length current;
        },
        rw (e, nonneg),
        nonneg,
        refl,
        refl,
        refl,
        refl,
      )
