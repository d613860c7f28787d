-- ===== src/Floating/Laws.antt =====
-- What the proofs assume of floats and of `numpy`: order, signs, and sums. Each law holds of finite
-- doubles; a comparison that holds excludes NaN.
use drift_triage_co_pilot.Prelude.{ℕ, ◌≡◌, true, false, ◌⊎◌, List, All}
use drift_triage_co_pilot.Floating.Defs.{Float, Numpy, ◌≼◌, nought, one}

pub record IsOrdered (F : Type 0) ⦃f : Float F⦄ : Type 0 where
  pub le_trans : (x y z : F) → x ≼ y → y ≼ z → x ≼ z
  pub le-lt_trans : (x y z : F) → x ≼ y → f.lt y z ≡ true → f.lt x z ≡ true
  pub lt-le_trans : (x y z : F) → f.lt x y ≡ true → y ≼ z → f.lt x z ≡ true
  pub tenth_le_quarter : f.literal 1 1 ≼ f.literal 25 2
  pub nought_le : (m e : ℕ) → nought ≼ f.literal m e
  pub lt-le : (x y : F) → f.lt x y ≡ true → x ≼ y
  -- away from NaN
  pub le_refl : (x : F) → nought ≼ x → x ≼ x
  pub le_of_not_lt : (x y : F) → nought ≼ x → nought ≼ y → f.lt x y ≡ false → y ≼ x
  pub lt_of_not_le : (x y : F) → nought ≼ x → nought ≼ y → f.le x y ≡ false → f.lt y x ≡ true
  pub not-lt_of_le : (x y : F) → x ≼ y → f.lt y x ≡ false

pub record IsSigned (F : Type 0) ⦃f : Float F⦄ : Type 0 where
  pub epsilon_pos : (e : ℕ) → e ≡ 8 → f.lt nought (f.literal 1 e) ≡ true
  pub one_pos : f.lt nought one ≡ true
  pub add_nonneg : (x y : F) → nought ≼ x → nought ≼ y → nought ≼ f.add x y
  pub add_pos : (x y : F) → nought ≼ x → f.lt nought y ≡ true → f.lt nought (f.add x y) ≡ true
  pub sub_nonneg : (x y : F) → x ≼ y → nought ≼ f.sub y x
  pub sub_nonpos : (x y : F) → x ≼ y → f.sub x y ≼ nought
  pub sub_le : (x y : F) → nought ≼ x → nought ≼ y → x ≼ y → f.sub y x ≼ y
  pub mul_nonneg : (x y : F) → nought ≼ x → nought ≼ y → nought ≼ f.mul x y
  pub mul_nonpos : (x y : F) → x ≼ nought → y ≼ nought → nought ≼ f.mul x y
  pub square_nonneg : (x : F) → nought ≼ f.mul x x
  pub div_nonneg : (x y : F) → nought ≼ x → f.lt nought y ≡ true → nought ≼ f.div x y
  pub one_le_div : (x y : F) → f.lt nought x ≡ true → x ≼ y → one ≼ f.div y x
  pub div_le_one : (x y : F) → f.lt nought y ≡ true → x ≼ y → f.div x y ≼ one
  pub log_nonneg : (x : F) → one ≼ x → nought ≼ f.log x
  pub log_nonpos : (x : F) → nought ≼ x → x ≼ one → f.log x ≼ nought
  pub pos_total : (x y : F) → f.lt nought x ≡ true → f.lt nought y ≡ true → (x ≼ y) ⊎ (y ≼ x)

pub record IsNumpy (F : Type 0) ⦃f : Float F⦄ (np : Numpy F) : Type 0 where
  pub sum_nonneg : (xs : List F) → All (λ x. nought ≼ x) xs → nought ≼ np.sum xs
  pub cdf_nonneg : (x : F) (dof : ℕ) → nought ≼ np.chi2_cdf x dof
  pub cdf-le-one : (x : F) (dof : ℕ) → np.chi2_cdf x dof ≼ one
