-- ===== src/Floating/Defs.antt =====
-- The operations on floats, and the vectors of `numpy` and `scipy`, as interfaces.
use drift_triage_co_pilot.Prelude.{ℕ, ◌≡◌, Bool, true, String, List}

pub record Float (F : Type 0) : Type 0 where
  -- `literal m e` is the decimal m / 10^e, as in `0.25` for `literal 25 2`.
  pub literal : ℕ → ℕ → F
  pub add : F → F → F
  pub sub : F → F → F
  pub mul : F → F → F
  pub div : F → F → F
  pub log : F → F
  -- `x <= y` and `x < y`; both are false of NaN
  pub le : F → F → Bool
  pub lt : F → F → Bool
  -- `int(x)` of a float that is not negative
  pub to_int : F → ℕ
  -- `str(x)`, `f"{x:g}"` and `f"{x:.4f}"`
  pub str : F → String
  pub general : F → String
  pub fixed : F → String

module _ {F : Type 0} ⦃f : Float F⦄ where
  infix 4 ◌≼◌
  abbrev pub ◌≼◌ : F → F → Type 0
  x ≼ y = f.le x y ≡ true

  abbrev pub nought : F
  nought = f.literal 0 0

  abbrev pub one : F
  one = f.literal 1 0

-- The calls of `numpy`, `pandas` and `scipy` in the drift tests.
pub record Numpy (F : Type 0) : Type 0 where
  -- `-np.inf`, `np.inf`
  pub negative_infinity : F
  pub infinity : F
  pub linspace : F → F → ℕ → List F
  pub nanquantile : List F → List F → List F
  pub dropna : List F → List F
  -- the counts of `np.histogram(values, bins=breakpoints)`
  pub histogram : List F → List F → List ℕ
  pub sum : List F → F
  pub mean : List F → F
  -- `scipy.stats.chi2.cdf(x, dof)`
  pub chi2_cdf : F → ℕ → F
