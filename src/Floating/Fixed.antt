-- ===== src/Floating/Fixed.antt =====
-- The laws of `Floating.Laws` can be met: decimals with eight places and no sign, as whole numbers of
-- 1e-8, where a difference stops at 0 and `log x` is x - 1, cut at 0.
use drift_triage_co_pilot.Prelude.{
  ℕ, ◌+◌, ◌-◌, ◌*◌, ◌/◌, ◌^◌, ◌≤◌, ◌<◌, ◌≡◌, refl, true, List, [], ◌∷◌, arith, ltb, leb, length,
  str_int, if◌then◌else◌, min,
}
use drift_triage_co_pilot.Floating.Defs.{Float, Numpy}
use drift_triage_co_pilot.Floating.Laws.{IsOrdered, IsSigned, IsNumpy}

abbrev pub Fixed : Type 0
Fixed = ℕ

abbrev scale : ℕ
scale = 100_000_000

instance abbrev pub fixed_float : Float Fixed
fixed_float = record {
  literal = λ m e. m * scale / 10 ^ e;
  add = λ x y. x + y;
  sub = λ x y. x - y;
  mul = λ x y. x * y / scale;
  div = λ x y. x * scale / y;
  log = λ x. x - scale;
  le = leb;
  lt = ltb;
  to_int = λ x. x / scale;
  str = str_int;
  general = str_int;
  fixed = str_int;
}

pub Fixed-IsOrdered : IsOrdered Fixed
Fixed-IsOrdered = record {
  le_trans = λ x y z p q. ground arith;
  le-lt_trans = λ x y z p q. ground arith;
  lt-le_trans = λ x y z p q. ground arith;
  tenth_le_quarter = refl;
  nought_le = λ m e. ground arith;
  lt-le = λ x y h. ground arith;
  le_refl = λ x _. ground arith;
  le_of_not_lt = λ x y _ _ h. ground arith;
  lt_of_not_le = λ x y _ _ h. ground arith;
  not-lt_of_le = λ x y h. ground arith;
}

abbrev total : List ℕ → ℕ
total [] = 0
total (x ∷ xs) = x + total xs

one_le_scaled : (x y : ℕ) → 0 < x → x ≤ y → scale ≤ y * scale / x
one_le_scaled x y p h = grind arith

scaled-le-one : (x y : ℕ) → 0 < y → x ≤ y → x * scale / y ≤ scale
scaled-le-one x y p h = grind arith

ltb_pos : (y : ℕ) → ltb 0 y ≡ true → 0 < y
ltb_pos y h = ground arith

leb_iff : (x y : ℕ) → leb x y ≡ true → x ≤ y
leb_iff x y h = ground arith

leb_of : (x y : ℕ) → x ≤ y → leb x y ≡ true
leb_of x y h = ground arith

pub Fixed-IsSigned : IsSigned Fixed
Fixed-IsSigned = record {
  epsilon_pos = λ e h. rw h refl;
  one_pos = refl;
  add_nonneg = λ x y _ _. ground arith;
  add_pos = λ x y _ h. ground arith;
  sub_nonneg = λ x y _. ground arith;
  sub_nonpos = λ x y h. ground arith;
  sub_le = λ x y _ _ h. ground arith;
  mul_nonneg = λ x y _ _. ground arith;
  mul_nonpos = λ x y _ _. ground arith;
  square_nonneg = λ x. ground arith;
  div_nonneg = λ x y _ _. ground arith;
  one_le_div = λ x y p h. leb_of _ _ (one_le_scaled x y (ltb_pos x p) (leb_iff x y h));
  div_le_one = λ x y p h. leb_of _ _ (scaled-le-one x y (ltb_pos y p) (leb_iff x y h));
  log_nonneg = λ x _. ground arith;
  log_nonpos = λ x _ h. ground arith;
  pos_total = λ x y _ _. ground arith;
}

-- How many of the values lie in [low, high).
abbrev count_between : ℕ → ℕ → List ℕ → ℕ
count_between low high [] = 0
count_between low high (x ∷ xs) =
    (if leb low x then (if ltb x high then 1 else 0) else 0) + count_between low high xs

abbrev histogram : List ℕ → List ℕ → List ℕ
histogram values [] = []
histogram values (low ∷ []) = []
histogram values (low ∷ high ∷ rest) =
    count_between low high values ∷ histogram values (high ∷ rest)

-- A stand-in for `numpy` to run the tests with: two bins, cut at 1.
abbrev pub fixed_numpy : Numpy Fixed
fixed_numpy = record {
  negative_infinity = 0;
  infinity = 10 ^ 20;
  linspace = λ _ _ n. 0 ∷ scale / 2 ∷ scale ∷ [];
  nanquantile = λ values points. points;
  dropna = λ xs. xs;
  histogram = histogram;
  sum = total;
  mean = λ xs. total xs / length xs;
  chi2_cdf = λ x dof. min x scale;
}

pub Fixed-IsNumpy : IsNumpy Fixed fixed_numpy
Fixed-IsNumpy = record {
  sum_nonneg = λ xs _. ground arith;
  cdf_nonneg = λ x dof. ground arith;
  cdf-le-one = λ x dof. leb_of _ _ (omega arith);
}
