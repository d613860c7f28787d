-- ===== src/Prelude/Text.antt =====
-- Texts: truth, concatenation, and Python's `str` of a natural number.
use Prim.Native.Nat.{ℕ, zero, suc, ◌≤◌, ◌/◌, ◌%◌, ◌<◌}
use Prim.Native.String.{String, ◌++◌, char_at}
use Prim.Native.String.append
use mathlib.Core.Path.{◌≡◌, refl, ap}
use mathlib.Core.Bool.{Bool, true, false}
use mathlib.Core.Logic.{dite, dif_pos, dif_neg}
use mathlib.Core.List.{List, [], ◌∷◌, ◌++◌ as ◌+++◌}
use Prim.Native.Char.{code}
use drift_triage_co_pilot.Prelude.Lists.{All, All-append, length, length-append}
use mathlib.Core.WellFounded.{Acc}
use native.Mathlib.Decide.{dec_lt}
use native.Mathlib.Bridge.{le_prop}
use native.Mathlib.Omega.{arith}
use drift_triage_co_pilot.Prelude.Order.{lt_wf}

-- `bool(s)`: the empty text is false.
abbrev pub truthy : String → Bool
truthy String.[] = false
truthy (String.◌∷◌ c s) = true

-- Concatenation, under a name that the lists' `++` leaves free.
infixr 66 ◌&◌
abbrev pub ◌&◌ : String → String → String
a & b = a ++ b

-- `s or t`
abbrev pub or_text : String → String → String
or_text s t = elim (truthy s) [ true ↦ s | false ↦ t ]

abbrev digit : ℕ → String
digit d = String.◌∷◌ (char_at "0123456789" d) String.[]

str_from : (n : ℕ) → Acc ◌<◌ n → String
str_from n (Acc.intro _ smaller) =
    dite (dec_lt n 10) (λ _. digit n)
      (λ h. str_from (n / 10) (smaller (n / 10) (omega arith)) & digit (n % 10))

-- `str(n)`
unfoldable pub str_int : ℕ → String
unfolding str_from lt_wf dec_lt
str_int n = str_from n (lt_wf.apply n)

str_int_tests : (str_int 0 ≡ "0") × (str_int 7 ≡ "7") × (str_int 4030 ≡ "4030")
unfolding str_int
str_int_tests = (refl, refl, refl)

-- A text that begins with one that is not empty is not empty.
pub truthy-append : (s t : String) → truthy s ≡ true → truthy (s & t) ≡ true
truthy-append String.[] t h = cc
truthy-append (String.◌∷◌ c s) t h = rw (append.cons c s t) refl

-- The code points of a text.
abbrev pub codes : String → List ℕ
codes String.[] = []
codes (String.◌∷◌ c s) = code c ∷ codes s

pub codes-append : (s t : String) → codes (s & t) ≡ codes s +++ codes t
codes-append String.[] t = ap codes (append.nil t)
codes-append (String.◌∷◌ c s) t = rw (append.cons c s t) (ap (λ l. code c ∷ l) (codes-append s t))

-- A decimal digit.
abbrev pub IsDigit : ℕ → Type 0
IsDigit c = (48 ≤ c) × (c ≤ 57)

digit-IsDigit : (d : ℕ) → d < 10 → All IsDigit (codes (digit d))
digit-IsDigit zero h = ((omega arith, omega arith), tt)
digit-IsDigit (suc zero) h = ((omega arith, omega arith), tt)
digit-IsDigit (suc (suc zero)) h = ((omega arith, omega arith), tt)
digit-IsDigit (suc (suc (suc zero))) h = ((omega arith, omega arith), tt)
digit-IsDigit (suc (suc (suc (suc zero)))) h = ((omega arith, omega arith), tt)
digit-IsDigit (suc (suc (suc (suc (suc zero))))) h = ((omega arith, omega arith), tt)
digit-IsDigit (suc (suc (suc (suc (suc (suc zero)))))) h = ((omega arith, omega arith), tt)
digit-IsDigit (suc (suc (suc (suc (suc (suc (suc zero))))))) h = ((omega arith, omega arith), tt)
digit-IsDigit (suc (suc (suc (suc (suc (suc (suc (suc zero)))))))) h =
    ((omega arith, omega arith), tt)
digit-IsDigit (suc (suc (suc (suc (suc (suc (suc (suc (suc zero))))))))) h =
    ((omega arith, omega arith), tt)
digit-IsDigit (suc (suc (suc (suc (suc (suc (suc (suc (suc (suc d)))))))))) h = absurd (omega arith)

str_from-IsDigit : (n : ℕ) (w : Acc ◌<◌ n) → All IsDigit (codes (str_from n w))
unfolding str_from
str_from-IsDigit n (Acc.intro _ smaller) = elim (dec_lt n 10) [
  | yes below ↦ rw (dif_pos _ le_prop below) (digit-IsDigit n below)
  | no above ↦ rw (dif_neg _ above) (
      rw (codes-append (str_from (n / 10) (smaller (n / 10) (omega arith))) (digit (n % 10))) (
        All-append IsDigit _ _ (str_from-IsDigit (n / 10) (smaller (n / 10) (omega arith)))
          (digit-IsDigit (n % 10) (omega arith))))
]

pub str_int-IsDigit : (n : ℕ) → All IsDigit (codes (str_int n))
unfolding str_int
str_int-IsDigit n = str_from-IsDigit n (lt_wf.apply n)

digit-filled : (d : ℕ) → 0 < length (codes (digit d))
digit-filled d = omega arith

str_from-filled : (n : ℕ) (w : Acc ◌<◌ n) → 0 < length (codes (str_from n w))
unfolding str_from
str_from-filled n (Acc.intro _ smaller) = elim (dec_lt n 10) [
  | yes below ↦ rw (dif_pos _ le_prop below) (digit-filled n)
  | no above ↦ rw (dif_neg _ above) (
      rw (codes-append (str_from (n / 10) (smaller (n / 10) (omega arith))) (digit (n % 10))) (
        omega (
          arith,
          length-append (codes (str_from (n / 10) (smaller (n / 10) (omega arith))))
              (codes (digit (n % 10))),
          digit-filled (n % 10),
        )))
]

pub str_int-filled : (n : ℕ) → 0 < length (codes (str_int n))
unfolding str_int
str_int-filled n = str_from-filled n (lt_wf.apply n)
