-- ===== src/Prelude/Results.antt =====
-- Python exceptions as values, and calls that return or raise.
use Prim.Native.Nat.{ℕ}
use Prim.Native.String.{String}
use mathlib.Core.Path.{◌≡◌, refl, ap, sym, ◌∙◌}
use mathlib.Core.Bool.{Bool, true, false}
use mathlib.Core.List.{List, [], ◌∷◌, map}
use native.Mathlib.Omega.{arith}
use drift_triage_co_pilot.Prelude.Lists.{All, length}
use mathlib.Core.Logic.{◌⊎◌, inl, inr}

-- The exception classes that the code tells apart, each with the text that `str(exc)` gives.
pub data Exception : Type 0 where
  validation_error : String → Exception
  http_status_error : ℕ → String → Exception
  timeout_exception : String → Exception
  network_error : String → Exception
  integrity_error : String → Exception
  stale_investigation : String → String → Exception
  http_exception : ℕ → String → Exception
  value_error : String → Exception
  runtime_error : String → Exception
  other_error : String → Exception

pub data Result {ℓ} (A : Type ℓ) : Type ℓ where
  ok : A → Result A
  raised : Exception → Result A

infixl 5 ◌>>=◌ ◌>>◌
abbrev pub ◌>>=◌ {ℓ κ} : {A : Type ℓ} {B : Type κ} → Result A → (A → Result B) → Result B
ok a >>= f = f a
raised e >>= f = raised e

abbrev pub ◌>>◌ {ℓ} : {B : Type ℓ} → Result (Unit {0}) → Result B → Result B
m >> k = m >>= λ _. k

-- `if test: raise e`
abbrev pub raise_if : Bool → Exception → Result (Unit {0})
raise_if true e = raised e
raise_if false e = ok tt

pub Result-cases {ℓ} :
    {A : Type ℓ} (r : Result A) → ((a : A) × (r ≡ ok a)) ⊎ ((e : Exception) × (r ≡ raised e))
Result-cases (ok a) = inl (a, refl)
Result-cases (raised e) = inr (e, refl)

-- A chain that returned a value: the first call returned one, and so did the rest at it.
pub bind_parts {ℓ κ} :
    {A : Type ℓ} {B : Type κ} {b : B} (call : Result A) (rest : A → Result B)
    → (call >>= rest) ≡ ok b
    → (first : A) × (call ≡ ok first) × (rest first ≡ ok b)
bind_parts (raised e) rest returned = cc
bind_parts (ok first) rest returned = (first, refl, returned)

-- `try: m` with `except Exception:` and a value instead
abbrev pub or_else {ℓ} : {A : Type ℓ} → Result A → A → A
or_else (ok a) b = a
or_else (raised e) b = b

-- `[g(x) for x in xs]`, where a call may raise.
abbrev pub collect : {A B : Type 0} → (A → Result B) → List A → Result (List B)
collect g [] = ok []
collect g (x ∷ xs) = let rest = collect g xs in g x >>= λ y. rest >>= λ ys. ok (y ∷ ys)

ok_or : {A : Type 0} → A → Result A → A
ok_or a (ok b) = b
ok_or a (raised e) = a

pub ok_injective : {A : Type 0} (a b : A) → ok a ≡ ok b → a ≡ b
unfolding ok_or
ok_injective a b e = ap (ok_or a) e

module _ {A B : Type 0} (g : A → Result B) where
  -- Where no call raises on what is given, the list is built, and its elements are as the calls make them.
  pub collect-ok :
      (Given : A → Type 0) (Fine : B → Type 0)
      → ((a : A) → Given a → (b : B) × (g a ≡ ok b) × Fine b)
      → (xs : List A) → All Given xs
      → (ys : List B) × (collect g xs ≡ ok ys) × All Fine ys × (length ys ≡ length xs)
  collect-ok Given Fine works [] given = ([], refl, tt, refl)
  collect-ok Given Fine works (x ∷ xs) given =
      let (y, e, fine) = works x given.0 in
      let (ys, es, fines, long) = collect-ok Given Fine works xs given.1 in
      (y ∷ ys, rw (e, collect) (rw es refl), (fine, fines), omega (arith, long))

  -- What names the argument in each element lists the arguments.
  pub collect-map :
      (name : B → A)
      → ((a : A) (b : B) → g a ≡ ok b → name b ≡ a)
      → (xs : List A) (ys : List B) → collect g xs ≡ ok ys
      → map name ys ≡ xs
  collect-map name named [] ys e = ap (map name) (sym (ok_injective [] ys e))
  collect-map name named (x ∷ xs) ys e = elim (Result-cases (g x)) [
    | inr (exc, bad) ↦ ground (arith, rw (bad, collect) at e)
    | inl (y, here) ↦ elim (Result-cases (collect g xs)) [
      | inr (exc, bad) ↦ ground (arith, rw (here, bad, collect) at e)
      | inl (zs, later) ↦
          let at : (y ∷ zs) ≡ ys = ok_injective (y ∷ zs) ys (rw (here, later, collect) at e) in
          ap (map name) (sym at) ∙ cc (named x y here, collect-map name named xs zs later)
    ]
  ]
