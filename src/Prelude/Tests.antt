-- ===== src/Prelude/Tests.antt =====
-- Boolean tests, the conditional, and equality as an interface.
use Prim.Native.Nat.{ℕ, compare, Ordering}
use Prim.Native.String.{String}
use mathlib.Core.Path.{◌≡◌, refl}
use mathlib.Core.Logic.{◌↔◌, ◌≢◌, ◌⊎◌, inl, inr}
use mathlib.Core.Bool.{Bool, true, false, not, ◌&&◌}
use mathlib.Core.Option.{Option, none, some}
use native.Mathlib.Omega.{arith}
use text.Mathlib.Text.{◌==◌ as str_eq}
use text.Mathlib.TextEquality.{eq_iff}

abbrev pub ltb : ℕ → ℕ → Bool
ltb a b = elim (compare a b) [ Ordering.lt ↦ true | _ ↦ false ]

abbrev pub leb : ℕ → ℕ → Bool
leb a b = elim (compare a b) [ Ordering.gt ↦ false | _ ↦ true ]

abbrev nat_beq : ℕ → ℕ → Bool
nat_beq a b = elim (compare a b) [ Ordering.eq ↦ true | _ ↦ false ]

infix 1 if◌then◌else◌
abbrev pub if◌then◌else◌ {ℓ} : {A : Type ℓ} → Bool → A → A → A
if true then x else y = x
if false then x else y = y

-- The test of equality of a type, and that it agrees with equality.
pub record Equality {ℓ} (A : Type ℓ) : Type ℓ where
  pub test : A → A → Bool
  pub agrees : (x y : A) → (test x y ≡ true) ↔ (x ≡ y)

-- `a == b`, by whichever instance the type has
infix 50 ◌==◌
abbrev pub ◌==◌ {ℓ} : {A : Type ℓ} ⦃same : Equality A⦄ → A → A → Bool
◌==◌ ⦃same⦄ = same.test

pub nat_beq_iff : (a b : ℕ) → (nat_beq a b ≡ true) ↔ (a ≡ b)
nat_beq_iff a b = ground arith

instance abbrev pub nat_eq : Equality ℕ
nat_eq = record { test = nat_beq; agrees = nat_beq_iff }

instance abbrev pub string_eq : Equality String
string_eq = record { test = str_eq; agrees = eq_iff }

module _ {A : Type 0} ⦃e : Equality A⦄ where
  abbrev option_beq : Option A → Option A → Bool
  option_beq none none = true
  option_beq none (some b) = false
  option_beq (some a) none = false
  option_beq (some a) (some b) = e.test a b

  pub option_beq_iff : (a b : Option A) → (option_beq a b ≡ true) ↔ (a ≡ b)
  option_beq_iff none none = ground arith
  option_beq_iff none (some b) = ground arith
  option_beq_iff (some a) none = ground arith
  option_beq_iff (some a) (some b) = ground (arith, e.agrees a b)

  instance abbrev pub option_eq : Equality (Option A)
  option_eq = record { test = option_beq; agrees = option_beq_iff }

pub Bool-cases : (b : Bool) → (b ≡ true) ⊎ (b ≡ false)
Bool-cases true = inl refl
Bool-cases false = inr refl

pub Option-cases {ℓ} : {A : Type ℓ} (o : Option A) → (o ≡ none) ⊎ ((a : A) × (o ≡ some a))
Option-cases none = inl refl
Option-cases (some a) = inr (a, refl)

pub if-cases {ℓ} :
    {A : Type ℓ} (b : Bool) (x y : A) → ((if b then x else y) ≡ x) ⊎ ((if b then x else y) ≡ y)
if-cases true x y = inl refl
if-cases false x y = inr refl

-- What a test of equality, and a conjunction, tell when they hold.
pub beq-path {ℓ} : {A : Type ℓ} ⦃e : Equality A⦄ → (a b : A) → (a == b) ≡ true → a ≡ b
beq-path ⦃e⦄ a b h = (e.agrees a b).0 h

pub beq-apart {ℓ} : {A : Type ℓ} ⦃e : Equality A⦄ → (a b : A) → (a == b) ≡ false → a ≢ b
beq-apart ⦃e⦄ a b h = λ p. ground (arith, h, (e.agrees a b).1 p)

pub beq-false {ℓ} : {A : Type ℓ} ⦃e : Equality A⦄ → (a b : A) → a ≢ b → (a == b) ≡ false
beq-false ⦃e⦄ a b apart = elim (Bool-cases (e.test a b)) [
  | inl same ↦ ground (arith, apart ((e.agrees a b).0 same))
  | inr other ↦ other
]

pub beq-same {ℓ} : {A : Type ℓ} ⦃e : Equality A⦄ → (a b : A) → a ≡ b → (a == b) ≡ true
beq-same ⦃e⦄ a b p = (e.agrees a b).1 p

pub and-both : (a b : Bool) → (a && b) ≡ true → (a ≡ true) × (b ≡ true)
and-both true true h = (refl, refl)
and-both true false h = (refl, h)
and-both false b h = (h, ground (arith, h))

pub not-true : (b : Bool) → not b ≡ true → b ≡ false
not-true true h = cc
not-true false h = refl
