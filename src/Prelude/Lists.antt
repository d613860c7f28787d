-- ===== src/Prelude/Lists.antt =====
-- Lists measured by native numbers, under the library's names, and membership by recursion.
use Prim.Native.Nat.{ℕ, zero, suc, ◌+◌, min}
use mathlib.Core.Path.{◌≡◌, refl, subst}
use mathlib.Core.Logic.{◌⊎◌, inl, inr}
use mathlib.Core.List.{List, [], ◌∷◌, ◌++◌, map}
use mathlib.Core.Option.{Option, none, some}
use mathlib.Core.Bool.{Bool, true, false, ◌&&◌}
use native.Mathlib.Omega.{arith}
use drift_triage_co_pilot.Prelude.Tests.{Bool-cases}

module _ {ℓ} {A : Type ℓ} where
  abbrev pub length : List A → ℕ
  length [] = 0
  length (x ∷ xs) = suc (length xs)

  abbrev pub take : ℕ → List A → List A
  take zero xs = []
  take (suc n) [] = []
  take (suc n) (x ∷ xs) = x ∷ take n xs

  abbrev pub drop : ℕ → List A → List A
  drop zero xs = xs
  drop (suc n) [] = []
  drop (suc n) (x ∷ xs) = drop n xs

  abbrev pub replicate : ℕ → A → List A
  replicate zero a = []
  replicate (suc n) a = a ∷ replicate n a

  pub length-replicate : (n : ℕ) (a : A) → length (replicate n a) ≡ n
  length-replicate zero a = refl
  length-replicate (suc n) a = omega (arith, length-replicate n a)

  pub take-append-drop : (n : ℕ) (xs : List A) → take n xs ++ drop n xs ≡ xs
  take-append-drop zero xs = refl
  take-append-drop (suc n) [] = refl
  take-append-drop (suc n) (x ∷ xs) = cc (take-append-drop n xs)

  pub length-take : (n : ℕ) (xs : List A) → length (take n xs) ≡ min n (length xs)
  length-take zero xs = omega arith
  length-take (suc n) [] = omega arith
  length-take (suc n) (x ∷ xs) = omega (arith, length-take n xs)

  pub length-append : (xs ys : List A) → length (xs ++ ys) ≡ length xs + length ys
  length-append [] ys = omega arith
  length-append (x ∷ xs) ys = omega (arith, length-append xs ys)

  abbrev pub filter_by : (A → Bool) → List A → List A
  filter_by p [] = []
  filter_by p (x ∷ xs) = let rest = filter_by p xs in elim (p x) [ true ↦ x ∷ rest | false ↦ rest ]

  abbrev pub all_of : (A → Bool) → List A → Bool
  all_of p [] = true
  all_of p (x ∷ xs) = p x && all_of p xs

  -- The first element that satisfies the test.
  abbrev pub find_first : (A → Bool) → List A → Option A
  find_first p [] = none
  find_first p (x ∷ xs) = let rest = find_first p xs in elim (p x) [ true ↦ some x | false ↦ rest ]

module _ {ℓ κ} {A : Type ℓ} (P : A → Type κ) where
  abbrev pub All : List A → Type κ
  All [] = Unit
  All (x ∷ xs) = P x × All xs

  pub All-append : (xs ys : List A) → All xs → All ys → All (xs ++ ys)
  All-append [] ys hx hy = hy
  All-append (x ∷ xs) ys hx hy = (hx.0, All-append xs ys hx.1 hy)

  pub All-take : (n : ℕ) (xs : List A) → All xs → All (take n xs)
  All-take zero xs h = tt
  All-take (suc n) [] h = tt
  All-take (suc n) (x ∷ xs) h = (h.0, All-take n xs h.1)

module _ {A : Type 0} where
  -- `a` occurs in the list: with the place kept, unlike the library's truncated `Mem`.
  abbrev pub Occurs : A → List A → Type 0
  Occurs a [] = ⊥
  Occurs a (x ∷ xs) = (x ≡ a) ⊎ Occurs a xs

module _ {A : Type 0} (p : A → Bool) where
  pub filter_by-All : (Q : A → Type 0) (xs : List A) → All Q xs → All Q (filter_by p xs)
  filter_by-All Q [] h = tt
  filter_by-All Q (x ∷ xs) h = elim (Bool-cases (p x)) [
    | inr other ↦ rw (other, filter_by) (filter_by-All Q xs h.1)
    | inl fits ↦ rw (fits, filter_by) ((h.0, filter_by-All Q xs h.1))
  ]

  pub Occurs-filter_by :
      (a : A) (xs : List A) → Occurs a (filter_by p xs) → Occurs a xs × (p a ≡ true)
  Occurs-filter_by a [] h = ground (arith, h)
  Occurs-filter_by a (x ∷ xs) h = elim (Bool-cases (p x)) [
    | inr other ↦ let (o, e) = Occurs-filter_by a xs (rw (other, filter_by) at h) in (inr o, e)
    | inl fits ↦
        let kept : (x ≡ a) ⊎ Occurs a (filter_by p xs) = rw (fits, filter_by) at h in
        elim kept [
          | inl e ↦ (inl e, subst (λ v. p v ≡ true) e fits)
          | inr later ↦ let (o, e) = Occurs-filter_by a xs later in (inr o, e)
        ]
  ]

module _ {A B : Type 0} where
  pub All-map :
      (Q : B → Type 0) (g : A → B) (xs : List A) → All (λ x. Q (g x)) xs → All Q (map g xs)
  All-map Q g [] h = tt
  All-map Q g (x ∷ xs) h = (h.0, All-map Q g xs h.1)

  pub All-of_map :
      (Q : B → Type 0) (g : A → B) (xs : List A) → All Q (map g xs) → All (λ x. Q (g x)) xs
  All-of_map Q g [] h = tt
  All-of_map Q g (x ∷ xs) h = (h.0, All-of_map Q g xs h.1)

module _ {A : Type 0} where
  pub All-append_left : (P : A → Type 0) (xs ys : List A) → All P (xs ++ ys) → All P xs
  All-append_left P [] ys h = tt
  All-append_left P (x ∷ xs) ys h = (h.0, All-append_left P xs ys h.1)

  pub All-append_right : (P : A → Type 0) (xs ys : List A) → All P (xs ++ ys) → All P ys
  All-append_right P [] ys h = h
  All-append_right P (x ∷ xs) ys h = All-append_right P xs ys h.1

  pub All-Occurs : (P : A → Type 0) (a : A) (xs : List A) → All P xs → Occurs a xs → P a
  All-Occurs P a [] h o = ground (arith, o)
  All-Occurs P a (x ∷ xs) h (inl e) = subst P e h.0
  All-Occurs P a (x ∷ xs) h (inr o) = All-Occurs P a xs h.1 o

  pub All-imp : (P Q : A → Type 0) → ((x : A) → P x → Q x) → (xs : List A) → All P xs → All Q xs
  All-imp P Q g [] h = tt
  All-imp P Q g (x ∷ xs) h = (g x h.0, All-imp P Q g xs h.1)

  pub All-of_Occurs : (P : A → Type 0) (xs : List A) → ((a : A) → Occurs a xs → P a) → All P xs
  All-of_Occurs P [] h = tt
  All-of_Occurs P (x ∷ xs) h = (h x (inl refl), All-of_Occurs P xs (λ a o. h a (inr o)))

  pub all_of-All : (p : A → Bool) (xs : List A) → All (λ x. p x ≡ true) xs → all_of p xs ≡ true
  all_of-All p [] h = refl
  all_of-All p (x ∷ xs) h = rw (h.0, all_of-All p xs h.1)

module _ {ℓ κ} {A : Type ℓ} {B : Type κ} (g : A → B) where
  pub map-take : (n : ℕ) (xs : List A) → map g (take n xs) ≡ take n (map g xs)
  map-take zero xs = refl
  map-take (suc n) [] = refl
  map-take (suc n) (x ∷ xs) = cc (map-take n xs)

  pub length-map : (xs : List A) → length (map g xs) ≡ length xs
  length-map [] = refl
  length-map (x ∷ xs) = omega (arith, length-map xs)
