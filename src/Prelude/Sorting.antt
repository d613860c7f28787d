-- ===== src/Prelude/Sorting.antt =====
-- Python's `sorted`: a stable sort. `before x y` says that `x`, which stands in front of `y`, may stay.
use mathlib.Core.Path.{◌≡◌, refl}
use mathlib.Core.Bool.{Bool, true, false}
use mathlib.Core.List.{List, [], ◌∷◌, Perm}
use mathlib.Core.List.Perm
use native.Mathlib.Omega.{arith}
use Prim.Native.Nat.{suc}
use drift_triage_co_pilot.Prelude.Tests.{if◌then◌else◌, Bool-cases}
use drift_triage_co_pilot.Prelude.Lists.{All, length}
use mathlib.Core.Logic.{inl, inr}

module _ {A : Type 0} (before : A → A → Bool) where
  insert_by : A → List A → List A
  insert_by x [] = x ∷ []
  insert_by x (y ∷ ys) = if before x y then x ∷ y ∷ ys else y ∷ insert_by x ys

  unfoldable pub sorted_by : List A → List A
  unfolding insert_by
  sorted_by [] = []
  sorted_by (x ∷ xs) = insert_by x (sorted_by xs)

  -- Each element may stay in front of all that follow it.
  abbrev pub IsSortedBy : List A → Type 0
  IsSortedBy [] = Unit
  IsSortedBy (x ∷ xs) = All (λ y. before x y ≡ true) xs × IsSortedBy xs

  insert_by-perm : (x : A) (xs : List A) → Perm (insert_by x xs) (x ∷ xs)
  unfolding insert_by
  insert_by-perm x [] = Perm.rfl
  insert_by-perm x (y ∷ ys) = elim (Bool-cases (before x y)) [
    | inl stays ↦ rw stays Perm.rfl
    | inr passes ↦ rw passes (Perm.trans (Perm.cons y (insert_by-perm x ys)) (Perm.swap x y ys))
  ]

  pub sorted_by-perm : (xs : List A) → Perm (sorted_by xs) xs
  unfolding sorted_by
  sorted_by-perm [] = Perm.rfl
  sorted_by-perm (x ∷ xs) =
      Perm.trans (insert_by-perm x (sorted_by xs)) (Perm.cons x (sorted_by-perm xs))

  length-insert_by : (x : A) (xs : List A) → length (insert_by x xs) ≡ suc (length xs)
  unfolding insert_by
  length-insert_by x [] = refl
  length-insert_by x (y ∷ ys) = ground (arith, length-insert_by x ys)

  pub length-sorted_by : (xs : List A) → length (sorted_by xs) ≡ length xs
  unfolding sorted_by
  length-sorted_by [] = refl
  length-sorted_by (x ∷ xs) = omega (arith, length-insert_by x (sorted_by xs), length-sorted_by xs)

-- The result is in order where `before` is a total preorder on the elements that satisfy `P`.
module _ {A : Type 0} (before : A → A → Bool) (P : A → Type 0)
    (total : (x y : A) → P x → P y → before x y ≡ false → before y x ≡ true)
    (trans : (x y z : A)
      → P x
      → P y
      → P z
      → before x y ≡ true
      → before y z ≡ true
      → before x z ≡ true) where
  below-All :
      (x y : A) (ys : List A)
      → P x
      → P y
      → All P ys
      → before x y ≡ true
      → All (λ z. before y z ≡ true) ys
      → All (λ z. before x z ≡ true) ys
  below-All x y [] px py ps h a = tt
  below-All x y (z ∷ zs) px py ps h a =
      (trans x y z px py ps.0 h a.0, below-All x y zs px py ps.1 h a.1)

  insert_by-All :
      (Q : A → Type 0) (x : A) (xs : List A) → Q x → All Q xs → All Q (insert_by before x xs)
  unfolding insert_by
  insert_by-All Q x [] q h = (q, tt)
  insert_by-All Q x (y ∷ ys) q h = elim (Bool-cases (before x y)) [
    | inl stays ↦ rw stays (q, (h.0, h.1))
    | inr passes ↦ rw passes (h.0, insert_by-All Q x ys q h.1)
  ]

  insert_by-IsSortedBy :
      (x : A) (xs : List A)
      → P x
      → All P xs
      → IsSortedBy before xs
      → IsSortedBy before (insert_by before x xs)
  unfolding insert_by
  insert_by-IsSortedBy x [] px ps s = (tt, tt)
  insert_by-IsSortedBy x (y ∷ ys) px ps s = elim (Bool-cases (before x y)) [
    | inl stays ↦ rw stays ((stays, below-All x y ys px ps.0 ps.1 stays s.0), s)
    | inr passes ↦ rw passes (
      insert_by-All (λ z. before y z ≡ true) x ys (total x y px ps.0 passes) s.0,
      insert_by-IsSortedBy x ys px ps.1 s.1,
    )
  ]

  pub sorted_by-All : (xs : List A) → All P xs → All P (sorted_by before xs)
  unfolding sorted_by
  sorted_by-All [] h = tt
  sorted_by-All (x ∷ xs) h = insert_by-All P x (sorted_by before xs) h.0 (sorted_by-All xs h.1)

  pub sorted_by-IsSortedBy : (xs : List A) → All P xs → IsSortedBy before (sorted_by before xs)
  unfolding sorted_by
  sorted_by-IsSortedBy [] h = tt
  sorted_by-IsSortedBy (x ∷ xs) h =
      insert_by-IsSortedBy x (sorted_by before xs) h.0 (sorted_by-All xs h.1)
        (sorted_by-IsSortedBy xs h.1)
