-- ===== src/Ml/Choice.antt =====
-- The first of the greatest, by a key: Python's `max(..., key=...)` and numpy's `argmax` and `max`.
use drift_triage_co_pilot.Prelude.{
  refl, inl, inr, List, [], ◌∷◌, if◌then◌else◌, All, Occurs, Bool-cases,
}
use drift_triage_co_pilot.Floating.{Float, ◌≼◌, nought}
use drift_triage_co_pilot.Floating.Laws.{IsOrdered}

module _ {F A : Type 0} ⦃f : Float F⦄ (key : A → F) where
  unfoldable pub best_by : A → List A → A
  best_by best [] = best
  best_by best (x ∷ xs) = best_by (if f.lt (key best) (key x) then x else best) xs

  -- The choice occurs in the list, and no key of the list is greater than its key.
  pub record IsBest (best : A) (xs : List A) : Type 0 where
    pub occurs : Occurs best xs
    pub greatest : All (λ x. key x ≼ key best) xs

  module _ (o : IsOrdered F) where
    pub best_by-IsBest :
        (b : A) (xs : List A)
        → nought ≼ key b
        → All (λ x. nought ≼ key x) xs
        → IsBest (best_by b xs) (b ∷ xs)
    unfolding best_by
    best_by-IsBest b [] hb hx = record { occurs = inl refl; greatest = (o.le_refl (key b) hb, tt) }
    best_by-IsBest b (x ∷ xs) hb hx = elim (Bool-cases (f.lt (key b) (key x))) [
      | inl less ↦
          let r = best_by-IsBest x xs hx.0 hx.1 in
          rw (less, best_by)
            (record {
              occurs = inr r.occurs;
              greatest = (
                o.le_trans (key b) (key x) _ (o.lt-le (key b) (key x) less) r.greatest.0,
                r.greatest,
              );
            })
      | inr other ↦
          let r = best_by-IsBest b xs hb hx.1 in
          rw (other, best_by)
            (record {
              occurs = elim r.occurs [ inl e ↦ inl e | inr later ↦ inr (inr later) ];
              greatest = (
                r.greatest.0,
                (
                  o.le_trans (key x) (key b) _ (o.le_of_not_lt (key b) (key x) hb hx.0 other)
                      r.greatest.0,
                  r.greatest.1,
                ),
              );
            })
    ]
