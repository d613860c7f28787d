-- ===== src/Tenacity/Decisive.antt =====
-- Which of the attempts decides, and what all of them keep.
use drift_triage_co_pilot.Prelude.{
  ℕ, zero, suc, ◌≤◌, ◌≡◌, refl, ◌⊎◌, inl, inr, ap, true, false, Result, Bool-cases, arith,
}
use drift_triage_co_pilot.Tenacity.{asks_retry, attempt_up_to}

module _ {A W : Type 0} (call : W → Result A × W) where
  -- The state after `k` attempts.
  abbrev pub after_attempts : ℕ → W → W
  after_attempts zero w = w
  after_attempts (suc k) w = after_attempts k (call w).1

  -- The first `k` attempts fail in the way that is tried again.
  abbrev pub FailTransiently : ℕ → W → Type 0
  FailTransiently zero w = Unit
  FailTransiently (suc k) w = (asks_retry (call w).0 ≡ true) × FailTransiently k (call w).1

  -- Attempt `k`, counted from 0, is the one whose answer stands.
  pub record IsDecisive (more k : ℕ) (w : W) : Type 0 where
    pub in_time : k ≤ more
    pub failed_before : FailTransiently k w
    pub decides : (k ≡ more) ⊎ (asks_retry (call (after_attempts k w)).0 ≡ false)

  pub attempt_up_to-IsDecisive :
      (more : ℕ) (w : W)
      → (k : ℕ) × IsDecisive more k w × (attempt_up_to more call w ≡ call (after_attempts k w))
  unfolding attempt_up_to
  attempt_up_to-IsDecisive zero w =
      (0, record { in_time = omega arith; failed_before = tt; decides = inl refl }, refl)
  attempt_up_to-IsDecisive (suc more) w = elim (Bool-cases (asks_retry (call w).0)) [
    | inl again ↦
        let (k, d, e) = attempt_up_to-IsDecisive more (call w).1 in
        (
          suc k,
          record {
            in_time = omega (arith, d.in_time);
            failed_before = (again, d.failed_before);
            decides = elim d.decides [ inl last ↦ inl (ap suc last) | inr final ↦ inr final ];
          },
          rw (again, attempt_up_to) e,
        )
    | inr final ↦ (
      0,
      record { in_time = omega arith; failed_before = tt; decides = inr final },
      rw (final, attempt_up_to) refl,
    )
  ]

  -- What every attempt keeps, and what every answer fulfils, holds after the last one.
  pub attempt_up_to-keeps :
      (Good : W → Type 0) (Fine : Result A × W → Type 0)
      → ((w : W) → Good w → Good (call w).1 × Fine (call w))
      → (more : ℕ) (w : W) → Good w
      → Good (attempt_up_to more call w).1 × Fine (attempt_up_to more call w)
  unfolding attempt_up_to
  attempt_up_to-keeps Good Fine keeps zero w good = keeps w good
  attempt_up_to-keeps Good Fine keeps (suc more) w good =
      elim (Bool-cases (asks_retry (call w).0)) [
        | inl again ↦
            rw (again, attempt_up_to)
              (attempt_up_to-keeps Good Fine keeps more (call w).1 (keeps w good).0)
        | inr final ↦ rw (final, attempt_up_to) (keeps w good)
      ]
