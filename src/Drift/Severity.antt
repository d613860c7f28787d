-- ===== src/Drift/Severity.antt =====
-- The severities of backend/src/drift/psi.py and severity.py, and Python's `max` with a key.
use drift_triage_co_pilot.Prelude.{
  ℕ, ◌≤◌, ◌≡◌, ◌↔◌, ◌⊎◌, inl, inr, refl, Bool, true, false, String, Option, none, some, List, [],
  ◌∷◌, arith, Equality, ltb, if◌then◌else◌, All, Occurs, if-cases, sym, ◌∙◌,
}

pub data Severity : Type 0 where
  low medium high : Severity

-- `_SEVERITY_ORDER`
abbrev pub severity_order : Severity → ℕ
severity_order low = 0
severity_order medium = 1
severity_order high = 2

-- `severity in ("medium", "high")`
abbrev pub is_medium_or_high : Severity → Bool
is_medium_or_high low = false
is_medium_or_high medium = true
is_medium_or_high high = true

abbrev pub severity_text : Severity → String
severity_text low = "low"
severity_text medium = "medium"
severity_text high = "high"

abbrev severity_beq : Severity → Severity → Bool
severity_beq low low = true
severity_beq medium medium = true
severity_beq high high = true
severity_beq _ _ = false

pub severity_beq_iff : (a b : Severity) → (severity_beq a b ≡ true) ↔ (a ≡ b)
severity_beq_iff a b = ground arith

instance abbrev pub severity_eq : Equality Severity
severity_eq = record { test = severity_beq; agrees = severity_beq_iff }

-- The loop of Python's `max(values, key=severity_order)`: the first of the greatest wins.
max_from : Severity → List Severity → Severity
max_from best [] = best
max_from best (s ∷ rest) =
    max_from (if ltb (severity_order best) (severity_order s) then s else best) rest

-- `none` is the ValueError of an empty sequence.
unfoldable pub max_severity : List Severity → Option Severity
unfolding max_from
max_severity [] = none
max_severity (s ∷ rest) = some (max_from s rest)

abbrev pub IsAtMost : Severity → Severity → Type 0
IsAtMost m s = severity_order s ≤ severity_order m

max_from-bounds :
    (best : Severity) (xs : List Severity)
    → (severity_order best ≤ severity_order (max_from best xs))
      × All (IsAtMost (max_from best xs)) xs
unfolding max_from
max_from-bounds best [] = omega arith
max_from-bounds best (s ∷ rest) =
    ground (
      arith,
      max_from-bounds (if ltb (severity_order best) (severity_order s) then s else best) rest,
    )

max_from-Occurs :
    (best : Severity) (xs : List Severity)
    → (best ≡ max_from best xs) ⊎ Occurs (max_from best xs) xs
unfolding max_from
max_from-Occurs best [] = inl refl
max_from-Occurs best (s ∷ rest) =
    let better = ltb (severity_order best) (severity_order s) in
    elim (max_from-Occurs (if better then s else best) rest) [
      | inl e ↦ elim (if-cases better s best) [
        | inl p ↦ inr (inl (sym p ∙ e))
        | inr p ↦ inl (sym p ∙ e)
      ]
      | inr o ↦ inr (inr o)
    ]

-- The maximum of a sequence that is not empty bounds it and occurs in it.
pub max_severity-cons :
    (s : Severity) (xs : List Severity)
    → (m : Severity) × (max_severity (s ∷ xs) ≡ some m)
      × All (IsAtMost m) (s ∷ xs)
      × Occurs m (s ∷ xs)
unfolding max_severity
max_severity-cons s xs =
    let (first, others) = max_from-bounds s xs in
    (max_from s xs, refl, (first, others), max_from-Occurs s xs)
