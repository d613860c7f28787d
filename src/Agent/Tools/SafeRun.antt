-- ===== src/Agent/Tools/SafeRun.antt =====
-- `safe_run` of backend/src/agent/tools/base.py, around the check of the arguments and the `run` of any tool.
use drift_triage_co_pilot.Prelude.{
  ◌≡◌, ◌⊎◌, inl, inr, refl, Bool, true, false, String, ◌&◌, Result, ok, raised, Exception,
  validation_error, http_status_error, timeout_exception, network_error, integrity_error,
  stale_investigation, http_exception, value_error, runtime_error, other_error, Result-cases,
}
use drift_triage_co_pilot.Agent.Tools.{ToolResult, succeeded, failed, safe_run, wrap}

sum-cases : {A B : Type 0} (v : A ⊎ B) → ((a : A) × (v ≡ inl a)) ⊎ ((b : B) × (v ≡ inr b))
sum-cases (inl a) = inl (a, refl)
sum-cases (inr b) = inr (b, refl)

-- The exceptions after which a tool's answer says that the call may be tried again.
abbrev pub is_transient : Exception → Bool
is_transient (timeout_exception _) = true
is_transient (network_error _) = true
is_transient _ = false

abbrev pub is_retryable : {A : Type 0} → ToolResult A → Bool
is_retryable (succeeded _) = false
is_retryable (failed _ retryable) = retryable

abbrev pub is_success : {A : Type 0} → ToolResult A → Bool
is_success (succeeded _) = true
is_success (failed _ _) = false

is_retryable-wrap :
    (A : Type 0) (e : Exception)
    → (is_retryable (wrap {A = A} (raised e)) ≡ is_transient e)
      × (is_success (wrap {A = A} (raised e)) ≡ false)
unfolding wrap
is_retryable-wrap A (validation_error m) = (refl, refl)
is_retryable-wrap A (http_status_error code m) = (refl, refl)
is_retryable-wrap A (timeout_exception m) = (refl, refl)
is_retryable-wrap A (network_error m) = (refl, refl)
is_retryable-wrap A (integrity_error m) = (refl, refl)
is_retryable-wrap A (stale_investigation a b) = (refl, refl)
is_retryable-wrap A (http_exception code m) = (refl, refl)
is_retryable-wrap A (value_error m) = (refl, refl)
is_retryable-wrap A (runtime_error m) = (refl, refl)
is_retryable-wrap A (other_error m) = (refl, refl)

module _ {Raw Args A W : Type 0} (validate : Raw → Args ⊎ String)
    (run : Args → W → Result A × W) where
  pub safe_run-keeps :
      (P : W → Type 0) (raw : Raw) (w : W)
      → P w
      → ((args : Args) → P (run args w).1)
      → P (safe_run validate run raw w).1
  unfolding safe_run
  safe_run-keeps P raw w here kept = elim (sum-cases (validate raw)) [
    | inl (args, valid) ↦ rw (valid, safe_run) (kept args)
    | inr (problem, invalid) ↦ rw (invalid, safe_run) here
  ]

  -- What a caller sees of a tool: its arguments fail the check, nothing runs and the answer is a failure that
  -- is not retryable; or its `run` is run once on the checked arguments, and the answer is its value, or a
  -- failure that is retryable exactly if `run` raised a timeout or a network error.
  pub safe_run-outcome :
      (raw : Raw) (w : W)
      → ((problem : String) × (validate raw ≡ inr problem)
          × (safe_run validate run raw w ≡ (failed ("invalid args: " & problem) false, w)))
        ⊎ ((args : Args) × (validate raw ≡ inl args)
            × ((safe_run validate run raw w).1 ≡ (run args w).1)
            × (((a : A) × ((run args w).0 ≡ ok a) × ((safe_run validate run raw w).0 ≡ succeeded a))
                ⊎ ((e : Exception) × ((run args w).0 ≡ raised e)
                    × (is_success (safe_run validate run raw w).0 ≡ false)
                    × (is_retryable (safe_run validate run raw w).0 ≡ is_transient e))))
  unfolding safe_run
  safe_run-outcome raw w = elim (sum-cases (validate raw)) [
    | inr (problem, invalid) ↦ inl (problem, invalid, rw (invalid, safe_run) refl)
    | inl (args, valid) ↦ inr (
      args,
      valid,
      rw (valid, safe_run) refl,
      elim (Result-cases (run args w).0) [
        | inl (a, gives) ↦ inl (a, gives, rw (valid, gives, safe_run, wrap) refl)
        | inr (e, gives) ↦ inr (
          e,
          gives,
          rw (valid, gives, safe_run) (is_retryable-wrap A e).1,
          rw (valid, gives, safe_run) (is_retryable-wrap A e).0,
        )
      ],
    )
  ]
