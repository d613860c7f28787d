-- ===== src/Tenacity.antt =====
-- The decorator `@retry` as backend/src/service/routers/drift.py and backend/src/agent/llm.py configure it: a call on the
-- state `W` of the network is tried again after a timeout or a network error.
pub mod Decisive
use drift_triage_co_pilot.Prelude.{
  ℕ, zero, suc, Bool, true, false, Result, ok, raised, Exception, timeout_exception, network_error,
}

-- `retry_if_exception_type((httpx.TimeoutException, httpx.NetworkError))`
abbrev pub is_transient : Exception → Bool
is_transient (timeout_exception _) = true
is_transient (network_error _) = true
is_transient other = false

abbrev pub asks_retry : {A : Type 0} → Result A → Bool
asks_retry (ok _) = false
asks_retry (raised e) = is_transient e

-- A call under `@retry`, with `more` attempts left after the first; the last exception is raised again.
unfoldable pub attempt_up_to : {A W : Type 0} (more : ℕ) → (W → Result A × W) → W → Result A × W
attempt_up_to zero call w = call w
attempt_up_to (suc more) call w =
    let onward = attempt_up_to more call (call w).1 in
    elim (asks_retry (call w).0) [ true ↦ onward | false ↦ call w ]
