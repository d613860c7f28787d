-- ===== src/Agent/Llm.antt =====
-- backend/src/agent/llm.py: Gemini first, then Ollama. A call of either service is a parameter: it answers with the
-- validated model `M` or with what it or the validation raises.
pub mod Fallback
use drift_triage_co_pilot.Prelude.{Result, ok, raised}
use drift_triage_co_pilot.Tenacity.{attempt_up_to}

module _ {M W : Type 0} where
  -- `_call_gemini`: `stop_after_attempt(2)`
  unfoldable pub call_gemini : (W → Result M × W) → W → Result M × W
  unfolding attempt_up_to
  call_gemini gemini w = attempt_up_to 1 gemini w

  unfoldable pub call_llm : (gemini ollama : W → Result M × W) → W → Result M × W
  unfolding call_gemini
  call_llm gemini ollama w = elim (call_gemini gemini w).0 [
    | ok model ↦ (ok model, (call_gemini gemini w).1)
    | raised e ↦ ollama (call_gemini gemini w).1
  ]
