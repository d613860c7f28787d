-- ===== src/Agent/Llm/Fallback.antt =====
-- backend/src/agent/llm.py, `call_llm`: which service answers.
use drift_triage_co_pilot.Prelude.{
  ℕ, ◌≡◌, refl, sym, ap, ◌∙◌, ◌⊎◌, inl, inr, Result, ok, raised, Exception, Result-cases,
}
use drift_triage_co_pilot.Tenacity.Decisive.{after_attempts, IsDecisive, attempt_up_to-IsDecisive}
use drift_triage_co_pilot.Agent.Llm.{call_gemini, call_llm}

whole : {A B : Type 0} (x : A × B) (a : A) → x.0 ≡ a → x ≡ (a, x.1)
whole x a e = rw e refl

-- Gemini is asked at most twice, the second time only after a timeout or a network error. If the attempt that stands
-- gives a model, that is the answer; on any exception of it Ollama is asked once, and its answer stands.
pub call_llm-answer :
    {M W : Type 0} (gemini ollama : W → Result M × W) (w : W)
    → (k : ℕ) × IsDecisive gemini 1 k w
      × (((model : M) × ((gemini (after_attempts gemini k w)).0 ≡ ok model)
            × (call_llm gemini ollama w ≡ gemini (after_attempts gemini k w)))
          ⊎ ((e : Exception) × ((gemini (after_attempts gemini k w)).0 ≡ raised e)
              × (call_llm gemini ollama w ≡ ollama (gemini (after_attempts gemini k w)).1)))
unfolding call_llm call_gemini
call_llm-answer gemini ollama w =
    let (k, decisive, e) = attempt_up_to-IsDecisive gemini 1 w in
    let g = call_gemini gemini w in
    (
      k,
      decisive,
      elim (Result-cases g.0) [
        | inl (model, good) ↦
            let answer : call_llm gemini ollama w ≡ (ok model, g.1) = rw (good, call_llm) refl in
            inl (model, ap (λ d. d.0) (sym e) ∙ good, answer ∙ sym (whole g (ok model) good) ∙ e)
        | inr (exc, bad) ↦
            let answer : call_llm gemini ollama w ≡ ollama g.1 = rw (bad, call_llm) refl in
            inr (exc, ap (λ d. d.0) (sym e) ∙ bad, answer ∙ ap (λ d. ollama d.1) e)
      ],
    )
