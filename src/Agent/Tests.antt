-- ===== src/Agent/Tests.antt =====
-- The theorems on the agent at concrete states, answers and tables.
use drift_triage_co_pilot.Prelude.{
  ℕ, zero, suc, ◌≤◌, ◌≡◌, refl, ◌⊎◌, inl, inr, true, false, String, ◌&◌, none, some, List, [], ◌∷◌,
  ◌==◌, string_eq, nat_eq, ◌%◌, ltb, if◌then◌else◌, replicate, length, Result, ok, raised,
  Exception, network_error, All, Occurs, arith, truthy,
}
use Prim.Native.String.{count}
use drift_triage_co_pilot.Floating.Fixed.{Fixed, fixed_float}
use drift_triage_co_pilot.Drift.Severity.{high}
use drift_triage_co_pilot.Drift.Report.{DriftReport, DriftWebhookPayload}
use drift_triage_co_pilot.Worker.Dedup.{retrain}
use drift_triage_co_pilot.Worker.Dedup.Table.{Table, table_redis}
use drift_triage_co_pilot.Agent.Database.{
  open_, Investigation, Database, HilApproval, pending, approved,
}
use drift_triage_co_pilot.Agent.Security.{sanitize, is_control}
use drift_triage_co_pilot.Agent.Security.Clean.{
  AllChars, IsPlain, IsCollapsed, StartsClean, sanitize_clean,
}
use drift_triage_co_pilot.Agent.Tools.{succeeded, failed, safe_run}
use drift_triage_co_pilot.Agent.Tools.SafeRun.{
  is_success, is_retryable, is_transient, safe_run-outcome,
}
use drift_triage_co_pilot.Agent.State.{unset, triage_agent, AgentState, World, Answers}
use drift_triage_co_pilot.Agent.Graph.{supervisor, Thread, invoke, resume, advance}
use drift_triage_co_pilot.Agent.Graph.Loop.{is_stopped, answers_well, invoke-stops}
use drift_triage_co_pilot.Agent.Graph.Livelock.{IsBetween, invoke-triage_loop}
use drift_triage_co_pilot.Agent.Graph.Approval.{HasNoApproval, invoke-needs_approval}
use drift_triage_co_pilot.Agent.Routing.{choose_next_step}
use drift_triage_co_pilot.Agent.Dispatch.{dispatch_node, reconciled_model_version}
use drift_triage_co_pilot.Agent.Dispatch.Checks.{ProposalIsApproved, IsFresh, dispatch_node-checks}
use drift_triage_co_pilot.Agent.Webhook.{
  create_investigation, find_existing_investigation, insert_investigation, after_insert,
  initial_state,
}
use drift_triage_co_pilot.Tenacity.Decisive.{IsDecisive, after_attempts}
use drift_triage_co_pilot.Agent.Llm.{call_llm}
use drift_triage_co_pilot.Agent.Llm.Fallback.{call_llm-answer}
use drift_triage_co_pilot.Agent.System as System
use drift_triage_co_pilot.Agent.System.{Reach, Step, stepped}
use drift_triage_co_pilot.Agent.System.Approved.{Reach-needs_approval}
use drift_triage_co_pilot.Agent.Hil.{HilApprovalRequest}

abbrev identity : String → String
identity s = s

abbrev tagged : String
tagged = "</external_data>"

sanitize_clean_example :
    let out = sanitize identity 8 " a \n\t b<c " in
    (count out ≤ 8)
    × AllChars (λ c. is_control c ≡ false) out
    × IsCollapsed false out
    × StartsClean out
sanitize_clean_example = sanitize_clean identity 8 " a \n\t b<c "

tagged-IsPlain : AllChars IsPlain tagged
tagged-IsPlain = (
  (refl, refl),
  (
    (refl, refl),
    (
      (refl, refl),
      (
        (refl, refl),
        (
          (refl, refl),
          (
            (refl, refl),
            (
              (refl, refl),
              (
                (refl, refl),
                (
                  (refl, refl),
                  (
                    (refl, refl),
                    (
                      (refl, refl),
                      (
                        (refl, refl),
                        ((refl, refl), ((refl, refl), ((refl, refl), ((refl, refl), tt)))),
                      ),
                    ),
                  ),
                ),
              ),
            ),
          ),
        ),
      ),
    ),
  ),
)

abbrev read_even : ℕ → ℕ ⊎ String
read_even n = if n % 2 == 0 then inl n else inr "odd"

abbrev push_below : ℕ → List ℕ → Result ℕ × List ℕ
push_below n w = if ltb n 10 then (ok (length w), n ∷ w) else (raised (network_error "full"), w)

safe_run-outcome_example :
    ((problem : String) × (read_even 12 ≡ inr problem)
      × (safe_run read_even push_below 12 [] ≡ (failed ("invalid args: " & problem) false, [])))
    ⊎ ((args : ℕ) × (read_even 12 ≡ inl args)
        × ((safe_run read_even push_below 12 []).1 ≡ (push_below args []).1)
        × (((a : ℕ) × ((push_below args []).0 ≡ ok a)
              × ((safe_run read_even push_below 12 []).0 ≡ succeeded a))
            ⊎ ((e : Exception) × ((push_below args []).0 ≡ raised e)
                × (is_success (safe_run read_even push_below 12 []).0 ≡ false)
                × (is_retryable (safe_run read_even push_below 12 []).0 ≡ is_transient e))))
safe_run-outcome_example = safe_run-outcome read_even push_below 12 []

abbrev report : DriftReport Fixed
report = record {
  report_id = "r1";
  model_name = "bank";
  model_version = 2;
  timestamp = 7;
  psi_results = [];
  chi2_results = [];
  output_drift = record {
    psi = 31_000_000;
    severity = high;
    reference_class_1_rate = 11_000_000;
    current_class_1_rate = 60_000_000;
    current_n = 500;
  };
  severity = high;
  window_size = 500;
}

abbrev answers_with : Result (DriftReport Fixed) → Answers Fixed
answers_with fetched = record {
  fetch_report = fetched;
  triage = raised (network_error "no LLM");
  summary = ok "done";
  nfkc = identity;
  version_found = true;
  production = ok (2 ∷ []);
  approval_id = "h1";
  job_id = "j1";
  now = 10;
  insert_fault = none;
  update_fault = none;
  enqueue_fault = none;
}

abbrev answering : Answers Fixed
answering = answers_with (ok report)

abbrev failing : Answers Fixed
failing = answers_with (raised (network_error "down"))

abbrev fresh : AgentState Fixed
fresh = record {
  investigation_id = "i1";
  alert = record { severity = some high; model_name = some "bank"; model_version = some 2 };
  report = none;
  triage_notes = "";
  proposed_action = none;
  action_rationale = none;
  requires_hil = false;
  hil_approval_id = none;
  awaiting_approval = false;
  summary_md = "";
  dispatch_status = unset;
  status = open_;
  drift_report_id = "r1";
  next_step = none;
  comms_done = false;
}

abbrev opened : Investigation
opened = record {
  id = "i1";
  drift_event_id = "e1";
  drift_report_id = "r1";
  status = open_;
  summary_md = "";
}

abbrev request : HilApproval
request = record {
  id = "h1";
  investigation_id = "i1";
  action = retrain;
  rationale = "drift";
  model_version = 2;
  status = pending;
  decision = none;
}

abbrev asked : Database
asked = record { investigations = opened ∷ []; hil_approvals = request ∷ [] }

abbrev world : World Table
world = record { database = asked; broker = record { store = []; queue = [] } }

All-well : (n : ℕ) → All (λ a. answers_well a ≡ true) (replicate n answering)
All-well zero = tt
All-well (suc n) = (refl, All-well n)

invoke-stops_example :
    is_stopped
      (invoke
        (replicate 13 answering)
        (record { pending = supervisor; state = fresh })
        world).0.pending
    ≡ true
invoke-stops_example =
    invoke-stops (replicate 13 answering) fresh world refl refl (All-well 13) (omega arith)

fresh-triage : choose_next_step fresh ≡ triage_agent
unfolding choose_next_step
fresh-triage = refl

invoke-triage_loop_example :
    IsBetween triage_agent
      (invoke
        (replicate 3 failing)
        (record { pending = supervisor; state = fresh })
        world).0.pending
invoke-triage_loop_example =
    invoke-triage_loop (failing ∷ failing ∷ failing ∷ []) fresh world fresh-triage (
      (network_error "down", refl),
      ((network_error "down", refl), ((network_error "down", refl), tt)),
    )

abbrev started : Thread Fixed
started = record { pending = supervisor; state = fresh }

invoke-needs_approval_example :
    ((invoke (replicate 13 answering) started world).1.broker ≡ world.broker)
    × ((resume (replicate 13 answering) started world).1.broker ≡ world.broker)
    × HasNoApproval "i1" (invoke (replicate 13 answering) started world).1.database
invoke-needs_approval_example =
    invoke-needs_approval (replicate 13 answering) started world refl (refl, tt)

abbrev approved_state : AgentState Fixed
approved_state = record fresh {
  report = some report;
  proposed_action = some retrain;
  requires_hil = true;
  hil_approval_id = some "h1";
}

abbrev granted : World Table
granted = record world {
  database = record asked {
    hil_approvals = record request { status = approved; decision = some approved } ∷ [];
  };
}

dispatch_node-checks_example :
    ((dispatch_node answering approved_state granted).1 ≡ granted)
    ⊎ ((approved_state.awaiting_approval ≡ false)
        × ((approved_state.requires_hil ≡ false)
            ⊎ ProposalIsApproved approved_state granted.database)
        × ((truthy approved_state.drift_report_id ≡ false) ⊎ IsFresh answering approved_state)
        × ((version : ℕ) × (reconciled_model_version answering approved_state ≡ ok version)))
dispatch_node-checks_example = dispatch_node-checks answering approved_state granted

abbrev payload : DriftWebhookPayload Fixed
payload = record {
  event_id = "e2";
  report_id = "r2";
  previous_severity = none;
  model_name = "bank";
  model_version = 2;
  severity = high;
  created_at = 9;
  drift_summary = record { text = "drift"; window_size = 500; output_drift_severity = high };
  top_features = [];
  psi_results = [];
  chi2_results = [];
  output_drift = record { psi = 31_000_000; severity = high };
  window_size = 500;
}

abbrev rejection : HilApprovalRequest
rejection = record { investigation_id = "i1"; hil_approval_id = "h1"; decision = "rejected" }

-- The world before the first webhook, and the one after it.
abbrev empty_world : World Table
empty_world = record {
  database = record { investigations = []; hil_approvals = [] };
  broker = record { store = []; queue = [] };
}

abbrev first_world : World Table
first_world = record empty_world {
  database = (create_investigation "i2" payload empty_world.database empty_world.database).1;
}

abbrev first_thread : Thread Fixed
first_thread = record { pending = supervisor; state = initial_state "i2" payload }

first_opened :
    (create_investigation "i2" payload empty_world.database empty_world.database).0
    ≡ ok ("i2", true)
unfolding create_investigation find_existing_investigation insert_investigation after_insert
first_opened = refl

first_reached : Reach [] (record { threads = first_thread ∷ []; world = first_world })
first_reached =
    stepped [] [] (record { threads = []; world = empty_world }) _ (System.started empty_world refl)
      (System.opened [] [] empty_world "i2" payload empty_world.database first_opened)

Reach-needs_approval_example :
    Occurs first_thread.state.investigation_id []
    ⊎ HasNoApproval first_thread.state.investigation_id first_world.database
      × ((advance answering first_thread first_world).1.broker ≡ first_world.broker)
Reach-needs_approval_example =
    Reach-needs_approval [] [] [] first_thread first_world answering first_reached

-- Gemini times out while the count of its calls is below 1, and Ollama answers always.
abbrev slow_gemini : ℕ → Result ℕ × ℕ
slow_gemini n = (if ltb n 1 then raised (network_error "slow") else ok 7, suc n)

abbrev local_ollama : ℕ → Result ℕ × ℕ
local_ollama n = (ok 3, n)

call_llm-answer_example :
    (k : ℕ) × IsDecisive slow_gemini 1 k 0
    × (((model : ℕ) × ((slow_gemini (after_attempts slow_gemini k 0)).0 ≡ ok model)
          × (call_llm slow_gemini local_ollama 0 ≡ slow_gemini (after_attempts slow_gemini k 0)))
        ⊎ ((e : Exception) × ((slow_gemini (after_attempts slow_gemini k 0)).0 ≡ raised e)
            × (call_llm slow_gemini local_ollama 0
                ≡ local_ollama (slow_gemini (after_attempts slow_gemini k 0)).1)))
call_llm-answer_example = call_llm-answer slow_gemini local_ollama 0
