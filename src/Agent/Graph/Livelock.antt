-- ===== src/Agent/Graph/Livelock.antt =====
-- A loop of backend/src/agent/graph.py that nothing leaves: a triage that fails each time.
use drift_triage_co_pilot.Prelude.{
  ◌≡◌, ◌⊎◌, inl, inr, refl, Bool, true, false, some, List, [], ◌∷◌, raised, Exception,
  validation_error, http_status_error, timeout_exception, network_error, integrity_error,
  stale_investigation, http_exception, value_error, runtime_error, other_error, All, String, ◌&◌,
}
use drift_triage_co_pilot.Worker.Dedup.{Redis}
use drift_triage_co_pilot.Agent.Database.{status_eq}
use drift_triage_co_pilot.Agent.Tools.{inspect_drift, safe_run, wrap, failed}
use drift_triage_co_pilot.Agent.State.{NextStep, triage_agent, AgentState, World, Answers}
use drift_triage_co_pilot.Agent.Routing.{
  choose_next_step, supervisor_node, route_from_supervisor, alert_name,
}
use drift_triage_co_pilot.Agent.Nodes.{triage_agent_node}
use drift_triage_co_pilot.Drift.Report.{DriftReport}
use drift_triage_co_pilot.Agent.Graph.{Node, supervisor, node, next_node, run_node, advance, invoke}

-- The thread goes round between the supervisor and the node `n`.
abbrev pub IsBetween : NextStep → Node → Type 0
IsBetween n p = (p ≡ supervisor) ⊎ (p ≡ node n)

abbrev side : NextStep → Bool → Node
side n true = supervisor
side n false = node n

wrap-raised :
    {A : Type 0} (e : Exception)
    → (problem : String) × (retryable : Bool) × (wrap {A = A} (raised e) ≡ failed problem retryable)
unfolding wrap
wrap-raised (validation_error m) = (_, _, refl)
wrap-raised (http_status_error code m) = (_, _, refl)
wrap-raised (timeout_exception m) = (_, _, refl)
wrap-raised (network_error m) = (_, _, refl)
wrap-raised (integrity_error m) = (_, _, refl)
wrap-raised (stale_investigation a b) = (_, _, refl)
wrap-raised (http_exception code m) = (_, _, refl)
wrap-raised (value_error m) = (_, _, refl)
wrap-raised (runtime_error m) = (_, _, refl)
wrap-raised (other_error m) = (_, _, refl)

inspect_drift-raised :
    {F W : Type 0} (name : String) (e : Exception) (w : W)
    → (problem : String) × (retryable : Bool) × (inspect_drift {F = F} (raised e) name w
        ≡ (failed problem retryable, w))
unfolding inspect_drift safe_run
inspect_drift-raised String.[] e w = (_, _, refl)
inspect_drift-raised {F} (String.◌∷◌ c name) e w =
    let (problem, retryable, gives) = wrap-raised {A = DriftReport F} e in
    (problem, retryable, rw gives refl)

module _ {F : Type 0} where
  abbrev pub HasRaised : Answers F → Type 0
  HasRaised a = (e : Exception) × (a.fetch_report ≡ raised e)

  notes_do_not_route :
      (s : AgentState F) (notes : String)
      → choose_next_step (record s { triage_notes = notes }) ≡ choose_next_step s
  unfolding choose_next_step
  notes_do_not_route s notes = refl

  next_step_does_not_route :
      (s : AgentState F) (n : NextStep)
      → choose_next_step (record s { next_step = some n }) ≡ choose_next_step s
  unfolding choose_next_step
  next_step_does_not_route s n = refl

  module _ {S : Type 0} ⦃r : Redis S⦄ where
    triage-notes :
        (a : Answers F) (s : AgentState F) (w : World S)
        → HasRaised a
        → (notes : String) × ((triage_agent_node a s w).0 ≡ record s { triage_notes = notes })
    unfolding triage_agent_node
    triage-notes a s w (e, fault) =
        let (problem, retryable, gives) = inspect_drift-raised {F = F} (alert_name s) e w in
        ("inspect_drift failed: " & problem, rw (fault, gives) refl)

    between :
        (answers : List (Answers F)) (entry : Bool) (s : AgentState F) (w : World S)
        → choose_next_step s ≡ triage_agent
        → All HasRaised answers
        → IsBetween triage_agent
            (invoke answers (record { pending = side triage_agent entry; state = s }) w).0.pending
    unfolding invoke advance run_node next_node route_from_supervisor supervisor_node
    between [] true s w here fails = inl refl
    between [] false s w here fails = inr refl
    between (a ∷ rest) true s w here fails = rw here (
        between rest false (record s { next_step = some triage_agent }) w
          (rw (next_step_does_not_route s triage_agent) here) fails.1)
    between (a ∷ rest) false s w here fails =
        let (notes, gives) = triage-notes a s w fails.0 in
        between rest true (triage_agent_node a s w).0 (triage_agent_node a s w).1
          (rw (gives, notes_do_not_route s notes) here) fails.1

    -- While the drift service fails, the thread of a fresh investigation never ends: whatever the number of
    -- node runs, it stands at the supervisor or at the triage agent.
    pub invoke-triage_loop :
        (answers : List (Answers F)) (s : AgentState F) (w : World S)
        → choose_next_step s ≡ triage_agent
        → All HasRaised answers
        → IsBetween triage_agent
            (invoke answers (record { pending = supervisor; state = s }) w).0.pending
    invoke-triage_loop answers s w here fails = between answers true s w here fails
