-- ===== src/Agent/Graph/Approval.antt =====
-- The human approval of backend/src/agent/graph.py: what a run of the graph may enqueue without one.
use drift_triage_co_pilot.Prelude.{
  ℕ, ◌≡◌, sym, ap, ◌∙◌, subst, inl, inr, refl, Bool, true, false, not, ◌&&◌, ◌||◌, String, Option,
  none, some, List, [], ◌∷◌, ◌==◌, string_eq, nat_eq, option_eq, find_first, All, All-append,
  Bool-cases, Option-cases, Exception, arith,
}
use drift_triage_co_pilot.Worker.Dedup.{
  Action, no_action, replay_test, retrain, rollback, Redis, Broker, action_eq,
}
use drift_triage_co_pilot.Agent.Database.{
  HilApproval, approved, Database, approval_is, approval_status_eq, investigation_is,
  insert_approval, update_investigation,
}
use drift_triage_co_pilot.Agent.Tools.{
  RequestHilInput, validate_request, safe_run, wrap, inspect_drift, propose_action,
  run_propose_action, run_request_hil, update_dashboard, compose_summary,
}
use drift_triage_co_pilot.Agent.Tools.SafeRun.{safe_run-keeps}
use drift_triage_co_pilot.Agent.Tools as Tools
use drift_triage_co_pilot.Agent.State.{
  triage_agent, action_agent, request_hil, pause_for_human, dispatch, comms_agent, end, AgentState,
  World, Answers,
}
use drift_triage_co_pilot.Agent.Routing.{supervisor_node, proposes_action, alert_version}
use drift_triage_co_pilot.Agent.Nodes.{
  action_agent_node, triage_agent_node, request_hil_node, pause_for_human_node, approval_is_valid,
  row_is_valid, approval_rationale,
}
use drift_triage_co_pilot.Agent.Dispatch.{dispatch_node, comms_agent_node}
use drift_triage_co_pilot.Agent.Graph.{
  Node, supervisor, node, Thread, is_interrupted, is_ended, run_node, advance, invoke, resume,
}

-- The row is no approval of the investigation.
abbrev pub approves_not : String → HilApproval → Bool
approves_not investigation_id row =
    not (row.status == approved && row.investigation_id == investigation_id)

abbrev pub HasNoApproval : String → Database → Type 0
HasNoApproval investigation_id db =
    All (λ row. approves_not investigation_id row ≡ true) db.hil_approvals

find-approves_not :
    (id investigation_id : String) (action : Action) (version : ℕ) (rows : List HilApproval)
    → All (λ row. approves_not investigation_id row ≡ true) rows
    → row_is_valid action version (find_first (approval_is id investigation_id) rows) ≡ false
find-approves_not id investigation_id act version [] none_yet = refl
find-approves_not id investigation_id act version (row ∷ rows) none_yet =
    elim (Bool-cases (approval_is id investigation_id row)) [
      | inl found ↦ rw (found, row_is_valid) (ground (arith, found, none_yet.0))
      | inr other ↦
          rw (other, row_is_valid)
            (find-approves_not id investigation_id act version rows none_yet.1)
    ]

run-HasNoApproval :
    (approval_id : String) (fault : Option Exception) (args : RequestHilInput) (db : Database)
    (id : String)
    → HasNoApproval id db
    → HasNoApproval id (run_request_hil approval_id fault args db).1
unfolding run_request_hil insert_approval
run-HasNoApproval approval_id (some e) args db id none_yet = none_yet
run-HasNoApproval approval_id none args db id none_yet =
    elim (Option-cases (find_first (investigation_is args.investigation_id) db.investigations)) [
      | inl absent ↦ rw (absent, run_request_hil) none_yet
      | inr (row, found) ↦
          rw (found, run_request_hil)
            (All-append (λ row. approves_not id row ≡ true) db.hil_approvals _ none_yet (refl, tt))
    ]

asked-HasNoApproval :
    (approval_id : String) (fault : Option Exception) (args : RequestHilInput) (db : Database)
    (id : String)
    → HasNoApproval id db
    → HasNoApproval id (Tools.request_hil approval_id fault args db).1
unfolding Tools.request_hil
asked-HasNoApproval approval_id fault args db id none_yet =
    safe_run-keeps validate_request (run_request_hil approval_id fault) (HasNoApproval id) args db
      none_yet (λ input. run-HasNoApproval approval_id fault input db id none_yet)

module _ {F : Type 0} where
  -- What is to be dispatched needs an approval.
  abbrev pub is_guarded : AgentState F → Bool
  is_guarded s = not (proposes_action s.proposed_action) || s.requires_hil

  approval-HasNoApproval :
      (s : AgentState F) (db : Database)
      → HasNoApproval s.investigation_id db
      → approval_is_valid s db ≡ false
  unfolding approval_is_valid
  approval-HasNoApproval s db none_yet = elim (Option-cases s.proposed_action) [
    | inl nothing ↦ rw nothing refl
    | inr (act, proposed) ↦ elim (Option-cases s.hil_approval_id) [
      | inl nothing ↦ rw (proposed, nothing) refl
      | inr (id, asked) ↦
          rw (proposed, asked)
            (ground (
              arith,
              find-approves_not id s.investigation_id act (alert_version s) db.hil_approvals
                  none_yet,
            ))
    ]
  ]

  pub action-keeps :
      (s : AgentState F)
      → is_guarded s ≡ true
      → (is_guarded (action_agent_node s) ≡ true)
        × ((action_agent_node s).investigation_id ≡ s.investigation_id)
  unfolding action_agent_node propose_action run_propose_action safe_run wrap
  action-keeps s guarded = ground arith

  abbrev request_of : Action → AgentState F → RequestHilInput
  request_of act s = record {
    investigation_id = s.investigation_id;
    action = act;
    rationale = approval_rationale s;
    model_version = alert_version s;
  }

  module _ {S : Type 0} ⦃r : Redis S⦄ where
    -- The investigation `id` stands without an approval, and the queue is `b`.
    abbrev IsQuiet : String → Broker S → AgentState F → World S → Type 0
    IsQuiet id b s w =
        (s.investigation_id ≡ id)
        × (is_guarded s ≡ true)
        × HasNoApproval id w.database
        × (w.broker ≡ b)

    pub dispatch-IsQuiet :
        (a : Answers F) (s : AgentState F) (w : World S)
        → is_guarded s ≡ true
        → HasNoApproval s.investigation_id w.database
        → ((dispatch_node a s w).1 ≡ w)
          × (is_guarded (dispatch_node a s w).0 ≡ true)
          × ((dispatch_node a s w).0.investigation_id ≡ s.investigation_id)
    unfolding dispatch_node
    dispatch-IsQuiet a s w guarded none_yet =
        let invalid = approval-HasNoApproval s w.database none_yet in ground (arith, invalid)

    pub triage-keeps :
        (a : Answers F) (s : AgentState F) (w : World S)
        → is_guarded s ≡ true
        → ((triage_agent_node a s w).1 ≡ w)
          × (is_guarded (triage_agent_node a s w).0 ≡ true)
          × ((triage_agent_node a s w).0.investigation_id ≡ s.investigation_id)
    unfolding triage_agent_node inspect_drift safe_run wrap
    triage-keeps a s w guarded = ground arith

    pub pause-keeps :
        (s : AgentState F) (w : World S)
        → is_guarded s ≡ true
        → (is_guarded (pause_for_human_node s w) ≡ true)
          × ((pause_for_human_node s w).investigation_id ≡ s.investigation_id)
    unfolding pause_for_human_node
    pause-keeps s w guarded = ground arith

    pub request-keeps :
        (a : Answers F) (s : AgentState F) (w : World S)
        → is_guarded s ≡ true
        → ((request_hil_node a s w).1.broker ≡ w.broker)
          × (is_guarded (request_hil_node a s w).0 ≡ true)
          × ((request_hil_node a s w).0.investigation_id ≡ s.investigation_id)
    unfolding request_hil_node
    request-keeps a s w guarded = ground arith

    pub comms-keeps :
        (a : Answers F) (s : AgentState F) (w : World S)
        → is_guarded s ≡ true
        → ((comms_agent_node a s w).1.broker ≡ w.broker)
          × ((comms_agent_node a s w).1.database.hil_approvals ≡ w.database.hil_approvals)
          × (is_guarded (comms_agent_node a s w).0 ≡ true)
          × ((comms_agent_node a s w).0.investigation_id ≡ s.investigation_id)
    unfolding comms_agent_node compose_summary update_dashboard update_investigation
    comms-keeps a s w guarded = ground arith

    -- The request that is inserted is pending.
    pub request-HasNoApproval :
        (a : Answers F) (s : AgentState F) (w : World S) (id : String)
        → HasNoApproval id w.database
        → HasNoApproval id (request_hil_node a s w).1.database
    unfolding request_hil_node Tools.request_hil safe_run run_request_hil insert_approval
    request-HasNoApproval a s w id none_yet = elim (Option-cases s.proposed_action) [
      | inl nothing ↦ rw (nothing, request_hil_node) none_yet
      | inr (no_action, proposed) ↦ rw (proposed, request_hil_node) none_yet
      | inr (replay_test, proposed) ↦
          rw (proposed, request_hil_node)
            (asked-HasNoApproval a.approval_id a.insert_fault (request_of replay_test s) w.database
              id none_yet)
      | inr (retrain, proposed) ↦
          rw (proposed, request_hil_node)
            (asked-HasNoApproval a.approval_id a.insert_fault (request_of retrain s) w.database id
              none_yet)
      | inr (rollback, proposed) ↦
          rw (proposed, request_hil_node)
            (asked-HasNoApproval a.approval_id a.insert_fault (request_of rollback s) w.database id
              none_yet)
    ]

    pub node-IsQuiet :
        (p : Node) (a : Answers F) (s : AgentState F) (w : World S) (id : String) (b : Broker S)
        → IsQuiet id b s w
        → IsQuiet id b (run_node a p s w).0 (run_node a p s w).1
    unfolding run_node supervisor_node
    node-IsQuiet supervisor a s w id b quiet = quiet
    node-IsQuiet (node triage_agent) a s w id b (same, guarded, none_yet, queue) =
        let (world, guarded', same') = triage-keeps a s w guarded in
        (
          same' ∙ same,
          guarded',
          subst (λ v. HasNoApproval id v.database) (sym world) none_yet,
          ap (λ v. v.broker) world ∙ queue,
        )
    node-IsQuiet (node action_agent) a s w id b (same, guarded, none_yet, queue) =
        let (guarded', same') = action-keeps s guarded in (same' ∙ same, guarded', none_yet, queue)
    node-IsQuiet (node request_hil) a s w id b (same, guarded, none_yet, queue) =
        let (broker, guarded', same') = request-keeps a s w guarded in
        (same' ∙ same, guarded', request-HasNoApproval a s w id none_yet, broker ∙ queue)
    node-IsQuiet (node pause_for_human) a s w id b (same, guarded, none_yet, queue) =
        let (guarded', same') = pause-keeps s w guarded in (same' ∙ same, guarded', none_yet, queue)
    node-IsQuiet (node dispatch) a s w id b (same, guarded, none_yet, queue) =
        let (world, guarded', same') =
          dispatch-IsQuiet a s w guarded
            (subst (λ x. HasNoApproval x w.database) (sym same) none_yet) in
        (
          same' ∙ same,
          guarded',
          subst (λ v. HasNoApproval id v.database) (sym world) none_yet,
          ap (λ v. v.broker) world ∙ queue,
        )
    node-IsQuiet (node comms_agent) a s w id b (same, guarded, none_yet, queue) =
        let (broker, rows, guarded', same') = comms-keeps a s w guarded in
        (
          same' ∙ same,
          guarded',
          subst (λ v. All (λ row. approves_not id row ≡ true) v) (sym rows) none_yet,
          broker ∙ queue,
        )
    node-IsQuiet (node end) a s w id b quiet = quiet

    invoke-IsQuiet :
        (answers : List (Answers F)) (t : Thread F) (w : World S) (id : String) (b : Broker S)
        → IsQuiet id b t.state w
        → IsQuiet id b (invoke answers t w).0.state (invoke answers t w).1
    unfolding invoke advance
    invoke-IsQuiet [] t w id b quiet = quiet
    invoke-IsQuiet (a ∷ rest) t w id b quiet =
        let onward =
          invoke-IsQuiet rest (advance a t w).0 (advance a t w).1 id b
            (node-IsQuiet t.pending a t.state w id b quiet) in
        elim (Bool-cases (is_ended t.pending)) [
          | inl over ↦ rw (over, invoke) quiet
          | inr goes ↦ elim (Bool-cases (is_interrupted t.pending)) [
            | inl waits ↦ rw (goes, waits, invoke) quiet
            | inr runs ↦ rw (goes, runs, invoke) onward
          ]
        ]

    resume-broker :
        (answers : List (Answers F)) (t : Thread F) (w : World S)
        → is_guarded t.state ≡ true
        → HasNoApproval t.state.investigation_id w.database
        → (resume answers t w).1.broker ≡ w.broker
    unfolding resume advance
    resume-broker [] t w guarded none_yet = refl
    resume-broker (a ∷ rest) t w guarded none_yet =
        let quiet = invoke-IsQuiet rest (advance a t w).0 (advance a t w).1 _ _ (
          node-IsQuiet t.pending a t.state w t.state.investigation_id w.broker
            (refl, guarded, none_yet, refl)) in
        elim (Bool-cases (is_interrupted t.pending)) [
          | inl waits ↦ rw (waits, resume) quiet.3
          | inr runs ↦ rw (runs, resume) refl
        ]

    -- However many nodes run, and whatever the LLM, the drift service, MLflow and the faults are: while
    -- `hil_approvals` holds no approved row of the investigation, and its state does not propose an action
    -- without asking for approval, neither a run nor a resumption of the thread changes the queue or the keys,
    -- and a run gives the investigation no approved row.
    pub invoke-needs_approval :
        (answers : List (Answers F)) (t : Thread F) (w : World S)
        → is_guarded t.state ≡ true
        → HasNoApproval t.state.investigation_id w.database
        → ((invoke answers t w).1.broker ≡ w.broker)
          × ((resume answers t w).1.broker ≡ w.broker)
          × HasNoApproval t.state.investigation_id (invoke answers t w).1.database
    invoke-needs_approval answers t w guarded none_yet =
        let (same, guarded', none', queue) =
          invoke-IsQuiet answers t w _ _ (refl, guarded, none_yet, refl) in
        (queue, resume-broker answers t w guarded none_yet, none')
