-- ===== src/Agent/Dispatch.antt =====
-- The dispatch and the comms nodes of backend/src/agent/graph.py. A node takes the answers of its calls, the
-- state and the world, and gives the new state and the new world. Prompts and log lines are left out.
pub mod Checks
use mathlib.Core.Option
use drift_triage_co_pilot.Prelude.{
  ℕ, Bool, true, false, not, ◌&&◌, ◌||◌, String, ◌&◌, truthy, or_text, str_int, Option, none, some,
  List, [], ◌∷◌, ◌==◌, string_eq, nat_eq, option_eq, if◌then◌else◌, take, map, filter_by,
  find_first, Result, ok, raised, Equality,
}
use drift_triage_co_pilot.Drift.Severity.{
  Severity, low, medium, high, severity_text, is_medium_or_high, severity_eq,
}
use drift_triage_co_pilot.Drift.Report.{DriftReport}
use drift_triage_co_pilot.Worker.Dedup.{
  Action, replay_test, retrain, rollback, no_action, action_text, action_eq, Redis, EnqueueResult,
  Broker,
}
use drift_triage_co_pilot.Worker.Dedup as Queue
use drift_triage_co_pilot.Agent.Database.{
  Status, open_, awaiting_approval, resolved, status_eq, approval_status_eq, HilApproval,
  ApprovalStatus, pending, approved, rejected, approval_is, Database,
}
use drift_triage_co_pilot.Agent.Tools.{
  ToolResult, succeeded, failed, str_exception, inspect_drift, ProposeActionOutput, propose_action,
  is_dispatchable, dispatch_action, compose_summary, update_dashboard,
}
use drift_triage_co_pilot.Agent.Tools as Tools
use drift_triage_co_pilot.Agent.Staleness.{assert_not_stale, reconcile_model_uri}
use drift_triage_co_pilot.Agent.Routing.{
  has_text, is_set, is_some, proposes_action, severity_or, alert_version, alert_name,
}
use drift_triage_co_pilot.Agent.Nodes.{approval_is_valid}
use drift_triage_co_pilot.Agent.State.{
  NextStep, triage_agent, action_agent, request_hil, pause_for_human, dispatch, comms_agent, end,
  DispatchStatus, unset, enqueued, deduplicated, blocked, error, Alert, AgentState, TriageOutput,
  World, Answers,
}

abbrev pub status_text : DispatchStatus → String
status_text unset = "pending"
status_text enqueued = "enqueued"
status_text deduplicated = "deduplicated"
status_text blocked = "blocked"
status_text error = "error"

abbrev result_status : ToolResult EnqueueResult → DispatchStatus
result_status (failed _ _) = error
result_status (succeeded r) = elim r.status [
  | Queue.enqueued ↦ enqueued
  | Queue.deduplicated ↦ deduplicated
]

module _ {F : Type 0} where
  -- `_build_metadata_prefix`
  unfoldable pub build_metadata_prefix : AgentState F → String
  build_metadata_prefix s =
      "severity="
      & elim s.alert.severity [ none ↦ "unknown" | some v ↦ severity_text v ]
      & ", model_name="
      & Option.get_or s.alert.model_name "unknown"
      & ", model_version="
      & elim s.alert.model_version [ none ↦ "unknown" | some v ↦ str_int v ]
      & ", action="
      & action_text (Option.get_or s.proposed_action no_action)
      & ", dispatch="
      & status_text s.dispatch_status
      & "\n\n"

  summary_body : AgentState F → ToolResult String → String
  summary_body s (succeeded text) = text
  summary_body s (failed _ _) =
      "**Triage notes**: "
      & or_text s.triage_notes "N/A"
      & "\n\n_LLM summary generation was unavailable; this is a system-generated summary._"

  unfoldable pub comms_agent_node :
      {S : Type 0} → Answers F → AgentState F → World S → AgentState F × World S
  unfolding build_metadata_prefix summary_body compose_summary update_dashboard
  comms_agent_node a s w = elim s.report [
    | none ↦ (record s { comms_done = true }, w)
    | some _ ↦
        let (result, w') = compose_summary a.nfkc a.summary w in
        let summary_md = build_metadata_prefix s & summary_body s result in
        (
          record s { summary_md = summary_md; comms_done = true },
          record w' {
            database =
                update_dashboard a.update_fault s.investigation_id summary_md s.status w'.database;
          },
        )
  ]

  -- `_freshness_error`: the text of the error, if the dispatch is to be blocked.
  freshness_with : AgentState F → ToolResult (DriftReport F) → Option String
  freshness_with s (failed problem _) =
      some ("Could not refresh drift report before dispatch: " & problem)
  freshness_with s (succeeded current) =
      if not (s.drift_report_id == current.report_id) && s.alert.severity == some current.severity
      then none
      else elim (assert_not_stale s.drift_report_id current) [
        | ok _ ↦ none
        | raised e ↦ some (str_exception e)
      ]

  unfoldable pub freshness_error : Answers F → AgentState F → Option String
  unfolding freshness_with inspect_drift assert_not_stale str_exception
  freshness_error a s =
      let result : ToolResult (DriftReport F) × Unit {0} =
        inspect_drift a.fetch_report (alert_name s) tt in
      if truthy s.drift_report_id then freshness_with s result.0 else none

  -- `_reconciled_model_version`
  unfoldable pub reconciled_model_version : Answers F → AgentState F → Result ℕ
  unfolding reconcile_model_uri
  reconciled_model_version a s =
      if truthy (alert_name s)
      then reconcile_model_uri a.version_found a.production (alert_name s) (alert_version s)
      else ok (alert_version s)

  unfoldable pub block : String → AgentState F → AgentState F
  block problem s = record s { dispatch_status = blocked; status = resolved; summary_md = problem }

  module _ {S : Type 0} ⦃r : Redis S⦄ where
    -- The call of the dispatch tool, once every check has passed.
    unfoldable pub enqueue_action :
        Answers F → Action → ℕ → AgentState F → World S → AgentState F × World S
    enqueue_action a action model_version s w =
        let (result, broker) =
          dispatch_action a.job_id a.now a.enqueue_fault
            (record {
              investigation_id = s.investigation_id;
              action = action;
              hil_approval_id = Option.get_or s.hil_approval_id "";
              model_version = model_version;
            })
            w.broker in
        (
          record s { dispatch_status = result_status result; status = resolved },
          record w { broker = broker },
        )

    dispatch_checked : Answers F → Action → AgentState F → World S → AgentState F × World S
    unfolding enqueue_action block
    dispatch_checked a action s w = elim (freshness_error a s) [
      | some problem ↦ (block problem s, w)
      | none ↦ elim (reconciled_model_version a s) [
        | raised e ↦ (
          block ("Dispatch blocked because model version reconciliation failed: " & str_exception e)
              s,
          w,
        )
        | ok version ↦ enqueue_action a action version s w
      ]
    ]

    unfoldable pub dispatch_node : Answers F → AgentState F → World S → AgentState F × World S
    unfolding dispatch_checked block
    dispatch_node a s w = elim s.proposed_action [
      | none ↦ (s, w)
      | some no_action ↦ (s, w)
      | some other ↦
          if s.awaiting_approval
          then (s, w)
          else if s.requires_hil && not (approval_is_valid s w.database)
          then (block "Dispatch blocked because HIL approval is invalid." s, w)
          else dispatch_checked a other s w
    ]
