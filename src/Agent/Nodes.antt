-- ===== src/Agent/Nodes.antt =====
-- The nodes of backend/src/agent/graph.py. A node takes the answers of its calls, the
-- state and the world, and gives the new state and the new world. Prompts and log lines are left out.
use mathlib.Core.Option
use drift_triage_co_pilot.Prelude.{
  ℕ, Bool, true, false, ◌&&◌, String, ◌&◌, truthy, or_text, Option, none, some, [], ◌==◌, string_eq,
  nat_eq, option_eq, if◌then◌else◌, take, map, filter_by, find_first, ok, raised, or_else,
}
use drift_triage_co_pilot.Drift.Severity.{low, severity_text, is_medium_or_high, severity_eq}
use drift_triage_co_pilot.Drift.Report.{DriftReport}
use drift_triage_co_pilot.Worker.Dedup.{Action, no_action, action_eq, Redis}
use drift_triage_co_pilot.Agent.Database.{
  open_, awaiting_approval, resolved, status_eq, approval_status_eq, HilApproval, approved,
  approval_is, Database,
}
use drift_triage_co_pilot.Agent.Tools.{
  ToolResult, succeeded, failed, str_exception, inspect_drift, ProposeActionOutput, propose_action,
  is_dispatchable, dispatch_action, compose_summary, update_dashboard,
}
use drift_triage_co_pilot.Agent.Tools as Tools
use drift_triage_co_pilot.Agent.Staleness.{assert_not_stale}
use drift_triage_co_pilot.Agent.Routing.{severity_or, alert_version, alert_name}
use drift_triage_co_pilot.Agent.State.{AgentState, TriageOutput, World, Answers}

-- What `_approval_is_valid` asks of the row that it finds.
abbrev pub row_approves : Action → ℕ → HilApproval → Bool
row_approves action version row =
    row.status == approved
    && (row.decision == some approved && (row.action == action && row.model_version == version))

abbrev pub row_is_valid : Action → ℕ → Option HilApproval → Bool
row_is_valid proposed version none = false
row_is_valid proposed version (some row) = row_approves proposed version row

module _ {F : Type 0} where
  -- The analysis that stands in for the LLM when it fails.
  unfoldable pub fallback_analysis : AgentState F → DriftReport F → TriageOutput
  fallback_analysis s report = record {
    drifted_features =
        take 5
          (map (λ r. r.feature) (filter_by (λ r. is_medium_or_high r.severity) report.psi_results));
    severity = severity_text (severity_or report.severity s);
    hypothesis =
        "High drift detected in recent production data. The strongest signals are macroeconomic and categorical feature shifts. A retraining investigation is recommended before any production-changing action.";
    should_act = elim s.alert.severity [ none ↦ false | some v ↦ is_medium_or_high v ];
  }

  triage_with : Answers F → AgentState F → ToolResult (DriftReport F) → AgentState F
  triage_with a s (failed problem _) = record s {
    triage_notes = "inspect_drift failed: " & problem;
  }
  triage_with a s (succeeded report) =
      let analysis = or_else a.triage (fallback_analysis s report) in
      record s {
        report = some report;
        triage_notes = analysis.hypothesis;
        drift_report_id = report.report_id;
      }

  module _ {S : Type 0} ⦃r : Redis S⦄ where
    unfoldable pub triage_agent_node : Answers F → AgentState F → World S → AgentState F × World S
    unfolding triage_with inspect_drift fallback_analysis
    triage_agent_node a s w =
        let (result, w') = inspect_drift a.fetch_report (alert_name s) w in
        (triage_with a s result, w')

  -- The staleness guard before an action is proposed: the text of the error, if it fires.
  unfoldable pub stale_before_proposal : AgentState F → Option String
  unfolding assert_not_stale str_exception
  stale_before_proposal s = elim s.report [
    | none ↦ none
    | some report ↦
        if truthy s.drift_report_id
        then elim (assert_not_stale s.drift_report_id report) [
          | ok _ ↦ none
          | raised e ↦ some (str_exception e)
        ]
        else none
  ]

  propose_with : AgentState F → ToolResult ProposeActionOutput → AgentState F
  propose_with s (failed _ _) = record s { proposed_action = none; requires_hil = false }
  propose_with s (succeeded proposal) = record s {
    proposed_action = some proposal.action;
    action_rationale = some proposal.rationale;
    requires_hil = proposal.requires_hil;
    awaiting_approval = false;
  }

  unfoldable pub action_agent_node : AgentState F → AgentState F
  unfolding propose_with propose_action stale_before_proposal
  action_agent_node s =
      let proposal : ToolResult ProposeActionOutput × Unit {0} =
        propose_action
          (record {
            investigation_id = s.investigation_id;
            severity = severity_or low s;
            drifted_features = [];
            hypothesis = s.triage_notes;
          })
          tt in
      elim (stale_before_proposal s) [
        | some problem ↦ record s { status = resolved; summary_md = problem }
        | none ↦ propose_with s proposal.0
      ]

  -- `state.get("action_rationale") or state.get("triage_notes") or "..."`
  unfoldable pub approval_rationale : AgentState F → String
  approval_rationale s =
      or_text (Option.get_or s.action_rationale "")
        (or_text s.triage_notes "Action requires approval.")

  request_with : AgentState F → ToolResult String → AgentState F
  request_with s (failed problem _) = record s {
    summary_md = "HIL approval request failed: " & problem;
    status = resolved;
  }
  request_with s (succeeded approval_id) = record s {
    requires_hil = true;
    awaiting_approval = true;
    hil_approval_id = some approval_id;
    status = awaiting_approval;
  }

  request_for : {S : Type 0} → Answers F → Action → AgentState F → World S → AgentState F × World S
  unfolding request_with approval_rationale
  request_for a action s w =
      let (result, db) =
        Tools.request_hil a.approval_id a.insert_fault
          (record {
            investigation_id = s.investigation_id;
            action = action;
            rationale = approval_rationale s;
            model_version = alert_version s;
          })
          w.database in
      (request_with s result, record w { database = db })

  unfoldable pub request_hil_node :
      {S : Type 0} → Answers F → AgentState F → World S → AgentState F × World S
  unfolding request_for
  request_hil_node a s w = elim s.proposed_action [
    | none ↦ (record s { requires_hil = false; awaiting_approval = false }, w)
    | some no_action ↦ (record s { requires_hil = false; awaiting_approval = false }, w)
    | some other ↦ request_for a other s w
  ]

  unfoldable pub approval_is_valid : AgentState F → Database → Bool
  approval_is_valid s db = elim s.proposed_action [
    | none ↦ false
    | some action ↦ elim s.hil_approval_id [
      | none ↦ false
      | some id ↦
          (truthy id && is_dispatchable action)
          && row_is_valid action (alert_version s)
              (find_first (approval_is id s.investigation_id) db.hil_approvals)
    ]
  ]

  unfoldable pub pause_for_human_node : {S : Type 0} → AgentState F → World S → AgentState F
  unfolding approval_is_valid
  pause_for_human_node s w =
      if approval_is_valid s w.database
      then record s { awaiting_approval = false; status = open_ }
      else record s {
        awaiting_approval = false;
        status = resolved;
        summary_md = "HIL approval is missing, rejected, or does not match the proposal.";
      }
