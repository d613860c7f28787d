-- ===== src/Agent/Routing.antt =====
-- The routing of backend/src/agent/graph.py: what `supervisor_node` decides from the state.
use mathlib.Core.Option
use drift_triage_co_pilot.Prelude.{
  ℕ, Bool, true, false, not, ◌&&◌, String, truthy, Option, none, some, ◌==◌, string_eq, nat_eq,
  if◌then◌else◌,
}
use drift_triage_co_pilot.Drift.Severity.{Severity, low, is_medium_or_high, severity_eq}
use drift_triage_co_pilot.Worker.Dedup.{Action, no_action, action_eq}
use drift_triage_co_pilot.Agent.Database.{resolved, status_eq}
use drift_triage_co_pilot.Agent.Tools.{is_dispatchable}
use drift_triage_co_pilot.Agent.State.{
  NextStep, triage_agent, action_agent, request_hil, pause_for_human, dispatch, comms_agent, end,
  DispatchStatus, unset, AgentState,
}

-- `bool` of an optional text, and of the dispatch status
abbrev pub has_text : Option String → Bool
has_text none = false
has_text (some s) = truthy s

abbrev pub is_set : DispatchStatus → Bool
is_set unset = false
is_set other = true

abbrev pub is_some : {A : Type 0} → Option A → Bool
is_some none = false
is_some (some a) = true

-- `proposed_action in ("replay_test", "retrain", "rollback")`
abbrev pub proposes_action : Option Action → Bool
proposes_action none = false
proposes_action (some a) = is_dispatchable a

module _ {F : Type 0} where
  abbrev pub severity_or : Severity → AgentState F → Severity
  severity_or default s = Option.get_or s.alert.severity default

  abbrev pub alert_version : AgentState F → ℕ
  alert_version s = Option.get_or s.alert.model_version 1

  abbrev pub alert_name : AgentState F → String
  alert_name s = Option.get_or s.alert.model_name ""

  -- `_should_act_from_triage`
  unfoldable pub should_act_from_triage : AgentState F → Bool
  should_act_from_triage s = is_medium_or_high (severity_or low s)

  -- The ladder of `supervisor_node`.
  unfoldable pub choose_next_step : AgentState F → NextStep
  unfolding should_act_from_triage
  choose_next_step s =
      let finish = if s.comms_done then end else comms_agent in
      if s.status == resolved
      then finish
      else if not (is_some s.report)
      then triage_agent
      else if not (should_act_from_triage s)
      then finish
      else elim s.proposed_action [
        | none ↦ action_agent
        | some no_action ↦ finish
        | some _ ↦
            if s.awaiting_approval
            then pause_for_human
            else if s.requires_hil && not (has_text s.hil_approval_id)
            then request_hil
            else if not (is_set s.dispatch_status)
            then dispatch
            else finish
      ]

  unfoldable pub supervisor_node : AgentState F → AgentState F
  supervisor_node s = record s { next_step = some (choose_next_step s) }

  unfoldable pub route_from_supervisor : AgentState F → NextStep
  route_from_supervisor s = Option.get_or s.next_step end
