-- ===== src/Agent/Graph/Progress.antt =====
-- The supervisor's loop of backend/src/agent/graph.py: how far a node brings an investigation.
use drift_triage_co_pilot.Prelude.{
  ℕ, ◌≤◌, ◌<◌, ◌≡◌, true, truthy, some, string_eq, nat_eq, option_eq, ok, arith,
}
use drift_triage_co_pilot.Drift.Report.{DriftReport}
use drift_triage_co_pilot.Worker.Dedup.{Redis}
use drift_triage_co_pilot.Agent.Database.{resolved, status_eq}
use drift_triage_co_pilot.Agent.Tools.{
  has_length, propose_action, run_propose_action, safe_run, wrap, inspect_drift,
}
use drift_triage_co_pilot.Agent.State.{
  NextStep, triage_agent, action_agent, request_hil, pause_for_human, dispatch, comms_agent, end,
  AgentState, World, Answers,
}
use drift_triage_co_pilot.Agent.Routing.{
  choose_next_step, should_act_from_triage, supervisor_node, alert_name,
}
use drift_triage_co_pilot.Agent.Nodes.{
  action_agent_node, triage_agent_node, request_hil_node, pause_for_human_node, approval_is_valid,
}
use drift_triage_co_pilot.Agent.Dispatch.{dispatch_node, comms_agent_node}

-- How many steps are left at most, the step itself included.
abbrev pub rank : NextStep → ℕ
rank end = 0
rank comms_agent = 1
rank dispatch = 2
rank pause_for_human = 3
rank request_hil = 4
rank action_agent = 5
rank triage_agent = 6

module _ {F : Type 0} where
  rank-resolved : (s : AgentState F) → s.status ≡ resolved → rank (choose_next_step s) ≤ 1
  unfolding choose_next_step
  rank-resolved s h = ground arith

  rank-comms_done :
      (s : AgentState F)
      → choose_next_step s ≡ comms_agent
      → choose_next_step (record s { comms_done = true }) ≡ end
  unfolding choose_next_step
  rank-comms_done s h = ground arith

  rank-triaged :
      (s : AgentState F) (report : DriftReport F)
      → s.report ≡ some report
      → rank (choose_next_step s) < 6
  unfolding choose_next_step should_act_from_triage
  rank-triaged s report h = ground arith

  pub rank-supervised :
      (s : AgentState F) → choose_next_step (supervisor_node s) ≡ choose_next_step s
  unfolding choose_next_step supervisor_node
  rank-supervised s = ground arith

  pub triage-lowers :
      {S : Type 0} ⦃r : Redis S⦄ (a : Answers F) (report : DriftReport F) (s : AgentState F)
      (w : World S)
      → a.fetch_report ≡ ok report
      → truthy (alert_name s) ≡ true
      → rank (choose_next_step (triage_agent_node a s w).0) < 6
  unfolding triage_agent_node inspect_drift safe_run wrap choose_next_step should_act_from_triage
  triage-lowers a report s w fetched named = ground (arith, fetched, named)

  pub action-lowers :
      (s : AgentState F)
      → choose_next_step s ≡ action_agent
      → has_length 1 1024 s.triage_notes ≡ true
      → rank (choose_next_step (action_agent_node s)) < 5
  unfolding action_agent_node propose_action run_propose_action safe_run wrap choose_next_step
      should_act_from_triage
  action-lowers s here short = ground (arith, here, short)

  pub request-lowers :
      {S : Type 0} (a : Answers F) (s : AgentState F) (w : World S)
      → choose_next_step s ≡ request_hil
      → rank (choose_next_step (request_hil_node a s w).0) < 4
  unfolding request_hil_node choose_next_step should_act_from_triage
  request-lowers a s w here = ground (arith, here)

  pub pause-lowers :
      {S : Type 0} (s : AgentState F) (w : World S)
      → choose_next_step s ≡ pause_for_human
      → rank (choose_next_step (pause_for_human_node s w)) < 3
  unfolding pause_for_human_node approval_is_valid choose_next_step should_act_from_triage
  pause-lowers s w here = ground (arith, here)

  pub dispatch-lowers :
      {S : Type 0} ⦃r : Redis S⦄ (a : Answers F) (s : AgentState F) (w : World S)
      → choose_next_step s ≡ dispatch
      → rank (choose_next_step (dispatch_node a s w).0) < 2
  unfolding dispatch_node choose_next_step should_act_from_triage
  dispatch-lowers a s w here = ground (arith, here)

  pub comms-lowers :
      {S : Type 0} (a : Answers F) (s : AgentState F) (w : World S)
      → choose_next_step s ≡ comms_agent
      → rank (choose_next_step (comms_agent_node a s w).0) < 1
  unfolding comms_agent_node choose_next_step
  comms-lowers a s w here = ground (arith, here)
