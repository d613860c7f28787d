-- ===== src/Agent/State.antt =====
-- `AgentState` of backend/src/agent/graph.py, and what a node's calls outside the repository answer.
use drift_triage_co_pilot.Prelude.{ℕ, Bool, String, Option, List, Result, Exception}
use drift_triage_co_pilot.Drift.Severity.{Severity}
use drift_triage_co_pilot.Drift.Report.{DriftReport}
use drift_triage_co_pilot.Worker.Dedup.{Action, Broker}
use drift_triage_co_pilot.Agent.Database.{Status, Database}

pub data NextStep : Type 0 where
  triage_agent action_agent request_hil pause_for_human dispatch comms_agent end : NextStep

-- `unset` is the empty text of the initial state.
pub data DispatchStatus : Type 0 where
  unset enqueued deduplicated blocked error : DispatchStatus

-- The keys of `state["alert"]` that the nodes read by `.get`; a webhook fills all of them in.
pub record Alert : Type 0 where
  pub severity : Option Severity
  pub model_name : Option String
  pub model_version : Option ℕ

-- `next_step` and `action_rationale` may be absent, and so may `comms_done`, which counts as false then.
pub record AgentState (F : Type 0) : Type 0 where
  pub investigation_id : String
  pub alert : Alert
  pub report : Option (DriftReport F)
  pub triage_notes : String
  pub proposed_action : Option Action
  pub action_rationale : Option String
  pub requires_hil : Bool
  pub hil_approval_id : Option String
  pub awaiting_approval : Bool
  pub summary_md : String
  pub dispatch_status : DispatchStatus
  pub status : Status
  pub drift_report_id : String
  pub next_step : Option NextStep
  pub comms_done : Bool

-- `TriageOutput`
pub record TriageOutput : Type 0 where
  pub drifted_features : List String
  pub severity : String
  pub hypothesis : String
  pub should_act : Bool

-- Postgres and Redis, as the agent reaches them.
pub record World (S : Type 0) : Type 0 where
  pub database : Database
  pub broker : Broker S

-- What the calls of one node answer: the drift service, the LLM, MLflow, `uuid4`, the clock, and the
-- faults of the database and of the queue.
pub record Answers (F : Type 0) : Type 0 where
  pub fetch_report : Result (DriftReport F)
  pub triage : Result TriageOutput
  pub summary : Result String
  pub nfkc : String → String
  pub version_found : Bool
  pub production : Result (List ℕ)
  pub approval_id : String
  pub job_id : String
  pub now : ℕ
  pub insert_fault : Option Exception
  pub update_fault : Option Exception
  pub enqueue_fault : Option Exception
