-- ===== src/Service/Alerts.antt =====
-- backend/src/service/routers/drift.py, lines 118-186: the webhook on a change of severity. `W` is the
-- state of the network with the agent behind it; a call of the HTTP client is a parameter, `post`, that answers with
-- nothing or with what it or `raise_for_status` raises. The identifier that `uuid4` draws is an argument.
pub mod Chain
pub mod Race
pub mod Changes
pub mod Delivery
use drift_triage_co_pilot.Prelude.{
  ℕ, zero, suc, Bool, true, false, String, ◌&◌, str_int, Option, none, some, List, [], ◌∷◌, ◌==◌,
  string_eq, option_eq, if◌then◌else◌, find_first, Result, ok, raised, Exception, timeout_exception,
  network_error,
}
use drift_triage_co_pilot.Tenacity.{attempt_up_to}
use drift_triage_co_pilot.Floating.{Float}
use drift_triage_co_pilot.Drift.Severity.{Severity, severity_eq}
use drift_triage_co_pilot.Drift.Report.{DriftReport, DriftWebhookPayload, report_to_webhook}

-- `_emit_webhook`: `stop_after_attempt(3)`
unfoldable pub emit_webhook :
    {F W : Type 0}
    → (DriftWebhookPayload F → W → Result (Unit {0}) × W)
    → DriftWebhookPayload F
    → W
    → Result (Unit {0}) × W
unfolding attempt_up_to
emit_webhook post payload w = attempt_up_to 2 (post payload) w

-- A row of the table `drift_alert_state`, whose primary key is `key`.
pub record AlertState : Type 0 where
  pub key : String
  pub last_severity : Severity
  pub last_report_id : String

abbrev pub state_key : {F : Type 0} → DriftReport F → String
state_key report = report.model_name & ":" & str_int report.model_version

-- `SELECT last_severity ... WHERE key = :key`
unfoldable pub last_severity_of : String → List AlertState → Option Severity
last_severity_of key [] = none
last_severity_of key (row ∷ rows) =
    let rest = last_severity_of key rows in
    elim (row.key == key) [ true ↦ some row.last_severity | false ↦ rest ]

-- `INSERT ... ON CONFLICT (key) DO UPDATE`
unfoldable pub upsert : AlertState → List AlertState → List AlertState
upsert new [] = new ∷ []
upsert new (row ∷ rows) =
    let rest = upsert new rows in
    elim (row.key == new.key) [ true ↦ new ∷ rows | false ↦ row ∷ rest ]

-- How the task ends, by its three returns: at once, after "drift.webhook.failed", after "drift.webhook.sent".
pub data Emission (F : Type 0) : Type 0 where
  unchanged : Emission F
  failed : Exception → Emission F
  sent : DriftWebhookPayload F → Emission F

abbrev pub alert_state : {F : Type 0} → DriftReport F → AlertState
alert_state report = record {
  key = state_key report;
  last_severity = report.severity;
  last_report_id = report.report_id;
}

-- What follows the delivery: a rollback, or the upsert and the commit.
unfoldable pub store_delivery :
    {F : Type 0}
    → DriftReport F
    → DriftWebhookPayload F
    → Result (Unit {0})
    → List AlertState
    → Emission F × List AlertState
store_delivery report payload (ok _) table = (sent payload, upsert (alert_state report) table)
store_delivery report payload (raised e) table = (failed e, table)

module _ {F W : Type 0} ⦃f : Float F⦄
    (post : DriftWebhookPayload F → W → Result (Unit {0}) × W) where
  unfoldable pub deliver :
      DriftReport F
      → Result (DriftWebhookPayload F)
      → List AlertState
      → W
      → (Result (Emission F) × List AlertState) × W
  unfolding emit_webhook store_delivery
  deliver report (raised e) at_commit w = ((raised e, at_commit), w)
  deliver report (ok payload) at_commit w =
      let answer = emit_webhook post payload w in
      let stored = store_delivery report payload answer.0 at_commit in
      ((ok stored.0, stored.1), answer.1)

  -- `_maybe_emit_severity_webhook`. `before` is the table at the SELECT, and `at_commit` at the commit: another
  -- task may have committed in between. The payload is built outside the `try`: its exception leaves the task.
  unfoldable pub maybe_emit_severity_webhook :
      (event_id : String)
      → DriftReport F
      → (before at_commit : List AlertState) → W
      → (Result (Emission F) × List AlertState) × W
  unfolding deliver
  maybe_emit_severity_webhook event_id report before at_commit w =
      let previous = last_severity_of (state_key report) before in
      if previous == some report.severity
      then ((ok unchanged, at_commit), w)
      else deliver report (report_to_webhook event_id report previous) at_commit w
