-- ===== src/Agent/Webhook.antt =====
-- backend/src/agent/routers/webhook.py: one investigation for each drift event.
pub mod Unique
use drift_triage_co_pilot.Prelude.{
  ℕ, Bool, true, false, ◌||◌, String, ◌&◌, or_text, str_int, Option, none, some, List, [], ◌∷◌,
  ◌++◌, ◌==◌, string_eq, if◌then◌else◌, find_first, Result, ok, raised, integrity_error,
}
use drift_triage_co_pilot.Floating.{Float}
use drift_triage_co_pilot.Drift.Severity.{severity_text}
use drift_triage_co_pilot.Drift.Report.{DriftWebhookPayload, WebhookTopFeature}
use drift_triage_co_pilot.Agent.Database.{open_, Investigation, Database}
use drift_triage_co_pilot.Agent.State.{unset, AgentState}

-- `WHERE drift_event_id = :event_id OR drift_report_id = :report_id`
abbrev pub same_event : String → String → Investigation → Bool
same_event event_id report_id row =
    row.drift_event_id == event_id || row.drift_report_id == report_id

-- `ORDER BY created_at ASC LIMIT 1`: the rows stand in the order of their creation.
unfoldable pub find_existing_investigation : String → String → Database → Option String
find_existing_investigation event_id report_id db =
    elim (find_first (same_event event_id report_id) db.investigations) [
      | none ↦ none
      | some row ↦ some row.id
    ]

-- The primary key and the two unique columns.
abbrev pub violates : Investigation → Investigation → Bool
violates new row = row.id == new.id || same_event new.drift_event_id new.drift_report_id row

-- `INSERT INTO investigations` and the commit; `none` is the IntegrityError.
unfoldable pub insert_investigation : Investigation → Database → Option Database
insert_investigation row db = elim (find_first (violates row) db.investigations) [
  | none ↦ some (record db { investigations = db.investigations ++ row ∷ [] })
  | some _ ↦ none
]

module _ {F : Type 0} ⦃f : Float F⦄ where
  feature_texts : List (WebhookTopFeature F) → String
  feature_texts [] = ""
  feature_texts (t ∷ []) =
      t.feature & "=" & f.general t.value & " (" & severity_text t.severity & ")"
  feature_texts (t ∷ u ∷ ts) =
      t.feature
      & "="
      & f.general t.value
      & " ("
      & severity_text t.severity
      & "), "
      & feature_texts (u ∷ ts)

  unfoldable pub drift_event_summary : DriftWebhookPayload F → String
  unfolding feature_texts
  drift_event_summary p =
      "Drift event received: severity="
      & severity_text p.severity
      & ", previous_severity="
      & elim p.previous_severity [ none ↦ "none" | some s ↦ severity_text s ]
      & ", model_name="
      & p.model_name
      & ", model_version="
      & str_int p.model_version
      & ", report_id="
      & p.report_id
      & ", event_id="
      & p.event_id
      & ", top_features="
      & or_text (feature_texts p.top_features) "none"
      & ". "
      & p.drift_summary.text

  abbrev pub new_investigation : String → DriftWebhookPayload F → Investigation
  new_investigation investigation_id p = record {
    id = investigation_id;
    drift_event_id = p.event_id;
    drift_report_id = p.report_id;
    status = open_;
    summary_md = drift_event_summary p;
  }

  -- What follows an INSERT that was tried on the database `at_commit`.
  unfoldable pub after_insert :
      String
      → DriftWebhookPayload F
      → Database
      → Option Database
      → Result (String × Bool) × Database
  unfolding find_existing_investigation
  after_insert investigation_id p at_commit (some db') = (ok (investigation_id, true), db')
  after_insert investigation_id p at_commit none =
      elim (find_existing_investigation p.event_id p.report_id at_commit) [
        | some existing ↦ (ok (existing, false), at_commit)
        | none ↦ (raised (integrity_error "investigations"), at_commit)
      ]

  -- `before` is the database at the first SELECT, and `at_commit` at the commit: other requests may have
  -- committed in between.
  unfoldable pub create_investigation :
      (investigation_id : String)
      → DriftWebhookPayload F
      → (before at_commit : Database) → Result (String × Bool) × Database
  unfolding find_existing_investigation insert_investigation after_insert
  create_investigation investigation_id p before at_commit =
      elim (find_existing_investigation p.event_id p.report_id before) [
        | some existing ↦ (ok (existing, false), at_commit)
        | none ↦
            after_insert investigation_id p at_commit
              (insert_investigation (new_investigation investigation_id p) at_commit)
      ]

  -- The state that `_run_graph` starts from.
  unfoldable pub initial_state : String → DriftWebhookPayload F → AgentState F
  initial_state investigation_id p = record {
    investigation_id = investigation_id;
    alert = record {
      severity = some p.severity;
      model_name = some p.model_name;
      model_version = some p.model_version;
    };
    report = none;
    triage_notes = "";
    proposed_action = none;
    action_rationale = none;
    requires_hil = false;
    hil_approval_id = none;
    awaiting_approval = false;
    summary_md = "";
    dispatch_status = unset;
    status = open_;
    drift_report_id = p.report_id;
    next_step = none;
    comms_done = false;
  }
