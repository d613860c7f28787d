-- ===== src/Service/Alerts/Changes.antt =====
-- backend/src/service/routers/drift.py: the tasks, with a client that answers.
use drift_triage_co_pilot.Prelude.{
  ◌≤◌, ◌≡◌, refl, inl, inr, ap, ◌∙◌, subst, true, false, String, truthy, Option, some, List, [],
  ◌∷◌, map, ◌==◌, string_eq, option_eq, if◌then◌else◌, Result, ok, All, Bool-cases, beq-path,
  beq-apart,
}
use drift_triage_co_pilot.Floating.{Float}
use drift_triage_co_pilot.Floating.Laws.{IsOrdered}
use drift_triage_co_pilot.Drift.Severity.{Severity, severity_eq}
use drift_triage_co_pilot.Drift.Report.{DriftReport, DriftWebhookPayload}
use drift_triage_co_pilot.Drift.Report.Payload.{IsValidated, report_to_webhook-valid}
use drift_triage_co_pilot.Service.Alerts.{
  AlertState, state_key, alert_state, last_severity_of, upsert,
}
use drift_triage_co_pilot.Service.Alerts.Chain.{upsert-last_severity_of, emit_in_turn}
use drift_triage_co_pilot.Service.Alerts.Race.{sent_of, nothing_of}

-- The severities that differ from the one before them, the first from the given one.
abbrev pub changes : Option Severity → List Severity → List Severity
changes previous [] = []
changes previous (s ∷ rest) =
    let same = changes previous rest in
    let other = changes (some s) rest in if previous == some s then same else s ∷ other

module _ {F W : Type 0} ⦃f : Float F⦄ (o : IsOrdered F)
    (post : DriftWebhookPayload F → W → Result (Unit {0}) × W)
    (answers : (p : DriftWebhookPayload F) (w : W) → (post p w).0 ≡ ok tt) where
  -- A webhook can be built for the report, whatever the previous severity.
  pub record IsSendable (e : String × DriftReport F) : Type 0 where
    pub event_filled : truthy e.0 ≡ true
    pub report_filled : truthy e.1.report_id ≡ true
    pub name_filled : truthy e.1.model_name ≡ true
    pub version_pos : 1 ≤ e.1.model_version
    pub validated : IsValidated e.1

  -- With a client that answers every post, the severities that the tasks deliver, for sendable reports of one model
  -- and version, are the changes in the sequence of the reports' severities, from the severity in the table on.
  pub emit_in_turn-changes :
      (key : String) (reports : List (String × DriftReport F)) (table : List AlertState) (w : W)
      → All (λ e. state_key e.1 ≡ key) reports
      → All IsSendable reports
      → map (λ p. p.severity) (emit_in_turn post reports table w).0.0
        ≡ changes (last_severity_of key table) (map (λ e. e.1.severity) reports)
  unfolding emit_in_turn
  emit_in_turn-changes key [] table w named sendable = refl
  emit_in_turn-changes key ((event_id, report) ∷ rest) table w named sendable =
      let fit = sendable.0 in
      elim (Bool-cases (last_severity_of (state_key report) table == some report.severity)) [
        | inl same ↦
            let same' : (last_severity_of key table == some report.severity) ≡ true =
              subst (λ k. (last_severity_of k table == some report.severity) ≡ true) named.0 same in
            rw (nothing_of post answers event_id report table w (beq-path _ _ same), emit_in_turn)
              (rw (same', changes) (emit_in_turn-changes key rest table w named.1 sendable.1))
        | inr other ↦
            let other' : (last_severity_of key table == some report.severity) ≡ false =
              subst (λ k. (last_severity_of k table == some report.severity) ≡ false) named.0
                other in
            let (p, built, severity, _, _, _, _, _) =
              report_to_webhook-valid o event_id report (last_severity_of (state_key report) table)
                fit.event_filled fit.report_filled fit.name_filled fit.version_pos fit.validated in
            let table' = upsert (alert_state report) table in
            let stored : last_severity_of key table' ≡ some report.severity =
              subst (λ k. last_severity_of k table' ≡ some report.severity) named.0
                (upsert-last_severity_of (alert_state report) table) in
            let onward =
              emit_in_turn-changes key rest table' (post p w).1 named.1 sendable.1
              ∙ ap (λ v. changes v (map (λ e. e.1.severity) rest)) stored in
            rw
              (
                sent_of post answers event_id report p table table w (beq-apart _ _ other) built,
                emit_in_turn,
              )
              (rw (other', changes) (cc (severity, onward)))
      ]
