-- ===== src/Service/Alerts/Race.antt =====
-- backend/src/service/routers/drift.py: two background tasks of one change of severity. `_drift_lock` covers the
-- computation of a report and not the task that is started after it.
use drift_triage_co_pilot.Prelude.{
  ◌≡◌, ◌≢◌, refl, sym, ap, subst, ◌∙◌, String, some, List, string_eq, option_eq, beq-false,
  beq-same, Result, ok,
}
use drift_triage_co_pilot.Floating.{Float}
use drift_triage_co_pilot.Drift.Severity.{severity_eq}
use drift_triage_co_pilot.Drift.Report.{DriftReport, DriftWebhookPayload, report_to_webhook}
use drift_triage_co_pilot.Tenacity.{attempt_up_to}
use drift_triage_co_pilot.Service.Alerts.{
  AlertState, state_key, alert_state, last_severity_of, upsert, sent, unchanged, store_delivery,
  deliver, emit_webhook, maybe_emit_severity_webhook,
}
use drift_triage_co_pilot.Service.Alerts.Chain.{upsert-last_severity_of}

module _ {F W : Type 0} ⦃f : Float F⦄ (post : DriftWebhookPayload F → W → Result (Unit {0}) × W)
    (answers : (p : DriftWebhookPayload F) (w : W) → (post p w).0 ≡ ok tt) where
  whole : {A B : Type 0} (x : A × B) (a : A) → x.0 ≡ a → x ≡ (a, x.1)
  whole x a e = rw e refl

  answered : (p : DriftWebhookPayload F) (w : W) → emit_webhook post p w ≡ (ok tt, (post p w).1)
  unfolding emit_webhook attempt_up_to
  answered p w = rw (answers p w, attempt_up_to) (whole _ _ (answers p w))

  pub sent_of :
      (event_id : String) (report : DriftReport F) (p : DriftWebhookPayload F)
      (before at_commit : List AlertState) (w : W)
      → last_severity_of (state_key report) before ≢ some report.severity
      → report_to_webhook event_id report (last_severity_of (state_key report) before) ≡ ok p
      → maybe_emit_severity_webhook post event_id report before at_commit w
        ≡ ((ok (sent p), upsert (alert_state report) at_commit), (post p w).1)
  unfolding maybe_emit_severity_webhook deliver store_delivery
  sent_of event_id report p before at_commit w changed built =
      rw (beq-false _ _ changed, built, maybe_emit_severity_webhook)
        (rw (answered p w, deliver) refl)

  pub nothing_of :
      (event_id : String) (report : DriftReport F) (table : List AlertState) (w : W)
      → last_severity_of (state_key report) table ≡ some report.severity
      → maybe_emit_severity_webhook post event_id report table table w ≡ ((ok unchanged, table), w)
  unfolding maybe_emit_severity_webhook
  nothing_of event_id report table w known =
      rw (beq-same _ _ known, maybe_emit_severity_webhook) refl

  -- A client that answers every post: of two tasks for reports of one model, version and new severity, both send
  -- their webhook if both read the table before the first commits; if the second reads it after the commit, it
  -- sends nothing.
  pub maybe_emit-race :
      (event_1 event_2 : String) (first second : DriftReport F) (p q : DriftWebhookPayload F)
      (before : List AlertState) (w w' : W)
      → state_key first ≡ state_key second
      → first.severity ≡ second.severity
      → last_severity_of (state_key second) before ≢ some second.severity
      → report_to_webhook event_1 first (last_severity_of (state_key second) before) ≡ ok p
      → report_to_webhook event_2 second (last_severity_of (state_key second) before) ≡ ok q
      → let done = maybe_emit_severity_webhook post event_1 first before before w in
        (done.0.0 ≡ ok (sent p))
        × ((maybe_emit_severity_webhook post event_2 second before done.0.1 w').0.0 ≡ ok (sent q))
        × (maybe_emit_severity_webhook post event_2 second done.0.1 done.0.1 w'
            ≡ ((ok unchanged, done.0.1), w'))
  maybe_emit-race event_1 event_2 first second p q before w w' named same changed built built' =
      let done = maybe_emit_severity_webhook post event_1 first before before w in
      let first_sent =
        sent_of event_1 first p before before w
          (λ known.
            changed (ap (λ k. last_severity_of k before) (sym named) ∙ known ∙ ap some same))
          (subst (λ k. report_to_webhook event_1 first (last_severity_of k before) ≡ ok p)
            (sym named) built) in
      let known : last_severity_of (state_key second) done.0.1 ≡ some second.severity =
        subst (λ k. last_severity_of k done.0.1 ≡ some first.severity) named
          (ap (λ d. last_severity_of (state_key first) d.0.1) first_sent
            ∙ upsert-last_severity_of (alert_state first) before)
        ∙ ap some same in
      (
        ap (λ d. d.0.0) first_sent,
        ap (λ d. d.0.0) (sent_of event_2 second q before done.0.1 w' changed built'),
        nothing_of event_2 second done.0.1 w' known,
      )
