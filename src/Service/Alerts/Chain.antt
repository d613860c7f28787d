-- ===== src/Service/Alerts/Chain.antt =====
-- backend/src/service/routers/drift.py, `_maybe_emit_severity_webhook`: what a sequence of tasks delivers.
use drift_triage_co_pilot.Prelude.{
  ◌≡◌, ◌≢◌, inl, inr, refl, sym, ap, subst, ◌∙◌, String, Option, some, List, [], ◌∷◌, ◌++◌, ◌==◌,
  string_eq, option_eq, Result, ok, All, Bool-cases, Result-cases, beq-apart, eq_refl,
}
use drift_triage_co_pilot.Floating.{Float}
use drift_triage_co_pilot.Drift.Severity.{Severity, severity_eq}
use drift_triage_co_pilot.Drift.Report.{
  DriftReport, DriftWebhookPayload, report_to_webhook, webhook_fields, satisfies_contract,
}
use drift_triage_co_pilot.Service.Alerts.{
  AlertState, state_key, alert_state, last_severity_of, upsert, Emission, sent, store_delivery,
  deliver, emit_webhook, maybe_emit_severity_webhook,
}

pub upsert-last_severity_of :
    (new : AlertState) (rows : List AlertState)
    → last_severity_of new.key (upsert new rows) ≡ some new.last_severity
unfolding last_severity_of upsert
upsert-last_severity_of new [] = rw (eq_refl new.key, last_severity_of) refl
upsert-last_severity_of new (row ∷ rows) = elim (Bool-cases (row.key == new.key)) [
  | inl same ↦ rw (same, upsert) (rw (eq_refl new.key, last_severity_of) refl)
  | inr other ↦ rw (other, upsert) (rw (other, last_severity_of) (upsert-last_severity_of new rows))
]

module _ {F : Type 0} where
  -- The payloads that a task has delivered.
  abbrev pub delivered_by : Result (Emission F) → List (DriftWebhookPayload F)
  delivered_by (ok (sent payload)) = payload ∷ []
  delivered_by other = []

  -- Each delivery names the severity of the delivery before it, and has another.
  abbrev pub IsChain : Option Severity → List (DriftWebhookPayload F) → Type 0
  IsChain previous [] = Unit
  IsChain previous (p ∷ ps) =
      (p.previous_severity ≡ previous) × (previous ≢ some p.severity) × IsChain (some p.severity) ps

  abbrev pub last_delivered : Option Severity → List (DriftWebhookPayload F) → Option Severity
  last_delivered previous [] = previous
  last_delivered previous (p ∷ ps) = last_delivered (some p.severity) ps

  -- What one task delivers and leaves in the table.
  data Step (report : DriftReport F) (table : List AlertState)
      : List (DriftWebhookPayload F) → List AlertState → Type 0 where
    nothing_sent : Step report table [] table
    one_sent :
        (p : DriftWebhookPayload F)
        → p.previous_severity ≡ last_severity_of (state_key report) table
        → p.severity ≡ report.severity
        → last_severity_of (state_key report) table ≢ some report.severity
        → Step report table (p ∷ []) (upsert (alert_state report) table)

module _ {F W : Type 0} ⦃f : Float F⦄
    (post : DriftWebhookPayload F → W → Result (Unit {0}) × W) where
  deliver-Step :
      (event_id : String) (report : DriftReport F) (table : List AlertState) (w : W)
      → last_severity_of (state_key report) table ≢ some report.severity
      → let done =
          deliver post report
            (report_to_webhook event_id report (last_severity_of (state_key report) table))
            table
            w in
        Step report table (delivered_by done.0.0) done.0.1
  unfolding deliver report_to_webhook webhook_fields store_delivery
  deliver-Step event_id report table w changed =
      let previous = last_severity_of (state_key report) table in
      let payload = webhook_fields event_id report previous in
      elim (Bool-cases (satisfies_contract payload)) [
        | inr bad ↦ rw (bad, deliver) nothing_sent
        | inl good ↦ elim (Result-cases (emit_webhook post payload w).0) [
          | inl (done, e) ↦
              rw (good, deliver) (rw (e, store_delivery) (one_sent payload refl refl changed))
          | inr (exc, e) ↦ rw (good, deliver) (rw (e, store_delivery) nothing_sent)
        ]
      ]

  maybe_emit-Step :
      (event_id : String) (report : DriftReport F) (table : List AlertState) (w : W)
      → let done = maybe_emit_severity_webhook post event_id report table table w in
        Step report table (delivered_by done.0.0) done.0.1
  unfolding maybe_emit_severity_webhook
  maybe_emit-Step event_id report table w =
      elim (Bool-cases (last_severity_of (state_key report) table == some report.severity)) [
        | inl same ↦ rw (same, maybe_emit_severity_webhook) nothing_sent
        | inr other ↦
            rw (other, maybe_emit_severity_webhook)
              (deliver-Step event_id report table w (beq-apart _ _ other))
      ]

  -- Tasks that run one after another, each on the table that the one before has left; a task's exception ends only
  -- that task. The first component lists the delivered payloads in order.
  unfoldable pub emit_in_turn :
      List (String × DriftReport F)
      → List AlertState
      → W
      → (List (DriftWebhookPayload F) × List AlertState) × W
  emit_in_turn [] table w = (([], table), w)
  emit_in_turn ((event_id, report) ∷ rest) table w =
      let done = maybe_emit_severity_webhook post event_id report table table w in
      let onward = emit_in_turn rest done.0.1 done.1 in
      ((delivered_by done.0.0 ++ onward.0.0, onward.0.1), onward.1)

  after_step :
      (key : String) (report : DriftReport F) (table table' : List AlertState)
      (delivered rest : List (DriftWebhookPayload F))
      → state_key report ≡ key
      → Step report table delivered table'
      → IsChain (last_severity_of key table') rest
      → IsChain (last_severity_of key table) (delivered ++ rest)
        × (last_delivered (last_severity_of key table) (delivered ++ rest)
            ≡ last_delivered (last_severity_of key table') rest)
  after_step key report table table' delivered rest named nothing_sent chain = (chain, refl)
  after_step key report table table' delivered rest named (one_sent p before at changed) chain =
      let stored : last_severity_of key table' ≡ some p.severity =
        subst (λ k. last_severity_of k table' ≡ some report.severity) named
          (upsert-last_severity_of (alert_state report) table)
        ∙ sym (ap some at) in
      (
        (
          subst (λ k. p.previous_severity ≡ last_severity_of k table) named before,
          λ same. changed (
              subst (λ k. last_severity_of k table ≡ some p.severity) (sym named) same
              ∙ ap some at),
          subst (λ s. IsChain s rest) stored chain,
        ),
        ap (λ s. last_delivered s rest) (sym stored),
      )

  -- Reports of one model and version, whose tasks run one after another, with deliveries that may fail: each
  -- delivered payload has another severity than the one delivered before it and names that one as the previous
  -- severity, the first the severity in the table; and the table ends with the severity that was delivered last.
  pub emit_in_turn-IsChain :
      (key : String) (reports : List (String × DriftReport F)) (table : List AlertState) (w : W)
      → All (λ e. state_key e.1 ≡ key) reports
      → let done = emit_in_turn reports table w in
        IsChain (last_severity_of key table) done.0.0
        × (last_severity_of key done.0.1 ≡ last_delivered (last_severity_of key table) done.0.0)
  unfolding emit_in_turn
  emit_in_turn-IsChain key [] table w named = (tt, refl)
  emit_in_turn-IsChain key ((event_id, report) ∷ rest) table w named =
      let done = maybe_emit_severity_webhook post event_id report table table w in
      let (chain, ends) = emit_in_turn-IsChain key rest done.0.1 done.1 named.1 in
      let (chain', ends') =
        after_step key report table done.0.1 (delivered_by done.0.0) _ named.0
          (maybe_emit-Step event_id report table w) chain in
      (chain', ends ∙ sym ends')
