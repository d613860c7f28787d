-- ===== src/Service/DriftTests.antt =====
-- The theorems on the drift router and the predictions at concrete inputs.
use drift_triage_co_pilot.Prelude.{
  ℕ, ◌+◌, ◌≡◌, refl, ◌⊎◌, truthy, true, ltb, if◌then◌else◌, String, none, List, [], ◌∷◌, map,
  Result, ok, raised, Exception, timeout_exception, arith,
}
use drift_triage_co_pilot.Floating.Fixed.{Fixed, fixed_float, Fixed-IsOrdered}
use drift_triage_co_pilot.Drift.Severity.{low, high, Severity}
use drift_triage_co_pilot.Drift.Report.{
  DriftReport, DriftWebhookPayload, webhook_fields, report_to_webhook,
}
use drift_triage_co_pilot.Drift.Report.Payload.{report_to_webhook-valid}
use drift_triage_co_pilot.Service.Alerts.{
  state_key, last_severity_of, emit_webhook, maybe_emit_severity_webhook, sent, unchanged,
}
use drift_triage_co_pilot.Service.Alerts.Chain.{
  IsChain, last_delivered, emit_in_turn, emit_in_turn-IsChain,
}
use drift_triage_co_pilot.Service.Alerts.Changes.{changes, IsSendable, emit_in_turn-changes}
use drift_triage_co_pilot.Service.Alerts.Race.{maybe_emit-race}
use drift_triage_co_pilot.Service.Alerts.Delivery.{
  AgentWorld, arrives, answer_lost, request_lost, post_to_agent, OpensAtMostOne, HasInvestigation,
  emit_webhook-OpensAtMostOne,
}

abbrev pub report_of : String → Severity → DriftReport Fixed
report_of report_id severity = record {
  report_id = report_id;
  model_name = "bank";
  model_version = 1;
  timestamp = 7;
  psi_results = [];
  chi2_results = [];
  output_drift = record {
    psi = 2_000_000;
    severity = severity;
    reference_class_1_rate = 11_000_000;
    current_class_1_rate = 12_000_000;
    current_n = 500;
  };
  severity = severity;
  window_size = 500;
}

-- A client that times out while the count is below 2, and counts the posts.
abbrev slow_post : DriftWebhookPayload Fixed → ℕ → Result (Unit {0}) × ℕ
slow_post _ n = (if ltb n 2 then raised (timeout_exception "read") else ok tt, n + 1)

abbrev payload : DriftWebhookPayload Fixed
payload = webhook_fields "e1" (report_of "r1" high) none

abbrev key : String
key = state_key (report_of "r0" low)

abbrev reports : List (String × DriftReport Fixed)
reports = ("e1", report_of "r1" low) ∷ ("e2", report_of "r2" high) ∷ []

emit_in_turn-IsChain_example :
    let done = emit_in_turn slow_post reports [] 0 in
    IsChain (last_severity_of key []) done.0.0
    × (last_severity_of key done.0.1 ≡ last_delivered (last_severity_of key []) done.0.0)
emit_in_turn-IsChain_example = emit_in_turn-IsChain slow_post key reports [] 0 (refl, (refl, tt))

abbrev pub good_post : DriftWebhookPayload Fixed → ℕ → Result (Unit {0}) × ℕ
good_post _ n = (ok tt, n + 1)

-- The payload of the first report of severity high.
first_payload :
    (event_id report_id : String)
    → truthy event_id ≡ true
    → truthy report_id ≡ true
    → (p : DriftWebhookPayload Fixed) × (report_to_webhook event_id (report_of report_id high) none
        ≡ ok p)
first_payload event_id report_id he hr =
    let (p, built, _, _, _, _, _, _) =
      report_to_webhook-valid Fixed-IsOrdered event_id (report_of report_id high) none he hr refl
        (omega arith)
        (record {
          psi_nonneg = tt;
          statistic_nonneg = tt;
          p_value_nonneg = tt;
          p_value-le-one = tt;
          output_nonneg = refl;
        }) in
    (p, built)

maybe_emit-race_example :
    let done = maybe_emit_severity_webhook good_post "e1" (report_of "r1" high) [] [] 0 in
    (done.0.0 ≡ ok (sent (first_payload "e1" "r1" refl refl).0))
    × ((maybe_emit_severity_webhook good_post "e2" (report_of "r2" high) [] done.0.1 1).0.0
        ≡ ok (sent (first_payload "e2" "r2" refl refl).0))
    × (maybe_emit_severity_webhook good_post "e2" (report_of "r2" high) done.0.1 done.0.1 1
        ≡ ((ok unchanged, done.0.1), 1))
unfolding last_severity_of
maybe_emit-race_example =
    maybe_emit-race good_post (λ p w. refl) "e1" "e2" (report_of "r1" high) (report_of "r2" high)
      (first_payload "e1" "r1" refl refl).0 (first_payload "e2" "r2" refl refl).0 [] 0 1 refl refl
      (λ e. ground (arith, e)) (first_payload "e1" "r1" refl refl).1
      (first_payload "e2" "r2" refl refl).1

abbrev lossy : AgentWorld
lossy = record {
  database = record { investigations = []; hil_approvals = [] };
  requests = (request_lost, "i1") ∷ (answer_lost, "i2") ∷ (arrives, "i3") ∷ [];
}

emit_webhook-OpensAtMostOne_example :
    let done = emit_webhook post_to_agent payload lossy in
    OpensAtMostOne payload lossy.database done.1.database
    × (((e : Exception) × (done.0 ≡ raised e)) ⊎ HasInvestigation payload done.1.database)
emit_webhook-OpensAtMostOne_example = emit_webhook-OpensAtMostOne payload lossy

sendable :
    (event_id report_id : String) (severity : Severity)
    → truthy event_id ≡ true
    → truthy report_id ≡ true
    → IsSendable Fixed-IsOrdered good_post (λ p w. refl) (event_id, report_of report_id severity)
sendable event_id report_id severity he hr = record {
  event_filled = he;
  report_filled = hr;
  name_filled = refl;
  version_pos = omega arith;
  validated = record {
    psi_nonneg = tt;
    statistic_nonneg = tt;
    p_value_nonneg = tt;
    p_value-le-one = tt;
    output_nonneg = refl;
  };
}

emit_in_turn-changes_example :
    map (λ p. p.severity) (emit_in_turn good_post reports [] 0).0.0
    ≡ changes (last_severity_of key []) (low ∷ high ∷ [])
emit_in_turn-changes_example =
    emit_in_turn-changes Fixed-IsOrdered good_post (λ p w. refl) key reports [] 0 (refl, (refl, tt))
      (sendable "e1" "r1" low refl refl, (sendable "e2" "r2" high refl refl, tt))
