-- ===== src/Frontend/Tests.antt =====
-- The theorems on the dashboard and the injected batch at concrete inputs.
use mathlib.Core.List.{Perm}
use drift_triage_co_pilot.Prelude.{
  ℕ, ◌+◌, ◌≡◌, refl, true, false, String, Option, none, some, List, [], ◌∷◌, ◌++◌, map, length, min,
  ok, codes, str_int, ◌&◌, arith,
}
use drift_triage_co_pilot.Settings.{default_settings}
use drift_triage_co_pilot.Floating.Fixed.{Fixed, fixed_float, Fixed-IsOrdered}
use drift_triage_co_pilot.Service.Promotion.{
  Registry, ModelVersion, PromotionRequest, staging, pass_gates,
}
use drift_triage_co_pilot.Drift.Severity.{high}
use drift_triage_co_pilot.Worker.Dedup.{retrain}
use drift_triage_co_pilot.Agent.Database.{open_}
use drift_triage_co_pilot.Agent.State.{AgentState, unset}
use drift_triage_co_pilot.Agent.Dispatch.{build_metadata_prefix}
use drift_triage_co_pilot.Frontend.Field.{extract_field}
use drift_triage_co_pilot.Frontend.Field.Search.{IsPlain, literal-IsPlain}
use drift_triage_co_pilot.Frontend.Field.RoundTrip.{extract_field-build_metadata_prefix}
use drift_triage_co_pilot.Prelude.Sorting.{sorted_by}
use drift_triage_co_pilot.Drift.Chi2.{Chi2Result}
use drift_triage_co_pilot.Drift.Output.{no_output_drift}
use drift_triage_co_pilot.Drift.Report.{DriftReport}
use drift_triage_co_pilot.Frontend.Top.{TopFeature, ranked_items, top_drift_features}
use drift_triage_co_pilot.Frontend.Top.Shown.{without_zeros, top_drift_features-without_zeros}
use drift_triage_co_pilot.Frontend.Badge.{Badge, shown_badge, is_eligible, is_ok, badge-pass_gates}
use drift_triage_co_pilot.Frontend.Batch.{Row, Payload, Reading, prediction_payload, inject_batch}

abbrev version_of : ℕ → Fixed → ModelVersion Fixed
version_of v auc = record { version = v; stage = staging; auc = some auc; recall = some 80_000_000 }

-- A registry whose Production version has an AUC of 0.9.
instance abbrev fixed_registry : Registry Fixed ℕ
fixed_registry = record {
  get_model_version = λ name v r. some (version_of v 90_000_000);
  latest_production = λ name r. version_of 1 90_000_000 ∷ [];
  transition_stage = λ name v stage r. r + 1;
}

abbrev request : PromotionRequest
request = record {
  model_name = "bank";
  target_version = 2;
  investigation_id = "i1";
  hil_approval_id = "h1";
}

badge-pass_gates_example :
    (b : Badge) × (shown_badge (version_of 1 90_000_000 ∷ []) (version_of 2 88_000_000 ∷ [])
      ≡ some b)
    × (is_eligible b
        ≡ is_ok (pass_gates {R = ℕ} (default_settings "key") request (version_of 2 88_000_000) 0).0)
badge-pass_gates_example =
    badge-pass_gates Fixed-IsOrdered (default_settings "key") request (version_of 2 88_000_000) [] 0
      refl refl refl refl refl refl

abbrev read : Reading ℕ Fixed
read = record { float_of = λ s. ok 4_100_000_000; int_of = λ x. ok 41 }

abbrev no_rows : List Row
no_rows = [] ∷ (("age", "41") ∷ []) ∷ []

abbrev post : Payload ℕ Fixed → ℕ → Option String × ℕ
post _ n = (none, n + 1)

-- Every row fails, so the script ends with 2 and asks for no report.
all_failed :
    (inject_batch
      (prediction_payload read)
      (λ e. "missing")
      post
      false
      (λ n. (true, n))
      no_rows
      0).0.1
    ≡ 2
unfolding inject_batch prediction_payload
all_failed = refl

-- The state of an investigation whose action is proposed.
abbrev proposed : AgentState Fixed
proposed = record {
  investigation_id = "i1";
  alert = record {
    severity = some high;
    model_name = some "drift-triage-classifier";
    model_version = some 12;
  };
  report = none;
  triage_notes = "";
  proposed_action = some retrain;
  action_rationale = none;
  requires_hil = true;
  hil_approval_id = none;
  awaiting_approval = true;
  summary_md = "";
  dispatch_status = unset;
  status = open_;
  drift_report_id = "r1";
  next_step = none;
  comms_done = false;
}

model_name-IsPlain : IsPlain (codes "drift-triage-classifier")
model_name-IsPlain = literal-IsPlain (codes "drift-triage-classifier") refl (omega arith)

extract_field-build_metadata_prefix_example :
    let summary = some (build_metadata_prefix proposed & "action=none, severity=low") in
    (extract_field summary "severity" ≡ codes "high")
    × (extract_field summary "model_name" ≡ codes "drift-triage-classifier")
    × (extract_field summary "model_version" ≡ codes (str_int 12))
    × (extract_field summary "action" ≡ codes "retrain")
extract_field-build_metadata_prefix_example =
    extract_field-build_metadata_prefix proposed "action=none, severity=low" model_name-IsPlain

-- A dot ends the value that the dashboard reads.
dotted_name : extract_field (some "model_name=bank.v2, ") "model_name" ≡ codes "bank"
unfolding extract_field
dotted_name = refl

abbrev chi2_of : String → Fixed → Chi2Result Fixed
chi2_of feature p_value = record {
  feature = feature;
  statistic = 900_000_000;
  p_value = p_value;
  dof = 2;
  severity = high;
  reference_n = 500;
  current_n = 500;
}

-- The strongest drift, of `job`, has the p-value 0.
abbrev drifted : DriftReport Fixed
drifted = record {
  report_id = "r1";
  model_name = "bank";
  model_version = 1;
  timestamp = 7;
  psi_results = [];
  chi2_results = chi2_of "job" 0 ∷ chi2_of "month" 4_000_000 ∷ [];
  output_drift = no_output_drift (record { class_0 = none; class_1 = none });
  severity = high;
  window_size = 500;
}

abbrev keep : Fixed → ℕ → Fixed
keep x n = x

shown_first : map (λ t. t.feature) (top_drift_features keep drifted 3) ≡ "month" ∷ "job" ∷ []
unfolding top_drift_features sorted_by
shown_first = refl

top_drift_features-without_zeros_example :
    (rest : List (TopFeature Fixed)) × Perm
      (top_drift_features keep drifted 1 ++ rest)
      (map (λ r. r.item) (ranked_items keep drifted))
    × (length (top_drift_features keep drifted 1) ≡ min 1 2)
    × (top_drift_features keep drifted 1 ≡ top_drift_features keep (without_zeros drifted) 1)
top_drift_features-without_zeros_example = top_drift_features-without_zeros keep drifted 1
