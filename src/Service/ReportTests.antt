-- ===== src/Service/ReportTests.antt =====
-- The theorems on the predictions and the reports at concrete tables.
use drift_triage_co_pilot.Prelude.{
  ℕ, ◌+◌, ◌≡◌, refl, false, nat_eq, String, none, some, List, [], ◌∷◌, ◌++◌, map, take, length, min,
  ok, arith,
}
use drift_triage_co_pilot.Settings.{default_settings}
use drift_triage_co_pilot.Floating.Fixed.{Fixed, fixed_float, fixed_numpy}
use drift_triage_co_pilot.Drift.Severity.{low, high}
use drift_triage_co_pilot.Drift.Report.{DriftReport, report_to_webhook}
use drift_triage_co_pilot.Ml.Reference.{ReferenceStats, IsReference}
use drift_triage_co_pilot.Service.Alerts.{alert_state, maybe_emit_severity_webhook, deliver}
use drift_triage_co_pilot.Service.Predictions.{
  PredictRequest, AppState, Prediction, fetch_rolling_window,
}
use drift_triage_co_pilot.Service.Predictions.Window.{
  of_row, of_response, predict_all, predict_all-fetch_rolling_window,
}
use drift_triage_co_pilot.Service.Reports.{DriftState, compute_drift, get_drift_report, reset_drift}
use drift_triage_co_pilot.Service.Reports.Cache.{
  Request, serve_in_turn, time_of, IsRateLimited, serve_in_turn-IsRateLimited,
}
use drift_triage_co_pilot.Service.Reports.Reset.{reset_drift-report}
use drift_triage_co_pilot.Service.DriftTests.{report_of, good_post}

abbrev pub client : PredictRequest Fixed
client = record {
  age = 41;
  job = "admin.";
  marital = "single";
  education = "unknown";
  default = "no";
  housing = "yes";
  loan = "no";
  contact = "cellular";
  month = "may";
  day_of_week = "mon";
  campaign = 2;
  pdays = (false, 999);
  previous = 0;
  poutcome = "nonexistent";
  emp_var_rate = 110_000_000;
  cons_price_idx = 9_300_000_000;
  cons_conf_idx = 0;
  euribor3m = 485_000_000;
  nr_employed = 519_100_000_000;
}

abbrev pub app : AppState Fixed
app = record { classifier = some (λ _. 60_000_000); threshold = 30_000_000 }

abbrev pub requests : List (String × PredictRequest Fixed)
requests = ("p1", client) ∷ ("p2", record client { age = 17 }) ∷ ("p3", client) ∷ []

predict_all-fetch_rolling_window_example :
    let done = predict_all app requests [] in
    (map of_row (fetch_rolling_window done.1 1) ≡ take 1 (map of_response done.0 ++ map of_row []))
    × (length (fetch_rolling_window done.1 1)
        ≡ min 1 (length done.0 + length {A = Prediction Fixed} []))
predict_all-fetch_rolling_window_example = predict_all-fetch_rolling_window app requests [] 1

abbrev request_at : ℕ → Request Fixed
request_at now = record {
  seen = none;
  arrived = now;
  locked = now;
  computed = ok (report_of "r1" low);
  stored = now + 2;
}

serve_in_turn-IsRateLimited_example :
    IsRateLimited
      (time_of {F = Fixed} none)
      (serve_in_turn (request_at 0 ∷ request_at 30 ∷ request_at 70 ∷ []) none)
serve_in_turn-IsRateLimited_example =
    serve_in_turn-IsRateLimited (request_at 0 ∷ request_at 30 ∷ request_at 70 ∷ []) none
      (omega arith, (omega arith, (omega arith, tt)))

abbrev pub ref_stats : ReferenceStats Fixed
ref_stats = record {
  numeric =
      (
        "age",
        record {
          mean = 4_000_000_000;
          std = 1_000_000_000;
          quantiles = [];
          reference_values = 3_000_000_000 ∷ 5_000_000_000 ∷ [];
        },
      )
      ∷ [];
  categorical = ("contact", ("cellular", 60_000_000) ∷ ("telephone", 40_000_000) ∷ []) ∷ [];
  output_proportions = record { class_0 = some 89_000_000; class_1 = some 11_000_000 };
  dataset_hash = "d1";
}

ref_stats-IsReference : IsReference ref_stats
ref_stats-IsReference = record { samples = (omega arith, tt); shares = ((refl, (refl, tt)), tt) }

abbrev used : DriftState Fixed
used = record {
  predictions = (predict_all app requests []).1;
  drift_alert_state = alert_state (report_of "r0" high) ∷ [];
  drift_cache = some (report_of "r0" high, 3);
}

reset_drift-report_example :
    let clean = reset_drift used in
    (r : DriftReport Fixed) × (r.severity ≡ low)
    × (r.window_size ≡ 0)
    × (get_drift_report false clean.drift_cache 5 clean.drift_cache 5
          (compute_drift fixed_numpy
            (default_settings "key")
            "r1"
            7
            ref_stats
            clean.predictions
            "bank"
            1)
          6
        ≡ record { answer = ok r; cache = some (r, 6); task = some r })
    × (maybe_emit_severity_webhook good_post "e1" r clean.drift_alert_state clean.drift_alert_state
          0
        ≡ deliver good_post r (report_to_webhook "e1" r none) [] 0)
reset_drift-report_example =
    reset_drift-report fixed_numpy (default_settings "key") good_post used ref_stats "r1" 7 "bank" 1
      false 5 5 6 "e1" 0
