-- ===== src/Agent/Staleness.antt =====
-- backend/src/agent/staleness.py and reconcile.py.
use drift_triage_co_pilot.Prelude.{
  ℕ, Bool, not, String, ◌&◌, List, [], ◌∷◌, ◌==◌, string_eq, if◌then◌else◌, Result, ok, raised,
  stale_investigation, runtime_error, ◌>>=◌,
}
use drift_triage_co_pilot.Drift.Report.{DriftReport}

unfoldable pub assert_not_stale : {F : Type 0} → String → DriftReport F → Result (Unit {0})
assert_not_stale investigation_report_id current_report =
    if not (investigation_report_id == current_report.report_id)
    then raised (stale_investigation investigation_report_id current_report.report_id)
    else ok tt

-- The answers of MLflow: whether `get_model_version` finds the stored version, and the versions that
-- `get_latest_versions` gives for the stage Production.
unfoldable pub reconcile_model_uri :
    (found : Bool) (production : Result (List ℕ)) → String → ℕ → Result ℕ
reconcile_model_uri found production model_name stored_version =
    let current : Result ℕ = do
      versions ← production
      elim versions [
        | [] ↦
            raised
              (runtime_error ("No Production version for '" & model_name & "' — cannot reconcile."))
        | v ∷ vs ↦ ok v
      ]
    in if found then ok stored_version else current
