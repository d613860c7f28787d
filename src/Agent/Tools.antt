-- ===== src/Agent/Tools.antt =====
-- backend/src/agent/tools: `safe_run` of base.py and the `run` of each tool. What a tool calls outside
-- the repository answers with a value or an exception; those answers are arguments.
pub mod SafeRun
use Prim.Native.String.{count}
use drift_triage_co_pilot.Prelude.{
  ℕ, ◌≡◌, Bool, true, false, ◌&&◌, ◌||◌, String, ◌&◌, truthy, str_int, Option, none, some, ◌⊎◌, inl,
  inr, List, [], ◌∷◌, leb, if◌then◌else◌, find_first, Result, ok, raised, Exception,
  validation_error, http_status_error, timeout_exception, network_error, integrity_error,
  stale_investigation, http_exception, value_error, runtime_error, other_error,
}
use drift_triage_co_pilot.Drift.Severity.{Severity, low, medium, high, severity_text}
use drift_triage_co_pilot.Drift.Report.{DriftReport}
use drift_triage_co_pilot.Worker.Dedup.{
  Action, replay_test, retrain, rollback, no_action, action_text, Redis, Job, Broker, EnqueueStatus,
  EnqueueResult, enqueue_with_dedup,
}
use drift_triage_co_pilot.Agent.Security.{sanitize_feature_string}
use drift_triage_co_pilot.Agent.Database.{
  Status, HilApproval, pending, Database, investigation_is, insert_approval, update_investigation,
}

-- `ToolResult`: `ok=True` with a result, or `ok=False` with an error text and whether to retry.
pub data ToolResult (A : Type 0) : Type 0 where
  succeeded : A → ToolResult A
  failed : (error : String) (retryable : Bool) → ToolResult A

-- `str(exc)`; the message of `StaleInvestigationError` quotes its identifiers, which hold no quotes.
unfoldable pub str_exception : Exception → String
str_exception (validation_error m) = m
str_exception (http_status_error code m) = m
str_exception (timeout_exception m) = m
str_exception (network_error m) = m
str_exception (integrity_error m) = m
str_exception (stale_investigation opened current) =
    "Investigation opened on report '" & opened & "' but current report is '" & current
    & "'. HIL approval is stale — abort and re-triage."
str_exception (http_exception code m) = m
str_exception (value_error m) = m
str_exception (runtime_error m) = m
str_exception (other_error m) = m

-- The `except` clauses around `run`.
unfoldable pub wrap : {A : Type 0} → Result A → ToolResult A
unfolding str_exception
wrap (ok a) = succeeded a
wrap (raised (http_status_error code m)) = failed ("upstream " & str_int code) false
wrap (raised (timeout_exception m)) = failed ("unreachable: " & m) true
wrap (raised (network_error m)) = failed ("unreachable: " & m) true
wrap (raised e) = failed (str_exception e) false

-- `safe_run`: `validate` is the input schema's check of the raw arguments; it raises nothing but a
-- ValidationError, whose text it gives.
module _ {Raw Args A W : Type 0} where
  unfoldable pub safe_run :
      (validate : Raw → Args ⊎ String) (run : Args → W → Result A × W) → Raw → W → ToolResult A × W
  unfolding wrap
  safe_run validate run raw w = elim (validate raw) [
    | inl args ↦ let (result, w') = run args w in (wrap result, w')
    | inr problem ↦ (failed ("invalid args: " & problem) false, w)
  ]

-- inspect_drift.py: `fetch` is `_fetch_report` with its retries, and looks at no name.
unfoldable pub inspect_drift :
    {F W : Type 0} → (fetch : Result (DriftReport F)) → String → W → ToolResult (DriftReport F) × W
unfolding safe_run
inspect_drift fetch =
    safe_run
      (λ name.
        if truthy name then inl name else inr "model_name: String should have at least 1 character")
      (λ name w. (fetch, w))

pub record ProposeActionInput : Type 0 where
  pub investigation_id : String
  pub severity : Severity
  pub drifted_features : List String
  pub hypothesis : String

pub record ProposeActionOutput : Type 0 where
  pub action : Action
  pub rationale : String
  pub requires_hil : Bool
  pub priority : Severity

-- `min_length=1, max_length=1024`
abbrev pub has_length : ℕ → ℕ → String → Bool
has_length least most s = leb least (count s) && leb (count s) most

abbrev validate_proposal : ProposeActionInput → ProposeActionInput ⊎ String
validate_proposal input =
    if has_length 1 1024 input.hypothesis then inl input else inr "hypothesis: String length"

-- `str(names)` of a list of names that hold no quotes
abbrev quoted_names : List String → String
quoted_names [] = "]"
quoted_names (x ∷ []) = "'" & x & "']"
quoted_names (x ∷ y ∷ xs) = "'" & x & "', " & quoted_names (y ∷ xs)

abbrev str_features : List String → String
str_features names = "[" & quoted_names names

unfoldable pub run_propose_action : ProposeActionInput → ProposeActionOutput
run_propose_action args = elim args.severity [
  | low ↦ record {
    action = no_action;
    rationale = "Severity too low to warrant intervention.";
    requires_hil = false;
    priority = low;
  }
  | other ↦ record {
    action = elim args.severity [ high ↦ retrain | _ ↦ replay_test ];
    rationale =
        "Severity="
        & severity_text args.severity
        & ". Features drifted: "
        & str_features args.drifted_features
        & ".";
    requires_hil = true;
    priority = args.severity;
  }
]

unfoldable pub propose_action :
    {W : Type 0} → ProposeActionInput → W → ToolResult ProposeActionOutput × W
unfolding safe_run run_propose_action
propose_action = safe_run validate_proposal (λ args w. (ok (run_propose_action args), w))

pub record RequestHilInput : Type 0 where
  pub investigation_id : String
  pub action : Action
  pub rationale : String
  pub model_version : ℕ

-- `Literal["replay_test", "retrain", "rollback"]`
abbrev pub is_dispatchable : Action → Bool
is_dispatchable no_action = false
is_dispatchable other = true

abbrev pub validate_request : RequestHilInput → RequestHilInput ⊎ String
validate_request input =
    if is_dispatchable input.action && has_length 1 2048 input.rationale
    then inl input
    else inr "action, rationale"

-- `approval_id` is drawn by `uuid4`; `fault` is what the database raises. The foreign key wants a row of
-- the investigation. The result is the approval's identifier.
unfoldable pub run_request_hil :
    (approval_id : String) (fault : Option Exception)
    → RequestHilInput
    → Database
    → Result String × Database
run_request_hil approval_id fault args db = elim fault [
  | some e ↦ (raised e, db)
  | none ↦ elim (find_first (investigation_is args.investigation_id) db.investigations) [
    | none ↦ (raised (integrity_error "hil_approvals_investigation_id_fkey"), db)
    | some row ↦ (
      ok approval_id,
      insert_approval
          (record {
            id = approval_id;
            investigation_id = args.investigation_id;
            action = args.action;
            rationale = args.rationale;
            model_version = args.model_version;
            status = pending;
            decision = none;
          })
          db,
    )
  ]
]

unfoldable pub request_hil :
    (approval_id : String) (fault : Option Exception)
    → RequestHilInput
    → Database
    → ToolResult String × Database
unfolding safe_run run_request_hil insert_approval
request_hil approval_id fault = safe_run validate_request (run_request_hil approval_id fault)

pub record DispatchActionInput : Type 0 where
  pub investigation_id : String
  pub action : Action
  pub hil_approval_id : String
  pub model_version : ℕ

abbrev validate_dispatch : DispatchActionInput → DispatchActionInput ⊎ String
validate_dispatch input = if is_dispatchable input.action then inl input else inr "action"

-- The job that `run` of dispatch_action.py asks for; `job_id` is drawn by `uuid4`, `now` is the time.
unfoldable pub dispatch_job : (job_id : String) (now : ℕ) → DispatchActionInput → Job
dispatch_job job_id now args = record {
  job_type = args.action;
  investigation_id = args.investigation_id;
  idempotency_key = action_text args.action & ":" & args.investigation_id;
  model_version = args.model_version;
  hil_approval_id = args.hil_approval_id;
  job_id = job_id;
  enqueued_at = now;
}

unfoldable pub dispatch_action :
    {S : Type 0} ⦃r : Redis S⦄
    → (job_id : String) (now : ℕ) (fault : Option Exception) → DispatchActionInput
    → Broker S
    → ToolResult EnqueueResult × Broker S
unfolding safe_run dispatch_job
dispatch_action job_id now fault =
    safe_run validate_dispatch (λ args b. enqueue_with_dedup fault (dispatch_job job_id now args) b)

-- compose_summary.py: `answer` is what `call_llm` gives for the prompt, before it is sanitized.
unfoldable pub compose_summary :
    {W : Type 0} → (nfkc : String → String) (answer : Result String) → W → ToolResult String × W
unfolding wrap sanitize_feature_string
compose_summary nfkc answer w = elim answer [
  | ok text ↦ (wrap (ok (sanitize_feature_string nfkc text)), w)
  | raised e ↦ (wrap (raised e), w)
]

-- update_dashboard.py
unfoldable pub update_dashboard :
    (fault : Option Exception) (investigation_id summary : String) → Status → Database → Database
update_dashboard fault investigation_id summary status db = elim fault [
  | some e ↦ db
  | none ↦ update_investigation investigation_id summary status db
]
