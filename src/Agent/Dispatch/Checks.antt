-- ===== src/Agent/Dispatch/Checks.antt =====
-- `dispatch_node` of backend/src/agent/graph.py: what holds whenever it changes the queue.
use drift_triage_co_pilot.Prelude.{
  ℕ, ◌≡◌, ◌⊎◌, inl, inr, refl, true, false, not, ◌&&◌, String, truthy, none, some, List, [], ◌∷◌,
  string_eq, nat_eq, option_eq, find_first, Bool-cases, Option-cases, Result-cases, ok, arith,
  Occurs, beq-path, and-both,
}
use drift_triage_co_pilot.Worker.Dedup.{Action, Redis, action_eq}
use drift_triage_co_pilot.Agent.Database.{
  HilApproval, approved, Database, approval_is, approval_status_eq,
}
use drift_triage_co_pilot.Agent.State.{AgentState, World, Answers}
use drift_triage_co_pilot.Agent.Tools.{is_dispatchable}
use drift_triage_co_pilot.Drift.Report.{DriftReport}
use drift_triage_co_pilot.Drift.Severity.{severity_eq}
use drift_triage_co_pilot.Agent.Routing.{alert_version}
use drift_triage_co_pilot.Agent.Nodes.{approval_is_valid, row_is_valid, row_approves}
use drift_triage_co_pilot.Agent.Dispatch.{dispatch_node, freshness_error, reconciled_model_version}

-- The rows hold an approval of the action at the version, under the identifiers given.
abbrev pub IsApproved : String → String → Action → ℕ → List HilApproval → Type 0
IsApproved id investigation_id act version rows =
    (row : HilApproval) × Occurs row rows
    × (row.id ≡ id)
    × (row.investigation_id ≡ investigation_id)
    × (row.status ≡ approved)
    × (row.decision ≡ some approved)
    × (row.action ≡ act)
    × (row.model_version ≡ version)

row-IsApproved :
    (id investigation_id : String) (act : Action) (version : ℕ) (row : HilApproval)
    (rows : List HilApproval)
    → Occurs row rows
    → approval_is id investigation_id row ≡ true
    → row_approves act version row ≡ true
    → IsApproved id investigation_id act version rows
row-IsApproved id investigation_id act version row rows here found valid =
    let (same_id, same_investigation) = and-both _ _ found in
    let (status, other) = and-both _ _ valid in
    let (decision, other') = and-both _ _ other in
    let (same_action, same_version) = and-both _ _ other' in
    (
      row,
      here,
      beq-path _ _ same_id,
      beq-path _ _ same_investigation,
      beq-path _ _ status,
      beq-path _ _ decision,
      beq-path _ _ same_action,
      beq-path _ _ same_version,
    )

find-IsApproved :
    (id investigation_id : String) (act : Action) (version : ℕ) (rows : List HilApproval)
    → row_is_valid act version (find_first (approval_is id investigation_id) rows) ≡ true
    → IsApproved id investigation_id act version rows
find-IsApproved id investigation_id act version [] valid = ground (arith, valid)
find-IsApproved id investigation_id act version (row ∷ rows) valid =
    elim (Bool-cases (approval_is id investigation_id row)) [
      | inl found ↦
          row-IsApproved id investigation_id act version row (row ∷ rows) (inl refl) found
            (rw (found, row_is_valid) at valid)
      | inr other ↦
          let (r, here, a, b, c, d, e, f) =
            find-IsApproved id investigation_id act version rows
              (rw (other, row_is_valid) at valid) in
          (r, inr here, a, b, c, d, e, f)
    ]

module _ {F : Type 0} where
  -- The proposed action has an approval of its own.
  abbrev pub ProposalIsApproved : AgentState F → Database → Type 0
  ProposalIsApproved s db =
      (act : Action) × (id : String) × (s.proposed_action ≡ some act)
      × (s.hil_approval_id ≡ some id)
      × (truthy id ≡ true)
      × IsApproved id s.investigation_id act (alert_version s) db.hil_approvals

  valid-ProposalIsApproved :
      (s : AgentState F) (db : Database) → approval_is_valid s db ≡ true → ProposalIsApproved s db
  unfolding approval_is_valid
  valid-ProposalIsApproved s db valid = elim (Option-cases s.proposed_action) [
    | inl nothing ↦ ground (arith, rw (nothing, approval_is_valid) at valid)
    | inr (act, proposed) ↦ elim (Option-cases s.hil_approval_id) [
      | inl nothing ↦ ground (arith, rw (proposed, nothing, approval_is_valid) at valid)
      | inr (id, asked) ↦
          let checked : ((truthy id && is_dispatchable act)
                && row_is_valid act (alert_version s)
                    (find_first (approval_is id s.investigation_id) db.hil_approvals))
              ≡ true =
            rw (proposed, asked, approval_is_valid) at valid in
          let (sound, held) = and-both _ _ checked in
          (
            act,
            id,
            proposed,
            asked,
            (and-both _ _ sound).0,
            find-IsApproved id s.investigation_id act (alert_version s) db.hil_approvals held,
          )
    ]
  ]

  -- The drift report of now is the one that the investigation was opened on, or has its severity.
  abbrev pub IsFresh : Answers F → AgentState F → Type 0
  IsFresh a s =
      (current : DriftReport F) × (a.fetch_report ≡ ok current)
      × ((s.drift_report_id ≡ current.report_id) ⊎ (s.alert.severity ≡ some current.severity))

  freshness-IsFresh :
      (a : Answers F) (s : AgentState F)
      → truthy s.drift_report_id ≡ true
      → freshness_error a s ≡ none
      → IsFresh a s
  unfolding freshness_error
  freshness-IsFresh a s opened fresh = elim (Result-cases a.fetch_report) [
    | inl (current, fetched) ↦ (
      current,
      fetched,
      ground (
        arith,
        fetched,
        beq-path s.drift_report_id current.report_id,
        beq-path s.alert.severity (some current.severity),
      ),
    )
    | inr (e, fault) ↦ ground (arith, fault)
  ]

  module _ {S : Type 0} ⦃r : Redis S⦄ where
    -- A dispatch leaves the tables and the broker as they are, unless the state waits for no approval; if it
    -- requires one, a row holds an approval, by the state's identifier, of the proposed action at the alert's
    -- version; if the investigation was opened on a drift report, the report of now is that one or has the
    -- alert's severity; and the reconciliation of the version with the registry gives one.
    pub dispatch_node-checks :
        (a : Answers F) (s : AgentState F) (w : World S)
        → ((dispatch_node a s w).1 ≡ w)
          ⊎ ((s.awaiting_approval ≡ false)
              × ((s.requires_hil ≡ false) ⊎ ProposalIsApproved s w.database)
              × ((truthy s.drift_report_id ≡ false) ⊎ IsFresh a s)
              × ((version : ℕ) × (reconciled_model_version a s ≡ ok version)))
    unfolding dispatch_node
    dispatch_node-checks a s w = elim (Option-cases (freshness_error a s)) [
      | inr (problem, stale) ↦ inl (ground (arith, stale))
      | inl fresh ↦ elim (Result-cases (reconciled_model_version a s)) [
        | inr (e, mismatch) ↦ inl (ground (arith, fresh, mismatch))
        | inl (version, reconciled) ↦ elim (Bool-cases s.awaiting_approval) [
          | inl waits ↦ inl (ground (arith, waits))
          | inr proceeds ↦
              elim (Bool-cases (s.requires_hil && not (approval_is_valid s w.database))) [
                | inl invalid ↦ inl (ground (arith, invalid))
                | inr passes ↦ inr (
                  proceeds,
                  elim (Bool-cases s.requires_hil) [
                    | inl needed ↦
                        inr (valid-ProposalIsApproved s w.database (ground (arith, needed, passes)))
                    | inr unneeded ↦ inl unneeded
                  ],
                  elim (Bool-cases (truthy s.drift_report_id)) [
                    | inl opened ↦ inr (freshness-IsFresh a s opened fresh)
                    | inr unopened ↦ inl unopened
                  ],
                  (version, reconciled),
                )
              ]
        ]
      ]
    ]
