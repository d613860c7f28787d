-- ===== src/Agent/Hil/Decision.antt =====
-- The effects of `approve_hil` and of the reset on the approvals, as the dispatch reads them.
use drift_triage_co_pilot.Prelude.{
  ◌≡◌, inl, inr, refl, true, false, ◌&&◌, String, some, List, [], ◌∷◌, ◌==◌, string_eq, map,
  filter_by, All, Bool-cases, beq-path, and-both, arith, if◌then◌else◌,
}
use drift_triage_co_pilot.Agent.Database.{
  HilApproval, ApprovalStatus, approved, rejected, approval_status_eq, Database, approval_is,
}
use drift_triage_co_pilot.Agent.Hil.{
  HilApprovalRequest, approve_hil, admin_reset, close_approval, list_hil_approvals, is_pending,
}
use drift_triage_co_pilot.Agent.Graph.Approval.{approves_not, HasNoApproval}

recorded-All :
    (d : ApprovalStatus) (approval_id investigation_id id : String) (rows : List HilApproval)
    → (d == approved && investigation_id == id) ≡ false
    → All (λ row. approves_not id row ≡ true) rows
    → All
        (λ row. approves_not id row ≡ true)
        (map
          (λ (row : HilApproval).
            if approval_is approval_id investigation_id row
            then record row { status = d; decision = some d }
            else row)
          rows)
recorded-All d approval_id investigation_id id [] denied none_yet = tt
recorded-All d approval_id investigation_id id (row ∷ rows) denied none_yet = (
  elim (Bool-cases (approval_is approval_id investigation_id row)) [
    | inl found ↦ rw found (
        ground (
          arith,
          denied,
          beq-path row.investigation_id investigation_id
              (and-both (row.id == approval_id) (row.investigation_id == investigation_id) found).1,
        ))
    | inr other ↦ rw other none_yet.0
  ],
  recorded-All d approval_id investigation_id id rows denied none_yet.1,
)

reset-All :
    (id : String) (rows : List HilApproval)
    → All (λ row. approves_not id row ≡ true) rows
    → All (λ row. approves_not id row ≡ true) (map close_approval rows)
reset-All id [] none_yet = tt
reset-All id (row ∷ rows) none_yet = (ground (arith, none_yet.0), reset-All id rows none_yet.1)

none_pending :
    (rows : List HilApproval)
    → filter_by (λ (row : HilApproval). is_pending row.status) (map close_approval rows) ≡ []
none_pending [] = refl
none_pending (row ∷ rows) = ground (arith, none_pending rows)

-- A decision other than "approved", or on another investigation, gives the investigation `id` no approval if it
-- has none.
pub approve_hil-HasNoApproval :
    (id : String) (payload : HilApprovalRequest) (db : Database)
    → (payload.decision == "approved" && payload.investigation_id == id) ≡ false
    → HasNoApproval id db
    → HasNoApproval id (approve_hil payload db).1
unfolding approve_hil
approve_hil-HasNoApproval id payload db denied none_yet =
    elim (Bool-cases (payload.decision == "approved")) [
      | inl approves ↦
          rw (approves, approve_hil)
            (recorded-All approved payload.hil_approval_id payload.investigation_id id
              db.hil_approvals (ground (arith, approves, denied)) none_yet)
      | inr other ↦ elim (Bool-cases (payload.decision == "rejected")) [
        | inl rejects ↦
            rw (other, rejects, approve_hil)
              (recorded-All rejected payload.hil_approval_id payload.investigation_id id
                db.hil_approvals refl none_yet)
        | inr neither ↦ rw (other, neither, approve_hil) none_yet
      ]
    ]

-- A reset of the database gives no investigation an approval that has none, and leaves no request pending.
pub admin_reset-HasNoApproval :
    (id : String) (db : Database)
    → HasNoApproval id db
    → HasNoApproval id (admin_reset db) × (list_hil_approvals (admin_reset db) ≡ [])
unfolding admin_reset list_hil_approvals
admin_reset-HasNoApproval id db none_yet =
    (reset-All id db.hil_approvals none_yet, rw (none_pending db.hil_approvals) refl)
