-- ===== src/Agent/Hil.antt =====
-- backend/src/agent/routers/hil.py, admin.py and investigations.py over the tables.
pub mod Decision
use drift_triage_co_pilot.Prelude.{
  ℕ, zero, suc, Bool, true, false, not, ◌||◌, String, Option, none, some, List, [], ◌∷◌, ◌==◌,
  string_eq, if◌then◌else◌, map, take, filter_by, find_first, Result, ok, raised, http_exception,
}
use drift_triage_co_pilot.Worker.Dedup.{Action}
use drift_triage_co_pilot.Agent.Database.{
  Status, open_, awaiting_approval, resolved, Investigation, ApprovalStatus, pending, approved,
  rejected, HilApproval, Database, approval_is, investigation_is,
}

pub record HilApprovalRequest : Type 0 where
  pub investigation_id : String
  pub hil_approval_id : String
  pub decision : String

-- `payload.decision not in ("approved", "rejected")`
unfoldable pub read_decision : String → Option ApprovalStatus
read_decision d =
    if d == "approved" then some approved else if d == "rejected" then some rejected else none

-- `UPDATE hil_approvals SET status, decision WHERE id AND investigation_id`
unfoldable pub record_decision : ApprovalStatus → String → String → Database → Database
record_decision d approval_id investigation_id db = record db {
  hil_approvals =
      map
        (λ row.
          if approval_is approval_id investigation_id row
          then record row { status = d; decision = some d }
          else row)
        db.hil_approvals;
}

-- `UPDATE investigations SET status = 'resolved' WHERE id`
unfoldable pub resolve_investigation : String → Database → Database
resolve_investigation id db = record db {
  investigations =
      map (λ row. if investigation_is id row then record row { status = resolved } else row)
        db.investigations;
}

-- `approve_hil` up to its commit: the new database, and whether the graph is resumed.
unfoldable pub approve_hil : HilApprovalRequest → Database → Result Bool × Database
unfolding read_decision record_decision resolve_investigation
approve_hil payload db = elim (read_decision payload.decision) [
  | none ↦ (raised (http_exception 400 "decision must be 'approved' or 'rejected'"), db)
  | some approved ↦
      (ok true, record_decision approved payload.hil_approval_id payload.investigation_id db)
  | some other ↦ (
    ok false,
    resolve_investigation payload.investigation_id
        (record_decision other payload.hil_approval_id payload.investigation_id db),
  )
]

abbrev close_investigation : Investigation → Investigation
close_investigation row = record row { status = resolved }

abbrev pub close_approval : HilApproval → HilApproval
close_approval row = elim row.status [
  | pending ↦ record row { status = rejected; decision = some rejected }
  | other ↦ row
]

-- `POST /admin/reset`
unfoldable pub admin_reset : Database → Database
admin_reset db = record db {
  investigations = map close_investigation db.investigations;
  hil_approvals = map close_approval db.hil_approvals;
}

-- `GET /hil/approvals`: the pending requests, the newest first, at most fifty.
reverse_onto : {A : Type 0} → List A → List A → List A
reverse_onto acc [] = acc
reverse_onto acc (x ∷ xs) = reverse_onto (x ∷ acc) xs

abbrev pub is_pending : ApprovalStatus → Bool
is_pending pending = true
is_pending other = false

unfoldable pub list_hil_approvals : Database → List HilApproval
unfolding reverse_onto
list_hil_approvals db =
    take 50 (reverse_onto [] (filter_by (λ row. is_pending row.status) db.hil_approvals))

-- `GET /investigations/{id}`
unfoldable pub get_investigation : String → Database → Result Investigation
get_investigation id db = elim (find_first (investigation_is id) db.investigations) [
  | none ↦ raised (http_exception 404 "Investigation not found")
  | some row ↦ ok row
]
