-- ===== src/Agent/Database.antt =====
-- The tables of backend/src/core/models.py that the agent reads and writes, as lists of rows in the
-- order of their creation, and the SQL statements of the agent over them.
use drift_triage_co_pilot.Prelude.{
  ℕ, ◌≡◌, ◌↔◌, Bool, true, false, ◌&&◌, String, Option, List, [], ◌∷◌, ◌++◌, arith, Equality, ◌==◌,
  string_eq, if◌then◌else◌, map,
}
use drift_triage_co_pilot.Worker.Dedup.{Action}

-- The values of `investigations.status`, and of `AgentState.status`.
pub data Status : Type 0 where
  open_ awaiting_approval resolved : Status

abbrev status_beq : Status → Status → Bool
status_beq open_ open_ = true
status_beq awaiting_approval awaiting_approval = true
status_beq resolved resolved = true
status_beq _ _ = false

pub status_beq_iff : (a b : Status) → (status_beq a b ≡ true) ↔ (a ≡ b)
status_beq_iff a b = ground arith

instance abbrev pub status_eq : Equality Status
status_eq = record { test = status_beq; agrees = status_beq_iff }

pub record Investigation : Type 0 where
  pub id : String
  pub drift_event_id : String
  pub drift_report_id : String
  pub status : Status
  pub summary_md : String

-- The values of `hil_approvals.status` and, but for `pending`, of `decision`.
pub data ApprovalStatus : Type 0 where
  pending approved rejected : ApprovalStatus

abbrev approval_status_beq : ApprovalStatus → ApprovalStatus → Bool
approval_status_beq pending pending = true
approval_status_beq approved approved = true
approval_status_beq rejected rejected = true
approval_status_beq _ _ = false

pub approval_status_beq_iff : (a b : ApprovalStatus) → (approval_status_beq a b ≡ true) ↔ (a ≡ b)
approval_status_beq_iff a b = ground arith

instance abbrev pub approval_status_eq : Equality ApprovalStatus
approval_status_eq = record { test = approval_status_beq; agrees = approval_status_beq_iff }

pub record HilApproval : Type 0 where
  pub id : String
  pub investigation_id : String
  pub action : Action
  pub rationale : String
  pub model_version : ℕ
  pub status : ApprovalStatus
  pub decision : Option ApprovalStatus

pub record Database : Type 0 where
  pub investigations : List Investigation
  pub hil_approvals : List HilApproval

-- `WHERE id = :id`
abbrev pub investigation_is : String → Investigation → Bool
investigation_is id row = row.id == id

-- `SELECT ... FROM hil_approvals WHERE id = :id AND investigation_id = :investigation_id`
abbrev pub approval_is : String → String → HilApproval → Bool
approval_is id investigation_id row = row.id == id && row.investigation_id == investigation_id

-- `INSERT INTO hil_approvals ...`, with status 'pending' and no decision
unfoldable pub insert_approval : HilApproval → Database → Database
insert_approval row db = record db { hil_approvals = db.hil_approvals ++ row ∷ [] }

-- `UPDATE investigations SET summary_md, status WHERE id = :id`
unfoldable pub update_investigation : String → String → Status → Database → Database
update_investigation id summary status db = record db {
  investigations =
      map
        (λ row.
          if investigation_is id row
          then record row { summary_md = summary; status = status }
          else row)
        db.investigations;
}
