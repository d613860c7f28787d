-- ===== src/Migrations/Versions.antt =====
-- backend/migrations/versions: what each revision does, and backend/migrations/env.py, which runs them in one
-- transaction.
use drift_triage_co_pilot.Prelude.{
  ℕ, zero, suc, true, false, String, Option, none, some, List, [], ◌∷◌, ◌==◌, string_eq, option_eq,
  find_first, Result, ok, raised, ◌>>=◌,
}
use drift_triage_co_pilot.Migrations.{
  ColumnType, Column, text, small_integer, integer, double, jsonb, timestamp, TableConstraint,
  primary_key, foreign_key, Operations,
}

-- `sa.Column(…, nullable=False)` and `nullable=True`, and a time that is set by the server.
abbrev pub required : String → ColumnType → Column
required n ty = record { name = n; type = ty; server_default = none; nullable = false }

abbrev pub optional : String → ColumnType → Column
optional n ty = record { name = n; type = ty; server_default = none; nullable = true }

abbrev pub defaulted : String → ColumnType → String → Column
defaulted n ty d = record { name = n; type = ty; server_default = some d; nullable = false }

abbrev pub drift_event_id : Column
drift_event_id = optional "drift_event_id" text

abbrev pub drift_report_id : Column
drift_report_id = optional "drift_report_id" text

-- The tables of the first revision, and the one of the second.
abbrev pub investigations_columns : List Column
investigations_columns =
    required "id" text
    ∷ defaulted "status" text "open"
    ∷ optional "summary_md" text
    ∷ defaulted "created_at" timestamp "now()"
    ∷ defaulted "updated_at" timestamp "now()"
    ∷ []

abbrev pub predictions_columns : List Column
predictions_columns =
    required "id" text
    ∷ required "features" jsonb
    ∷ required "label" small_integer
    ∷ required "probability" double
    ∷ defaulted "created_at" timestamp "now()"
    ∷ []

abbrev pub promotion_events_columns : List Column
promotion_events_columns =
    defaulted "id" text "gen_random_uuid()"
    ∷ required "model_name" text
    ∷ required "promoted_version" integer
    ∷ optional "previous_version" integer
    ∷ optional "investigation_id" text
    ∷ defaulted "created_at" timestamp "now()"
    ∷ []

abbrev pub hil_approvals_columns : List Column
hil_approvals_columns =
    required "id" text
    ∷ required "investigation_id" text
    ∷ required "action" text
    ∷ required "rationale" text
    ∷ required "model_version" integer
    ∷ defaulted "status" text "pending"
    ∷ optional "decision" text
    ∷ defaulted "created_at" timestamp "now()"
    ∷ optional "decided_at" timestamp
    ∷ []

abbrev pub drift_alert_state_columns : List Column
drift_alert_state_columns =
    required "key" text
    ∷ required "last_severity" text
    ∷ required "last_report_id" text
    ∷ defaulted "updated_at" timestamp "now()"
    ∷ []

abbrev pub key_on : String → List TableConstraint
key_on n = primary_key (n ∷ []) ∷ []

module _ {S : Type 0} (op : Operations S) where
  -- b8b18f902dcf, the tables after the extensions
  unfoldable pub create_tables : S → Result S
  create_tables s = do
    a ← op.create_table "investigations" investigations_columns (key_on "id") s
    b ← op.create_table "predictions" predictions_columns (key_on "id") a
    c ← op.create_index "predictions_created_at_idx" "predictions" ("created_at" ∷ []) b
    d ← op.create_table "promotion_events" promotion_events_columns (key_on "id") c
    op.create_table "hil_approvals" hil_approvals_columns
        (foreign_key ("investigation_id" ∷ []) ("investigations.id" ∷ []) ∷ key_on "id") d

  unfoldable pub upgrade_init : S → Result S
  unfolding create_tables
  upgrade_init s = do
    a ← op.create_extension "pgvector" s
    b ← op.create_extension "uuid-ossp" a
    create_tables b

  unfoldable pub downgrade_init : S → Result S
  downgrade_init s = do
    a ← op.drop_table "hil_approvals" s
    b ← op.drop_table "promotion_events" a
    c ← op.drop_index "predictions_created_at_idx" "predictions" b
    d ← op.drop_table "predictions" c
    op.drop_table "investigations" d

  -- 2d9b7f4e6a31
  unfoldable pub upgrade_webhook_state : S → Result S
  upgrade_webhook_state s = do
    a ← op.create_table "drift_alert_state" drift_alert_state_columns (key_on "key") s
    b ← op.add_column "investigations" drift_event_id a
    c ← op.add_column "investigations" drift_report_id b
    d ←
        op.create_unique_constraint "investigations_drift_event_id_key" "investigations"
          ("drift_event_id" ∷ []) c
    op.create_unique_constraint "investigations_drift_report_id_key" "investigations"
        ("drift_report_id" ∷ []) d

  unfoldable pub downgrade_webhook_state : S → Result S
  downgrade_webhook_state s = do
    a ← op.drop_constraint "investigations_drift_report_id_key" "investigations" s
    b ← op.drop_constraint "investigations_drift_event_id_key" "investigations" a
    c ← op.drop_column "investigations" "drift_report_id" b
    d ← op.drop_column "investigations" "drift_event_id" c
    op.drop_table "drift_alert_state" d

  -- e4cdf274589c
  unfoldable pub upgrade_event_ids : S → Result S
  upgrade_event_ids s = do
    a ← op.add_column "investigations" drift_event_id s
    op.add_column "investigations" drift_report_id a

  unfoldable pub downgrade_event_ids : S → Result S
  downgrade_event_ids s = do
    a ← op.drop_column "investigations" "drift_report_id" s
    op.drop_column "investigations" "drift_event_id" a

-- A file of `versions`, by its identifiers and its two functions.
pub record Revision (S : Type 0) : Type 0 where
  pub revision : String
  pub down_revision : Option String
  pub upgrade : S → Result S
  pub downgrade : S → Result S

-- The schema, and the revision that the table `alembic_version_dt` records.
pub record Database (S : Type 0) : Type 0 where
  pub schema : S
  pub version : Option String

module _ {S : Type 0} (op : Operations S) where
  abbrev pub webhook_state : Revision S
  webhook_state = record {
    revision = "2d9b7f4e6a31";
    down_revision = some "b8b18f902dcf";
    upgrade = upgrade_webhook_state op;
    downgrade = downgrade_webhook_state op;
  }

  abbrev pub init : Revision S
  init = record {
    revision = "b8b18f902dcf";
    down_revision = none;
    upgrade = upgrade_init op;
    downgrade = downgrade_init op;
  }

  abbrev pub event_ids : Revision S
  event_ids = record {
    revision = "e4cdf274589c";
    down_revision = some "2d9b7f4e6a31";
    upgrade = upgrade_event_ids op;
    downgrade = downgrade_event_ids op;
  }

  -- The folder.
  abbrev pub versions : List (Revision S)
  versions = webhook_state ∷ init ∷ event_ids ∷ []

  -- The revision that comes after the recorded one.
  abbrev pub next_revision : Option String → Option (Revision S)
  next_revision version = find_first (λ r. r.down_revision == version) versions

  -- At most `n` revisions, one after another.
  unfoldable pub upgrade_by : ℕ → Database S → Result (Database S)
  upgrade_by zero db = ok db
  upgrade_by (suc n) db = elim (next_revision db.version) [
    | none ↦ ok db
    | some r ↦
        r.upgrade db.schema >>= λ s. upgrade_by n (record { schema = s; version = some r.revision })
  ]

-- A transaction that is rolled back when it raises.
abbrev pub in_transaction : {D : Type 0} → D → Result D → Result (Unit {0}) × D
in_transaction db (ok db') = (ok tt, db')
in_transaction db (raised e) = (raised e, db)

-- `alembic upgrade head`: `run_migrations_online`, for the three revisions of the folder.
unfoldable pub run_migrations_online :
    {S : Type 0} → Operations S → Database S → Result (Unit {0}) × Database S
unfolding upgrade_by
run_migrations_online op db = in_transaction db (upgrade_by op 3 db)
