-- ===== src/Migrations/Head.antt =====
-- backend/migrations: the upgrade to the last revision.
use drift_triage_co_pilot.Prelude.{
  ℕ, suc, ◌≡◌, refl, inl, inr, ap, true, none, some, Result, Exception, ok, raised, bind_parts,
  Result-cases,
}
use drift_triage_co_pilot.Migrations.{Operations, IsPostgres}
use drift_triage_co_pilot.Migrations.Versions.{
  Database, upgrade_init, upgrade_webhook_state, upgrade_event_ids, upgrade_by,
  run_migrations_online, drift_event_id, drift_report_id, in_transaction,
}

module _ {S : Type 0} (op : Operations S) (pg : IsPostgres op) where
  -- The table of investigations has the column of the event's identifier.
  abbrev pub HasEventId : S → Type 0
  HasEventId s = op.has_column "investigations" "drift_event_id" s ≡ true

  upgrade_webhook_state-HasEventId : (s s' : S) → upgrade_webhook_state op s ≡ ok s' → HasEventId s'
  unfolding upgrade_webhook_state
  upgrade_webhook_state-HasEventId s s' done =
      let (a, ea, ra) = bind_parts (op.create_table _ _ _ s) _ done in
      let (b, eb, rb) = bind_parts (op.add_column _ _ a) _ ra in
      let (c, ec, rc) = bind_parts (op.add_column _ _ b) _ rb in
      let (d, ed, rd) = bind_parts (op.create_unique_constraint _ _ _ c) _ rc in
      let added = pg.added _ drift_event_id a b eb in
      let with_report = pg.kept_by_column _ drift_report_id _ b c added ec in
      pg.kept_by_unique _ _ _ _ d s' (pg.kept_by_unique _ _ _ _ c d with_report ed) rd

  upgrade_event_ids-raises :
      (s : S) → HasEventId s → (e : Exception) × (upgrade_event_ids op s ≡ raised e)
  unfolding upgrade_event_ids
  upgrade_event_ids-raises s has =
      let (e, refused) = pg.added_again "investigations" drift_event_id s has in
      (e, rw refused refl)

  abbrev IsRaised : Result (Database S) → Type 0
  IsRaised r = (e : Exception) × (r ≡ raised e)

  -- Runs of at least the pending revisions: from the third on, from the second on, and of all.
  raises_from_third :
      (n : ℕ) (s : S)
      → HasEventId s
      → IsRaised (upgrade_by op (suc n) (record { schema = s; version = some "2d9b7f4e6a31" }))
  unfolding upgrade_by
  raises_from_third n s has =
      let (e, refused) = upgrade_event_ids-raises s has in (e, rw refused refl)

  raises_from_second :
      (n : ℕ) (s : S)
      → IsRaised
          (upgrade_by op (suc (suc n)) (record { schema = s; version = some "b8b18f902dcf" }))
  unfolding upgrade_by
  raises_from_second n s = elim (Result-cases (upgrade_webhook_state op s)) [
    | inr (e, refused) ↦ (e, rw refused refl)
    | inl (s', done) ↦
        let (e, stops) = raises_from_third n s' (upgrade_webhook_state-HasEventId s s' done) in
        (e, rw done stops)
  ]

  raises_from_first : (s : S) → IsRaised (upgrade_by op 3 (record { schema = s; version = none }))
  unfolding upgrade_by
  raises_from_first s = elim (Result-cases (upgrade_init op s)) [
    | inr (e, refused) ↦ (e, rw refused refl)
    | inl (s', done) ↦ let (e, stops) = raises_from_second 0 s' in (e, rw done stops)
  ]

  -- The databases before the last revision, that of the second with the columns that it has added.
  pub data IsBeforeHead : Database S → Type 0 where
    fresh : (s : S) → IsBeforeHead (record { schema = s; version = none })
    initial : (s : S) → IsBeforeHead (record { schema = s; version = some "b8b18f902dcf" })
    webhook :
        (s : S) → HasEventId s → IsBeforeHead (record { schema = s; version = some "2d9b7f4e6a31" })

  -- If PostgreSQL adds a column once: `alembic upgrade head` raises in every database that is before the last
  -- revision, and leaves it as it was.
  pub run_migrations_online-raises :
      (db : Database S)
      → IsBeforeHead db
      → (e : Exception) × (run_migrations_online op db ≡ (raised e, db))
  unfolding run_migrations_online
  run_migrations_online-raises db (fresh s) =
      let (e, stops) = raises_from_first s in (e, ap (in_transaction db) stops)
  run_migrations_online-raises db (initial s) =
      let (e, stops) = raises_from_second 1 s in (e, ap (in_transaction db) stops)
  run_migrations_online-raises db (webhook s has) =
      let (e, stops) = raises_from_third 2 s has in (e, ap (in_transaction db) stops)
