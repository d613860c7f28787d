-- ===== src/Migrations/RoundTrip.antt =====
-- backend/migrations/versions: the upgrades of the first two revisions, and their downgrades in reverse.
use drift_triage_co_pilot.Prelude.{◌≡◌, ap, ◌∙◌, ok, ◌>>=◌, bind_parts}
use drift_triage_co_pilot.Migrations.{Operations, IsPostgres}
use drift_triage_co_pilot.Migrations.Versions.{
  create_tables, upgrade_init, downgrade_init, upgrade_webhook_state, downgrade_webhook_state,
  upgrade_event_ids, downgrade_event_ids, drift_event_id, drift_report_id,
}

module _ {S : Type 0} (op : Operations S) (pg : IsPostgres op) where
  downgrade-create_tables : (s s' : S) → create_tables op s ≡ ok s' → downgrade_init op s' ≡ ok s
  unfolding create_tables downgrade_init
  downgrade-create_tables s s' done =
      let (a, ea, ra) = bind_parts (op.create_table _ _ _ s) _ done in
      let (b, eb, rb) = bind_parts (op.create_table _ _ _ a) _ ra in
      let (c, ec, rc) = bind_parts (op.create_index _ _ _ b) _ rb in
      let (d, ed, rd) = bind_parts (op.create_table _ _ _ c) _ rc in
      rw
        (
          pg.drop-create_table _ _ _ d s' rd,
          pg.drop-create_table _ _ _ c d ed,
          pg.drop-create_index _ _ _ b c ec,
          pg.drop-create_table _ _ _ a b eb,
        )
        (pg.drop-create_table _ _ _ s a ea)

  downgrade-upgrade_webhook_state :
      (s s' : S) → upgrade_webhook_state op s ≡ ok s' → downgrade_webhook_state op s' ≡ ok s
  unfolding upgrade_webhook_state downgrade_webhook_state
  downgrade-upgrade_webhook_state s s' done =
      let (a, ea, ra) = bind_parts (op.create_table _ _ _ s) _ done in
      let (b, eb, rb) = bind_parts (op.add_column _ _ a) _ ra in
      let (c, ec, rc) = bind_parts (op.add_column _ _ b) _ rb in
      let (d, ed, rd) = bind_parts (op.create_unique_constraint _ _ _ c) _ rc in
      rw
        (
          pg.drop-create_unique _ _ _ d s' rd,
          pg.drop-create_unique _ _ _ c d ed,
          pg.drop-add_column _ drift_report_id b c ec,
          pg.drop-add_column _ drift_event_id a b eb,
        )
        (pg.drop-create_table _ _ _ s a ea)

  pub downgrade-upgrade_event_ids :
      (s s' : S) → upgrade_event_ids op s ≡ ok s' → downgrade_event_ids op s' ≡ ok s
  unfolding upgrade_event_ids downgrade_event_ids
  downgrade-upgrade_event_ids s s' done =
      let (a, ea, ra) = bind_parts (op.add_column _ _ s) _ done in
      rw (pg.drop-add_column _ drift_report_id a s' ra) (pg.drop-add_column _ drift_event_id s a ea)

  -- If PostgreSQL undoes each statement by its opposite: where the upgrades of the first two revisions succeed,
  -- their downgrades succeed after them. That of the second gives the schema that was there before its upgrade,
  -- and then that of the first gives the schema that was there before both, with the two extensions.
  pub downgrade-upgrade :
      (s s1 s2 : S)
      → upgrade_init op s ≡ ok s1
      → upgrade_webhook_state op s1 ≡ ok s2
      → (downgrade_webhook_state op s2 ≡ ok s1)
        × ((b : S) × ((op.create_extension "pgvector" s >>= op.create_extension "uuid-ossp") ≡ ok b)
            × (downgrade_init op s1 ≡ ok b))
  unfolding upgrade_init
  downgrade-upgrade s s1 s2 first second =
      let (a, ea, ra) = bind_parts (op.create_extension "pgvector" s) _ first in
      let (b, eb, rb) = bind_parts (op.create_extension "uuid-ossp" a) _ ra in
      (
        downgrade-upgrade_webhook_state s1 s2 second,
        (
          b,
          ap (λ r. r >>= op.create_extension "uuid-ossp") ea ∙ eb,
          downgrade-create_tables b s1 rb,
        ),
      )
