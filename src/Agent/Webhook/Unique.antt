-- ===== src/Agent/Webhook/Unique.antt =====
-- backend/src/agent/routers/webhook.py: deliveries, and what other requests commit between its SELECT and its INSERT.
use drift_triage_co_pilot.Prelude.{
  ◌≡◌, inl, inr, refl, false, String, none, some, List, [], ◌∷◌, ◌++◌, string_eq, find_first, All,
  All-append, Bool-cases, Option-cases, arith,
}
use drift_triage_co_pilot.Floating.{Float}
use drift_triage_co_pilot.Drift.Report.{DriftWebhookPayload}
use drift_triage_co_pilot.Agent.Database.{Investigation, Database}
use drift_triage_co_pilot.Agent.Webhook.{
  after_insert, find_existing_investigation, insert_investigation, create_investigation, violates,
  new_investigation,
}

-- No row shares its identifier, its event or its report with a later one.
abbrev pub IsUnique : List Investigation → Type 0
IsUnique [] = Unit
IsUnique (row ∷ rows) = All (λ later. violates later row ≡ false) rows × IsUnique rows

IsUnique-append :
    (rows : List Investigation) (new : Investigation)
    → IsUnique rows
    → find_first (violates new) rows ≡ none
    → IsUnique (rows ++ new ∷ [])
IsUnique-append [] new unique absent = (tt, tt)
IsUnique-append (row ∷ rows) new unique absent = elim (Bool-cases (violates new row)) [
  | inl clash ↦ ground (arith, rw (clash, find_first) at absent)
  | inr clear ↦ (
    All-append (λ later. violates later row ≡ false) rows (new ∷ []) unique.0 (clear, tt),
    IsUnique-append rows new unique.1 (rw (clear, find_first) at absent),
  )
]

pub insert-clear :
    (new : Investigation) (db : Database)
    → find_first (violates new) db.investigations ≡ none
    → insert_investigation new db
      ≡ some (record db { investigations = db.investigations ++ new ∷ [] })
unfolding insert_investigation
insert-clear new db clear = rw (clear, insert_investigation) refl

pub insert-clash :
    (new row : Investigation) (db : Database)
    → find_first (violates new) db.investigations ≡ some row
    → insert_investigation new db ≡ none
unfolding insert_investigation
insert-clash new row db clash = rw (clash, insert_investigation) refl

module _ {F : Type 0} ⦃f : Float F⦄ where
  -- If no two investigations share an identifier, an event or a report, then none do after a delivery.
  create_investigation-IsUnique :
      (investigation_id : String) (p : DriftWebhookPayload F) (before at_commit : Database)
      → IsUnique at_commit.investigations
      → IsUnique (create_investigation investigation_id p before at_commit).1.investigations
  unfolding create_investigation after_insert
  create_investigation-IsUnique investigation_id p before at_commit unique =
      elim (Option-cases (find_existing_investigation p.event_id p.report_id before)) [
        | inr (existing, found) ↦ rw (found, create_investigation) unique
        | inl new ↦
            elim (Option-cases (
              find_first (violates (new_investigation investigation_id p))
                at_commit.investigations)) [
                  | inl clear ↦
                      rw
                        (
                          new,
                          insert-clear (new_investigation investigation_id p) at_commit clear,
                          create_investigation,
                        )
                        (IsUnique-append at_commit.investigations
                          (new_investigation investigation_id p) unique clear)
                  | inr (row, clash) ↦
                      elim (Option-cases
                        (find_existing_investigation p.event_id p.report_id at_commit)) [
                          | inl none_there ↦
                              rw
                                (
                                  new,
                                  insert-clash (new_investigation investigation_id p) row at_commit
                                      clash,
                                  none_there,
                                  create_investigation,
                                  after_insert,
                                )
                                unique
                          | inr (existing, found) ↦
                              rw
                                (
                                  new,
                                  insert-clash (new_investigation investigation_id p) row at_commit
                                      clash,
                                  found,
                                  create_investigation,
                                  after_insert,
                                )
                                unique
                        ]
                ]
      ]
