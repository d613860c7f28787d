-- ===== src/Service/Alerts/Delivery.antt =====
-- backend/src/service/routers/drift.py with backend/src/agent/routers/webhook.py at the other end: a webhook that is
-- posted again.
use drift_triage_co_pilot.Prelude.{
  ◌≡◌, ◌⊎◌, inl, inr, refl, sym, ap, ◌∙◌, true, false, Bool, String, none, some, List, [], ◌∷◌,
  ◌++◌, string_eq, find_first, Result, ok, raised, Exception, timeout_exception, network_error,
  http_status_error, Bool-cases, Option-cases, eq_refl, arith,
}
use drift_triage_co_pilot.Floating.{Float}
use drift_triage_co_pilot.Drift.Report.{DriftWebhookPayload}
use drift_triage_co_pilot.Agent.Database.{Investigation, Database}
use drift_triage_co_pilot.Agent.Webhook.{
  same_event, find_existing_investigation, new_investigation, after_insert, create_investigation,
  violates,
}
use drift_triage_co_pilot.Agent.Webhook.Unique.{insert-clear, insert-clash}
use drift_triage_co_pilot.Service.Alerts.{emit_webhook}
use drift_triage_co_pilot.Tenacity.Decisive.{attempt_up_to-keeps}

-- What becomes of a request on the network.
pub data Transit : Type 0 where
  arrives request_lost answer_lost : Transit

-- The agent's database, and for each request to come its transit and the identifier that the agent draws for it.
pub record AgentWorld : Type 0 where
  pub database : Database
  pub requests : List (Transit × String)

-- `r.raise_for_status()` on the agent's answer: an exception of the handler is a 500.
abbrev answer_status : Result (String × Bool) → Result (Unit {0})
answer_status (ok _) = ok tt
answer_status (raised e) = raised (http_status_error 500 "Internal Server Error")

module _ {F : Type 0} ⦃f : Float F⦄ where
  abbrev transit :
      DriftWebhookPayload F
      → Transit
      → String
      → Database
      → List (Transit × String)
      → Result (Unit {0}) × AgentWorld
  transit p arrives id db rest =
      let done = create_investigation id p db db in
      (answer_status done.0, record { database = done.1; requests = rest })
  transit p answer_lost id db rest = (
    raised (timeout_exception "read"),
    record { database = (create_investigation id p db db).1; requests = rest },
  )
  transit p request_lost id db rest =
      (raised (network_error "connect"), record { database = db; requests = rest })

  -- `client.post(f"{settings.agent_url}/webhook/drift")`
  unfoldable pub post_to_agent : DriftWebhookPayload F → AgentWorld → Result (Unit {0}) × AgentWorld
  post_to_agent p w = elim w.requests [
    | [] ↦ (raised (network_error "connect"), w)
    | (t, id) ∷ rest ↦ transit p t id w.database rest
  ]

  abbrev pub with_new : String → DriftWebhookPayload F → Database → Database
  with_new id p db = record db { investigations = db.investigations ++ new_investigation id p ∷ [] }

  -- The database is as it was, or has one investigation more, of this event.
  abbrev pub OpensAtMostOne : DriftWebhookPayload F → Database → Database → Type 0
  OpensAtMostOne p db db' = (db' ≡ db) ⊎ ((id : String) × (db' ≡ with_new id p db))

  abbrev pub HasInvestigation : DriftWebhookPayload F → Database → Type 0
  HasInvestigation p db =
      (id : String) × (find_existing_investigation p.event_id p.report_id db ≡ some id)

  find_first-last :
      (p : DriftWebhookPayload F) (id : String) (rows : List Investigation)
      → (row : Investigation) × (find_first
            (same_event p.event_id p.report_id)
            (rows ++ new_investigation id p ∷ [])
          ≡ some row)
  find_first-last p id [] = (new_investigation id p, rw (eq_refl p.event_id, find_first) refl)
  find_first-last p id (row ∷ rows) = elim (Bool-cases (same_event p.event_id p.report_id row)) [
    | inl same ↦ (row, rw (same, find_first) refl)
    | inr other ↦ let (found, e) = find_first-last p id rows in (found, rw (other, find_first) e)
  ]

  with_new-HasInvestigation :
      (p : DriftWebhookPayload F) (id : String) (db : Database)
      → HasInvestigation p (with_new id p db)
  unfolding find_existing_investigation
  with_new-HasInvestigation p id db =
      let (row, e) = find_first-last p id db.investigations in
      (row.id, rw (e, find_existing_investigation) refl)

  -- A delivery on a database that no other request changes in between.
  data Delivery (id : String) (p : DriftWebhookPayload F) (db : Database)
      : Result (String × Bool) × Database → Type 0 where
    known :
        (existing : String) → HasInvestigation p db → Delivery id p db (ok (existing, false), db)
    opened :
        find_existing_investigation p.event_id p.report_id db ≡ none
        → Delivery id p db (ok (id, true), with_new id p db)
    refused : (e : Exception) → Delivery id p db (raised e, db)

  create_investigation-Delivery :
      (id : String) (p : DriftWebhookPayload F) (db : Database)
      → Delivery id p db (create_investigation id p db db)
  unfolding create_investigation after_insert
  create_investigation-Delivery id p db =
      elim (Option-cases (find_existing_investigation p.event_id p.report_id db)) [
        | inr (existing, found) ↦
            rw (found, create_investigation) (known existing (existing, found))
        | inl absent ↦
            elim (Option-cases (find_first (violates (new_investigation id p)) db.investigations)) [
              | inl clear ↦
                  rw (absent, insert-clear (new_investigation id p) db clear, create_investigation)
                    (opened absent)
              | inr (row, clash) ↦
                  rw
                    (
                      absent,
                      insert-clash (new_investigation id p) row db clash,
                      create_investigation,
                    )
                    (rw (absent, after_insert) (refused _))
            ]
      ]

  -- What is kept of the database, from the one before the first attempt on.
  abbrev Kept : DriftWebhookPayload F → Database → Database → Type 0
  Kept p db db' = (db' ≡ db) ⊎ ((id : String) × (db' ≡ with_new id p db) × HasInvestigation p db')

  abbrev IsAnswered : DriftWebhookPayload F → Result (Unit {0}) × AgentWorld → Type 0
  IsAnswered p done = ((e : Exception) × (done.0 ≡ raised e)) ⊎ HasInvestigation p done.1.database

  Delivery-Kept :
      (id : String) (p : DriftWebhookPayload F) (db now : Database)
      (done : Result (String × Bool) × Database)
      → Delivery id p now done
      → Kept p db now
      → Kept p db done.1
  Delivery-Kept id p db now done (known existing has) kept = kept
  Delivery-Kept id p db now done (refused e) kept = kept
  Delivery-Kept id p db now done (opened absent) (inl same) =
      inr (id, ap (with_new id p) same, with_new-HasInvestigation p id now)
  Delivery-Kept id p db now done (opened absent) (inr (id', at, (existing, found))) =
      ground (arith, sym absent ∙ found)

  Delivery-answer :
      (id : String) (p : DriftWebhookPayload F) (now : Database)
      (done : Result (String × Bool) × Database)
      → Delivery id p now done
      → ((e : Exception) × (answer_status done.0 ≡ raised e)) ⊎ HasInvestigation p done.1
  Delivery-answer id p now done (known existing has) = inr has
  Delivery-answer id p now done (refused e) = inl (_, refl)
  Delivery-answer id p now done (opened absent) = inr (with_new-HasInvestigation p id now)

  transit-keeps :
      (p : DriftWebhookPayload F) (db : Database) (t : Transit) (id : String) (now : Database)
      (rest : List (Transit × String))
      → Kept p db now
      → Kept p db (transit p t id now rest).1.database × IsAnswered p (transit p t id now rest)
  transit-keeps p db arrives id now rest kept =
      let d = create_investigation-Delivery id p now in
      (Delivery-Kept id p db now _ d kept, Delivery-answer id p now _ d)
  transit-keeps p db answer_lost id now rest kept =
      (Delivery-Kept id p db now _ (create_investigation-Delivery id p now) kept, inl (_, refl))
  transit-keeps p db request_lost id now rest kept = (kept, inl (_, refl))

  post_to_agent-keeps :
      (p : DriftWebhookPayload F) (db : Database) (w : AgentWorld)
      → Kept p db w.database
      → Kept p db (post_to_agent p w).1.database × IsAnswered p (post_to_agent p w)
  unfolding post_to_agent
  post_to_agent-keeps p db w kept =
      elim w.requests
        as (λ requests.
          let done = post_to_agent p (record { database = w.database; requests = requests }) in
          Kept p db done.1.database × IsAnswered p done) [
            | [] ↦ (kept, inl (_, refl))
            | (t, id) ∷ rest ↦ transit-keeps p db t id w.database rest kept
          ]

  -- However many of the attempts or of their answers the network loses, the posting of one webhook leaves the
  -- agent's database as it was or with one investigation more, of this event; and where it succeeds, the event has
  -- an investigation.
  pub emit_webhook-OpensAtMostOne :
      (p : DriftWebhookPayload F) (w : AgentWorld)
      → let done = emit_webhook post_to_agent p w in
        OpensAtMostOne p w.database done.1.database
        × (((e : Exception) × (done.0 ≡ raised e)) ⊎ HasInvestigation p done.1.database)
  unfolding emit_webhook
  emit_webhook-OpensAtMostOne p w =
      let (kept, answered) =
        attempt_up_to-keeps (post_to_agent p) (λ w'. Kept p w.database w'.database) (IsAnswered p)
          (post_to_agent-keeps p w.database) 2 w (inl refl) in
      (elim kept [ inl same ↦ inl same | inr (id, at, has) ↦ inr (id, at) ], answered)
