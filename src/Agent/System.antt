-- ===== src/Agent/System.antt =====
-- The agent as a whole: backend/src/agent/routers/webhook.py, hil.py and admin.py with the threads of graph.py, as steps
-- that interleave. Each step of a thread is one node.
pub mod Approved
use drift_triage_co_pilot.Prelude.{
  ℕ, ◌≡◌, Bool, true, false, String, List, [], ◌∷◌, ◌++◌, ◌==◌, string_eq, if◌then◌else◌, ok,
}
use drift_triage_co_pilot.Floating.{Float}
use drift_triage_co_pilot.Drift.Report.{DriftWebhookPayload}
use drift_triage_co_pilot.Worker.Dedup.{Redis, Broker}
use drift_triage_co_pilot.Agent.Database.{Database}
use drift_triage_co_pilot.Agent.State.{AgentState, World, Answers}
use drift_triage_co_pilot.Agent.Graph.{Thread, supervisor, is_interrupted, is_ended, advance}
use drift_triage_co_pilot.Agent.Webhook.{create_investigation, initial_state}
use drift_triage_co_pilot.Agent.Hil.{HilApprovalRequest, approve_hil, admin_reset}

-- The threads of the graph and the world that they share.
pub record System (F S : Type 0) : Type 0 where
  pub threads : List (Thread F)
  pub world : World S

-- The investigations that a human has approved, with one more decision.
abbrev pub decided_with : HilApprovalRequest → List String → List String
decided_with payload decided =
    if payload.decision == "approved" then payload.investigation_id ∷ decided else decided

abbrev pub is_decided : String → List String → Bool
is_decided id [] = false
is_decided id (x ∷ xs) = let rest = is_decided id xs in if x == id then true else rest

module _ {F S : Type 0} ⦃f : Float F⦄ ⦃r : Redis S⦄ where
  -- One step of the agent, from the approved investigations and the system before it to those after it.
  pub data Step : List String → System F S → List String → System F S → Type 0 where
    -- a delivery of a webhook that opens an investigation, whose SELECT saw an earlier database
    opened :
        (decided : List String) (threads : List (Thread F)) (w : World S) (id : String)
        (p : DriftWebhookPayload F) (before : Database)
        → (create_investigation id p before w.database).0 ≡ ok (id, true)
        → Step decided
            (record { threads = threads; world = w })
            decided
            (record {
              threads = record { pending = supervisor; state = initial_state id p } ∷ threads;
              world = record w { database = (create_investigation id p before w.database).1 };
            })
    -- a node of a thread that neither waits at the interrupt nor has ended
    ran :
        (decided : List String) (before after : List (Thread F)) (t : Thread F) (w : World S)
        (a : Answers F)
        → is_interrupted t.pending ≡ false
        → is_ended t.pending ≡ false
        → Step decided
            (record { threads = before ++ t ∷ after; world = w })
            decided
            (record { threads = before ++ (advance a t w).0 ∷ after; world = (advance a t w).1 })
    -- the node behind the interrupt, once a human has approved the investigation
    resumed :
        (decided : List String) (before after : List (Thread F)) (t : Thread F) (w : World S)
        (a : Answers F)
        → is_interrupted t.pending ≡ true
        → is_decided t.state.investigation_id decided ≡ true
        → Step decided
            (record { threads = before ++ t ∷ after; world = w })
            decided
            (record { threads = before ++ (advance a t w).0 ∷ after; world = (advance a t w).1 })
    -- a decision of a human
    decided_on :
        (decided : List String) (threads : List (Thread F)) (w : World S)
        (payload : HilApprovalRequest)
        → Step decided
            (record { threads = threads; world = w })
            (decided_with payload decided)
            (record {
              threads = threads;
              world = record w { database = (approve_hil payload w.database).1 };
            })
    -- the reset of the tables
    reset :
        (decided : List String) (threads : List (Thread F)) (w : World S)
        → Step decided
            (record { threads = threads; world = w })
            decided
            (record { threads = threads; world = record w { database = admin_reset w.database } })
    -- the worker takes jobs, and keys expire
    served :
        (decided : List String) (threads : List (Thread F)) (w : World S) (broker : Broker S)
        → Step decided
            (record { threads = threads; world = w })
            decided
            (record { threads = threads; world = record w { broker = broker } })

  -- What the agent can reach from a start without threads and without requests for approval.
  pub data Reach : List String → System F S → Type 0 where
    started :
        (w : World S)
        → w.database.hil_approvals ≡ []
        → Reach [] (record { threads = []; world = w })
    stepped :
        (decided decided' : List String) (s s' : System F S)
        → Reach decided s
        → Step decided s decided' s'
        → Reach decided' s'
