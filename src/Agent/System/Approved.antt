-- ===== src/Agent/System/Approved.antt =====
-- The agent as a whole: the approvals, and what a step of a thread may enqueue.
use drift_triage_co_pilot.Prelude.{
  ◌≡◌, refl, sym, subst, ◌⊎◌, inl, inr, true, false, ◌&&◌, String, List, [], ◌∷◌, ◌++◌, ◌==◌,
  string_eq, All, All-append, All-append_left, All-append_right, Occurs, Bool-cases, beq-path,
  arith,
}
use drift_triage_co_pilot.Floating.{Float}
use drift_triage_co_pilot.Drift.Report.{DriftWebhookPayload}
use drift_triage_co_pilot.Worker.Dedup.{Redis}
use drift_triage_co_pilot.Agent.Database.{Database}
use drift_triage_co_pilot.Agent.State.{
  AgentState, World, Answers, triage_agent, action_agent, request_hil, pause_for_human, dispatch,
  comms_agent, end,
}
use drift_triage_co_pilot.Agent.Routing.{supervisor_node}
use drift_triage_co_pilot.Agent.Dispatch.{dispatch_node, enqueue_action, block}
use drift_triage_co_pilot.Agent.Graph.{Node, supervisor, node, Thread, run_node, advance}
use drift_triage_co_pilot.Agent.Graph.Approval.{
  HasNoApproval, approves_not, is_guarded, triage-keeps, action-keeps, pause-keeps, request-keeps,
  comms-keeps, request-HasNoApproval, node-IsQuiet,
}
use drift_triage_co_pilot.Agent.Webhook.{
  create_investigation, after_insert, insert_investigation, initial_state,
}
use drift_triage_co_pilot.Agent.Hil.{HilApprovalRequest}
use drift_triage_co_pilot.Agent.Hil.Decision.{approve_hil-HasNoApproval, admin_reset-HasNoApproval}
use drift_triage_co_pilot.Agent.System.{
  System, Step, opened, ran, resumed, decided_on, reset, served, Reach, started, stepped,
  decided_with, is_decided,
}

is_decided-Occurs :
    (id : String) (decided : List String) → is_decided id decided ≡ true → Occurs id decided
is_decided-Occurs id [] h = ground (arith, h)
is_decided-Occurs id (x ∷ xs) h = elim (Bool-cases (x == id)) [
  | inl same ↦ inl (beq-path x id same)
  | inr other ↦ inr (is_decided-Occurs id xs (rw (other, is_decided) at h))
]

decide :
    (id : String) (payload : HilApprovalRequest) (decided : List String)
    → is_decided id (decided_with payload decided) ≡ false
    → ((payload.decision == "approved" && payload.investigation_id == id) ≡ false)
      × (is_decided id decided ≡ false)
decide id payload decided h = elim (Bool-cases (payload.decision == "approved")) [
  | inr other ↦ (rw other refl, rw (other, decided_with) at h)
  | inl approves ↦
      let h' : is_decided id (payload.investigation_id ∷ decided) ≡ false =
        rw (approves, decided_with) at h in
      elim (Bool-cases (payload.investigation_id == id)) [
        | inl same ↦ ground (arith, rw (same, is_decided) at h')
        | inr differs ↦ (rw (approves, differs) refl, rw (differs, is_decided) at h')
      ]
]

module _ {F : Type 0} ⦃f : Float F⦄ where
  create-keeps :
      (id : String) (p : DriftWebhookPayload F) (before db : Database)
      → (create_investigation id p before db).1.hil_approvals ≡ db.hil_approvals
  unfolding create_investigation after_insert insert_investigation
  create-keeps id p before db = ground arith

  initial-guarded :
      (id : String) (p : DriftWebhookPayload F) → is_guarded (initial_state id p) ≡ true
  unfolding initial_state
  initial-guarded id p = refl

module _ {F S : Type 0} ⦃f : Float F⦄ ⦃r : Redis S⦄ where
  dispatch-keeps :
      (a : Answers F) (s : AgentState F) (w : World S)
      → is_guarded s ≡ true
      → ((dispatch_node a s w).1.database ≡ w.database)
        × (is_guarded (dispatch_node a s w).0 ≡ true)
  unfolding dispatch_node enqueue_action block
  dispatch-keeps a s w guarded = ground arith

  -- Every thread asks for approval of what it proposes, and what no human has approved has no approved row.
  record IsSafe (decided : List String) (s : System F S) : Type 0 where
    guarded : All (λ t. is_guarded t.state ≡ true) s.threads
    undecided : (id : String) → is_decided id decided ≡ false → HasNoApproval id s.world.database

  node-keeps :
      (p : Node) (a : Answers F) (s : AgentState F) (w : World S)
      → is_guarded s ≡ true
      → (is_guarded (run_node a p s w).0 ≡ true)
        × ((id : String)
            → HasNoApproval id w.database
            → HasNoApproval id (run_node a p s w).1.database)
  unfolding run_node supervisor_node
  node-keeps supervisor a s w guarded = (guarded, λ id h. h)
  node-keeps (node triage_agent) a s w guarded =
      let (world, guarded', same) = triage-keeps a s w guarded in
      (guarded', λ id h. subst (λ v. HasNoApproval id v.database) (sym world) h)
  node-keeps (node action_agent) a s w guarded = ((action-keeps s guarded).0, λ id h. h)
  node-keeps (node request_hil) a s w guarded =
      let (broker, guarded', same) = request-keeps a s w guarded in
      (guarded', λ id h. request-HasNoApproval a s w id h)
  node-keeps (node pause_for_human) a s w guarded = ((pause-keeps s w guarded).0, λ id h. h)
  node-keeps (node dispatch) a s w guarded =
      let (tables, guarded') = dispatch-keeps a s w guarded in
      (guarded', λ id h. subst (HasNoApproval id) (sym tables) h)
  node-keeps (node comms_agent) a s w guarded =
      let (broker, rows, guarded', same) = comms-keeps a s w guarded in
      (guarded', λ id h. subst (λ v. All (λ row. approves_not id row ≡ true) v) (sym rows) h)
  node-keeps (node end) a s w guarded = (guarded, λ id h. h)

  advanced :
      (decided : List String) (before after : List (Thread F)) (t : Thread F) (w : World S)
      (a : Answers F)
      → IsSafe decided (record { threads = before ++ t ∷ after; world = w })
      → IsSafe decided
          (record { threads = before ++ (advance a t w).0 ∷ after; world = (advance a t w).1 })
  unfolding advance
  advanced decided before after t w a safe =
      let Guarded : Thread F → Type 0 = λ t. is_guarded t.state ≡ true in
      let tail = All-append_right Guarded before (t ∷ after) safe.guarded in
      let (guarded, keeps) = node-keeps t.pending a t.state w tail.0 in
      record {
        guarded =
            All-append Guarded before _ (All-append_left Guarded before (t ∷ after) safe.guarded)
              (guarded, tail.1);
        undecided = λ id h. keeps id (safe.undecided id h);
      }

  Step-IsSafe :
      (decided decided' : List String) (s s' : System F S)
      → Step decided s decided' s'
      → IsSafe decided s
      → IsSafe decided' s'
  Step-IsSafe decided decided' s s' (opened _ threads w id p before created) safe = record {
    guarded = (initial-guarded id p, safe.guarded);
    undecided = λ other h.
        subst (λ v. All (λ row. approves_not other row ≡ true) v)
          (sym (create-keeps id p before w.database)) (safe.undecided other h);
  }
  Step-IsSafe decided decided' s s' (ran _ before after t w a waits ends) safe =
      advanced decided before after t w a safe
  Step-IsSafe decided decided' s s' (resumed _ before after t w a waits known) safe =
      advanced decided before after t w a safe
  Step-IsSafe decided decided' s s' (decided_on _ threads w payload) safe = record {
    guarded = safe.guarded;
    undecided = λ id h.
        let (other, before) = decide id payload decided h in
        approve_hil-HasNoApproval id payload w.database other (safe.undecided id before);
  }
  Step-IsSafe decided decided' s s' (reset _ threads w) safe = record {
    guarded = safe.guarded;
    undecided = λ id h. (admin_reset-HasNoApproval id w.database (safe.undecided id h)).0;
  }
  Step-IsSafe decided decided' s s' (served _ threads w broker) safe = record {
    guarded = safe.guarded;
    undecided = safe.undecided;
  }

  Reach-IsSafe : (decided : List String) (s : System F S) → Reach decided s → IsSafe decided s
  Reach-IsSafe decided s (started w none_yet) = record {
    guarded = tt;
    undecided = λ id h. subst (λ v. All (λ row. approves_not id row ≡ true) v) (sym none_yet) tt;
  }
  Reach-IsSafe decided s (stepped before _ t _ reached step) =
      Step-IsSafe before decided t s step (Reach-IsSafe before t reached)

  -- In every system that the agent can reach, however the deliveries of webhooks, the nodes of the threads, the
  -- decisions, the resumptions, the resets and the worker interleave: either a human has approved the investigation
  -- of a thread, or `hil_approvals` holds no approved row of it and the next node of the thread leaves the queue and
  -- the keys as they are.
  pub Reach-needs_approval :
      (decided : List String) (before after : List (Thread F)) (t : Thread F) (w : World S)
      (a : Answers F)
      → Reach decided (record { threads = before ++ t ∷ after; world = w })
      → Occurs t.state.investigation_id decided
        ⊎ HasNoApproval t.state.investigation_id w.database × ((advance a t w).1.broker ≡ w.broker)
  unfolding advance
  Reach-needs_approval decided before after t w a reached =
      let safe = Reach-IsSafe decided _ reached in
      let guarded =
        All-append_right (λ (t : Thread F). is_guarded t.state ≡ true) before (t ∷ after)
          safe.guarded in
      elim (Bool-cases (is_decided t.state.investigation_id decided)) [
        | inl known ↦ inl (is_decided-Occurs t.state.investigation_id decided known)
        | inr unknown ↦
            let none_yet = safe.undecided t.state.investigation_id unknown in
            let quiet =
              node-IsQuiet t.pending a t.state w t.state.investigation_id w.broker
                (refl, guarded.0, none_yet, refl) in
            inr (none_yet, quiet.3)
      ]
