-- ===== src/Agent/Graph/Loop.antt =====
-- The engine's loop over the graph of backend/src/agent/graph.py: when it comes to a stop.
use drift_triage_co_pilot.Prelude.{
  ℕ, ◌+◌, ◌*◌, ◌≤◌, ◌<◌, ◌≡◌, inl, inr, refl, Bool, true, false, not, ◌&&◌, ◌||◌, truthy, none,
  List, [], ◌∷◌, Result, ok, raised, All, length, Bool-cases, Result-cases, or_else, arith,
}
use drift_triage_co_pilot.Drift.Report.{DriftReport}
use drift_triage_co_pilot.Worker.Dedup.{Redis}
use drift_triage_co_pilot.Agent.Tools.{has_length, inspect_drift, safe_run, wrap}
use drift_triage_co_pilot.Agent.State.{
  NextStep, triage_agent, action_agent, request_hil, pause_for_human, dispatch, comms_agent, end,
  AgentState, World, Answers, TriageOutput,
}
use drift_triage_co_pilot.Agent.Routing.{
  choose_next_step, supervisor_node, route_from_supervisor, alert_name, is_some,
}
use drift_triage_co_pilot.Agent.Nodes.{
  action_agent_node, triage_agent_node, request_hil_node, pause_for_human_node, fallback_analysis,
}
use drift_triage_co_pilot.Agent.Dispatch.{dispatch_node, comms_agent_node}
use drift_triage_co_pilot.Agent.Graph.{
  Node, supervisor, node, Thread, is_interrupted, is_ended, next_node, run_node, advance, invoke,
}
use drift_triage_co_pilot.Agent.Graph.Progress.{
  rank, rank-supervised, triage-lowers, action-lowers, request-lowers, pause-lowers,
  dispatch-lowers, comms-lowers,
}

-- The thread is at the end, or before a node that it is interrupted at.
abbrev pub is_stopped : Node → Bool
is_stopped p = is_ended p || is_interrupted p

abbrev short_hypothesis : Result TriageOutput → Bool
short_hypothesis (raised e) = true
short_hypothesis (ok analysis) = has_length 1 1024 analysis.hypothesis

abbrev answered : {A : Type 0} → Result A → Bool
answered (raised e) = false
answered (ok a) = true

rank-zero : (n : NextStep) → rank n ≡ 0 → n ≡ end
rank-zero n h = ground (arith, h)

rank-bound : (n : NextStep) → rank n ≤ 6
rank-bound n = ground arith

the_interrupt : (p : Node) → is_ended p ≡ false → is_stopped p ≡ true → is_interrupted p ≡ true
the_interrupt p on stopped = ground (arith, on, stopped)

no_interrupt : (p : Node) → is_stopped p ≡ false → is_interrupted p ≡ false
no_interrupt p goes = ground (arith, goes)

module _ {F : Type 0} where
  -- The drift service answers, and a hypothesis of the LLM is one that `propose_action` accepts.
  abbrev pub answers_well : Answers F → Bool
  answers_well a = answered a.fetch_report && short_hypothesis a.triage

  -- The alert names a model, and the notes of a finished triage are ones that `propose_action` accepts.
  abbrev pub is_ready : AgentState F → Bool
  is_ready s = truthy (alert_name s) && (not (is_some s.report) || has_length 1 1024 s.triage_notes)

  fallback_is_short :
      (s : AgentState F) (report : DriftReport F)
      → has_length 1 1024 (fallback_analysis s report).hypothesis ≡ true
  unfolding fallback_analysis
  fallback_is_short s report = refl

  acting-triaged : (s : AgentState F) → choose_next_step s ≡ action_agent → is_some s.report ≡ true
  unfolding choose_next_step
  acting-triaged s here = ground (arith, here)

  -- Twice the rank, as the supervisor runs before each other node.
  abbrev measure : Node → AgentState F → ℕ
  measure supervisor s = 1 + 2 * rank (choose_next_step s)
  measure (node n) s = 2 * rank n

  abbrev IsOnTrack : Node → AgentState F → Type 0
  IsOnTrack supervisor s = Unit
  IsOnTrack (node n) s = choose_next_step s ≡ n

  analysis_is_short :
      (a : Answers F) (s : AgentState F) (report : DriftReport F)
      → answers_well a ≡ true
      → has_length 1 1024 (or_else a.triage (fallback_analysis s report)).hypothesis ≡ true
  analysis_is_short a s report well = elim (Result-cases a.triage) [
    | inl (o, told) ↦ rw told (ground (arith, told))
    | inr (e, fault) ↦ rw fault (fallback_is_short s report)
  ]

  node-returns :
      (n : NextStep) (s : AgentState F)
      → is_ended (node n) ≡ false
      → next_node (node n) s ≡ supervisor
  unfolding next_node
  node-returns n s h = ground arith

  module _ {S : Type 0} ⦃r : Redis S⦄ where
    node-lowers :
        (n : NextStep) (a : Answers F) (s : AgentState F) (w : World S)
        → choose_next_step s ≡ n
        → is_ready s ≡ true
        → answers_well a ≡ true
        → is_ended (node n) ≡ false
        → rank (choose_next_step (run_node a (node n) s w).0) < rank n
    unfolding run_node
    node-lowers triage_agent a s w here ready well goes = elim (Result-cases a.fetch_report) [
      | inl (report, fetched) ↦ triage-lowers a report s w fetched (ground arith)
      | inr (e, fault) ↦ ground arith
    ]
    node-lowers action_agent a s w here ready well goes =
        action-lowers s here (ground (arith, acting-triaged s here))
    node-lowers request_hil a s w here ready well goes = request-lowers a s w here
    node-lowers pause_for_human a s w here ready well goes = pause-lowers s w here
    node-lowers dispatch a s w here ready well goes = dispatch-lowers a s w here
    node-lowers comms_agent a s w here ready well goes = comms-lowers a s w here
    node-lowers end a s w here ready well goes = ground arith

    triaged-is_ready :
        (a : Answers F) (report : DriftReport F) (s : AgentState F) (w : World S)
        → a.fetch_report ≡ ok report
        → truthy (alert_name s) ≡ true
        → has_length 1 1024 (or_else a.triage (fallback_analysis s report)).hypothesis ≡ true
        → is_ready (triage_agent_node a s w).0 ≡ true
    unfolding triage_agent_node inspect_drift safe_run wrap
    triaged-is_ready a report s w fetched named short = ground (arith, named, fetched, short)

    node-is_ready :
        (p : Node) (a : Answers F) (s : AgentState F) (w : World S)
        → is_ready s ≡ true
        → answers_well a ≡ true
        → is_ready (run_node a p s w).0 ≡ true
    unfolding run_node supervisor_node triage_agent_node inspect_drift safe_run wrap
        action_agent_node request_hil_node pause_for_human_node dispatch_node comms_agent_node
    node-is_ready supervisor a s w ready well = ready
    node-is_ready (node triage_agent) a s w ready well = elim (Result-cases a.fetch_report) [
      | inl (report, fetched) ↦
          triaged-is_ready a report s w fetched (ground arith) (analysis_is_short a s report well)
      | inr (e, fault) ↦ ground arith
    ]
    node-is_ready (node action_agent) a s w ready well = ground arith
    node-is_ready (node request_hil) a s w ready well = ground arith
    node-is_ready (node pause_for_human) a s w ready well = ground arith
    node-is_ready (node dispatch) a s w ready well = ground arith
    node-is_ready (node comms_agent) a s w ready well = ground arith
    node-is_ready (node end) a s w ready well = ready

    pub invoke-stopped :
        (answers : List (Answers F)) (t : Thread F) (w : World S)
        → is_stopped t.pending ≡ true
        → invoke answers t w ≡ (t, w)
    unfolding invoke
    invoke-stopped [] t w h = refl
    invoke-stopped (a ∷ rest) t w h = elim (Bool-cases (is_ended t.pending)) [
      | inl over ↦ rw (over, invoke) refl
      | inr on ↦ rw (on, the_interrupt t.pending on h, invoke) refl
    ]

    pub invoke-advances :
        (a : Answers F) (rest : List (Answers F)) (t : Thread F) (w : World S)
        → is_stopped t.pending ≡ false
        → invoke (a ∷ rest) t w ≡ invoke rest (advance a t w).0 (advance a t w).1
    unfolding invoke
    invoke-advances a rest t w h = elim (Bool-cases (is_ended t.pending)) [
      | inl over ↦ ground arith
      | inr on ↦ rw (on, no_interrupt t.pending h, invoke) refl
    ]

    advance-steps :
        (p : Node) (a : Answers F) (s : AgentState F) (w : World S)
        → IsOnTrack p s
        → is_ready s ≡ true
        → answers_well a ≡ true
        → is_ended p ≡ false
        → let t = (advance a (record { pending = p; state = s }) w).0 in
          IsOnTrack t.pending t.state
          × is_ready t.state ≡ true
          × measure t.pending t.state < measure p s
    unfolding advance run_node next_node route_from_supervisor supervisor_node
    advance-steps supervisor a s w track ready well goes = (rank-supervised s, ready, omega arith)
    advance-steps (node n) a s w track ready well goes =
        rw (node-returns n (run_node a (node n) s w).0 goes) (
          tt,
          node-is_ready (node n) a s w ready well,
          omega (arith, node-lowers n a s w track ready well goes),
        )

    invoke-stops_within :
        (answers : List (Answers F)) (p : Node) (s : AgentState F) (w : World S)
        → IsOnTrack p s
        → is_ready s ≡ true
        → All (λ a. answers_well a ≡ true) answers
        → measure p s ≤ length answers
        → is_stopped (invoke answers (record { pending = p; state = s }) w).0.pending ≡ true
    unfolding invoke
    invoke-stops_within [] supervisor s w track ready well enough = ground (arith, enough)
    invoke-stops_within [] (node n) s w track ready well enough =
        rw (rank-zero n (omega (arith, enough))) refl
    invoke-stops_within (a ∷ rest) p s w track ready well enough =
        elim (Bool-cases (is_stopped p)) [
          | inl stopped ↦
              rw (invoke-stopped (a ∷ rest) (record { pending = p; state = s }) w stopped) stopped
          | inr goes ↦
              let next = (advance a (record { pending = p; state = s }) w).0 in
              let (track', ready', less) =
                advance-steps p a s w track ready well.0 (ground (arith, goes)) in
              rw (invoke-advances a rest (record { pending = p; state = s }) w goes) (
                invoke-stops_within rest next.pending next.state
                  (advance a (record { pending = p; state = s }) w).1 track' ready' well.1
                  (omega (arith, less, enough)))
        ]

    -- From the entry point, an investigation without a report, whose alert names a model, comes to the end or to
    -- the interrupt before `pause_for_human` within thirteen node runs, if the drift service answers each time
    -- and each hypothesis of the LLM has 1 to 1024 characters.
    pub invoke-stops :
        (answers : List (Answers F)) (s : AgentState F) (w : World S)
        → truthy (alert_name s) ≡ true
        → s.report ≡ none
        → All (λ a. answers_well a ≡ true) answers
        → 13 ≤ length answers
        → is_stopped (invoke answers (record { pending = supervisor; state = s }) w).0.pending
          ≡ true
    invoke-stops answers s w named fresh well enough =
        invoke-stops_within answers supervisor s w tt (rw fresh (ground (arith, named))) well
          (omega (arith, enough, rank-bound (choose_next_step s)))
