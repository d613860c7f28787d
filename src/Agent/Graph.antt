-- ===== src/Agent/Graph.antt =====
-- `build_graph` of backend/src/agent/graph.py: the nodes, the edges and the interrupt, as a thread that
-- the engine advances node by node. LangGraph's documented behaviour is to run the pending node, to
-- follow its edge, and to stop before a node named in `interrupt_before` until it is resumed.
pub mod Progress
pub mod Loop
pub mod Livelock
pub mod Approval
use drift_triage_co_pilot.Prelude.{Bool, true, false, List, [], ◌∷◌, if◌then◌else◌}
use drift_triage_co_pilot.Worker.Dedup.{Redis}
use drift_triage_co_pilot.Agent.State.{
  NextStep, triage_agent, action_agent, request_hil, pause_for_human, dispatch, comms_agent, end,
  AgentState, World, Answers,
}
use drift_triage_co_pilot.Agent.Routing.{supervisor_node, route_from_supervisor}
use drift_triage_co_pilot.Agent.Nodes.{
  triage_agent_node, action_agent_node, request_hil_node, pause_for_human_node,
}
use drift_triage_co_pilot.Agent.Dispatch.{comms_agent_node, dispatch_node}

-- The pending node of a thread: the supervisor, which is the entry point, or the node behind one of the
-- supervisor's conditional edges, where `end` is END.
pub data Node : Type 0 where
  supervisor : Node
  node : NextStep → Node

pub record Thread (F : Type 0) : Type 0 where
  pub pending : Node
  pub state : AgentState F

-- `interrupt_before=["pause_for_human"]`
abbrev pub is_interrupted : Node → Bool
is_interrupted (node pause_for_human) = true
is_interrupted other = false

abbrev pub is_ended : Node → Bool
is_ended (node end) = true
is_ended other = false

module _ {F : Type 0} where
  -- The edges, followed from the state that the node has left.
  unfoldable pub next_node : Node → AgentState F → Node
  next_node supervisor s = node (route_from_supervisor s)
  next_node (node end) s = node end
  next_node (node other) s = supervisor

  module _ {S : Type 0} ⦃r : Redis S⦄ where
    unfoldable pub run_node : Answers F → Node → AgentState F → World S → AgentState F × World S
    run_node a supervisor s w = (supervisor_node s, w)
    run_node a (node triage_agent) s w = triage_agent_node a s w
    run_node a (node action_agent) s w = (action_agent_node s, w)
    run_node a (node request_hil) s w = request_hil_node a s w
    run_node a (node pause_for_human) s w = (pause_for_human_node s w, w)
    run_node a (node dispatch) s w = dispatch_node a s w
    run_node a (node comms_agent) s w = comms_agent_node a s w
    run_node a (node end) s w = (s, w)

    -- The pending node runs, and its edge gives the next.
    unfoldable pub advance : Answers F → Thread F → World S → Thread F × World S
    unfolding run_node next_node
    advance a t w =
        let (s, w') = run_node a t.pending t.state w in
        (record { pending = next_node t.pending s; state = s }, w')

    -- The engine's loop, with the answers of one node each; it stops at the end and at the interrupt.
    unfoldable pub invoke : List (Answers F) → Thread F → World S → Thread F × World S
    invoke [] t w = (t, w)
    invoke (a ∷ rest) t w = elim (is_ended t.pending) [
      | true ↦ (t, w)
      | false ↦ elim (is_interrupted t.pending) [
        | true ↦ (t, w)
        | false ↦ let (t', w') = advance a t w in invoke rest t' w'
      ]
    ]

    -- `graph.ainvoke(None, config)`: a thread that waits at the interrupt runs the node and goes on.
    unfoldable pub resume : List (Answers F) → Thread F → World S → Thread F × World S
    resume [] t w = (t, w)
    resume (a ∷ rest) t w =
        if is_interrupted t.pending
        then (let (t', w') = advance a t w in invoke rest t' w')
        else (t, w)
