-- ===== src/Agent.antt =====
-- backend/src/agent: the supervisor graph, its tools, the webhook and the approval endpoints.
pub mod Database
pub mod Security
pub mod Tools
pub mod Staleness
pub mod State
pub mod Routing
pub mod Nodes
pub mod Dispatch
pub mod Graph
pub mod Webhook
pub mod Hil
pub mod System
pub mod Queue
pub mod Llm
mod Tests
