-- ===== src/Engine.antt =====
-- src/engine: the state machine of executions and steps, the context, the graph of a workflow,
-- the parser and the orchestrator.
pub mod Session
pub mod Frame
pub mod State
pub mod Models
pub mod Context
pub mod Graph
pub mod Cycles
pub mod Parser
pub mod Orchestrator
pub mod Start
pub mod Tests
